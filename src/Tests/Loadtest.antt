-- ===== src/Tests/Loadtest.antt =====
-- Runs of the load test, against a broker whose UUIDs are the strings of one letter.
use Prim.Native.Char.{code}
use package.text.Mathlib.Text.{◌==◌ as str_eq}
use mytonprovider_agent.Common.{
  ℕ, zero, suc, ◌≤◌, ◌<◌, ◌≡◌, refl, ◌∙◌, ap, String, true, false, Bool, Option, none, some, List,
  [], ◌∷◌, All, leb, leb→le, if◌then◌else◌, arith,
}
use mytonprovider_agent.Jobs.{ResultEnvelope, Status, absent}
use mytonprovider_agent.World.{Result, ok, err, redis_nil}
use mytonprovider_agent.World.Actions.Ensures.{ok-injective}
use mytonprovider_agent.Consumer.{Message, text}
use mytonprovider_agent.Loadtest.{Flags, Broker, deadline_of, main}
use mytonprovider_agent.Loadtest.Ending.{IsAccounted, main-IsAccounted}
use mytonprovider_agent.Loadtest.Early.{
  floor, ReadsLater, IsOurs, AreAnsweredBy, IsLost, early_results-IsLost,
}

abbrev letters : ℕ → String
letters zero = ""
letters (suc n) = String.◌∷◌ "a" (letters n)

letters_unique : (s t : ℕ) → letters s ≡ letters t → s ≡ t
letters_unique zero zero e = refl
letters_unique zero (suc t) e = cc
letters_unique (suc s) zero e = cc
letters_unique (suc s) (suc t) e = ap suc (letters_unique s t (cc e))

abbrev flags : Flags
flags = record { prefix = "mtpa"; cycle = "scan_master"; count = 1; timeout = 5 }

abbrev result : String → Status → ResultEnvelope
result id status = record {
  job_id = id;
  cycle = "scan_master";
  status = status;
  error = "";
  payload = absent;
  processed_at = 0;
  agent_id = "agent-1";
}

-- a result that bears the id `s`
abbrev message : String → String → Message
message id s = record { id = id; data_field = text s }

abbrev broker : Broker
broker = record {
  ping = λ t. ok tt;
  new_id = letters;
  clock = λ t. t;
  xadd = λ key env t. ok tt;
  xread = λ key id t. ok (message "8-0" "other" ∷ message "9-0" "a" ∷ []);
  unmarshal = λ s. some (result s Status.status_ok);
}

main-IsAccounted_example : IsAccounted 1 (main broker flags 10)
unfolding deadline_of
main-IsAccounted_example =
    main-IsAccounted broker flags 9 10 letters_unique (λ t h. omega (arith, h)) (omega arith)

-- A result of the first trigger was added at tick 3, and a message of another client at tick 7.
abbrev page : Bool → Bool → Result (List Message)
page true true = ok (message "9-0" "other" ∷ [])
page _ _ = err redis_nil

abbrev added_at : String → ℕ
added_at id = if str_eq id "9-0" then 7 else 3

abbrev early_broker : Broker
early_broker = record broker { xread = λ key id t. page (str_eq id "$") (leb t 7) }

Later : String → ℕ → List Message → Type 0
Later id t ms = All (λ m. (floor added_at id t ≤ added_at m.id) × (str_eq m.id "$" ≡ false)) ms

page-Later :
    (id : String) (in_time at_end : Bool) (t : ℕ) (ms : List Message)
    → str_eq id "$" ≡ at_end
    → (in_time ≡ true → t ≤ 7)
    → page at_end in_time ≡ ok ms
    → Later id t ms
unfolding Later
page-Later id true true t ms at h e = rw (← ok-injective e) ((rw at (h refl), refl), tt)
page-Later id false true t ms at h e = absurd (cc e)
page-Later id in_time false t ms at h e = absurd (cc e)

reads_later : ReadsLater early_broker flags added_at
unfolding Later
reads_later = record {
  later = λ id t ms e. page-Later id (leb t 7) (str_eq id "$") t ms refl (leb→le t 7) e;
}

abbrev first_code : String → ℕ
first_code String.[] = 0
first_code (String.◌∷◌ c s) = code c

other_foreign : (s : ℕ) (id : String) → "other" ≡ id → id ≡ letters s → ⊥
other_foreign zero id e h = absurd (omega (arith, ap first_code (e ∙ h)))
other_foreign (suc s) id e h = absurd (omega (arith, ap first_code (e ∙ h)))

job_of : Option ResultEnvelope → String
job_of none = ""
job_of (some env) = env.job_id

page_are_foreign :
    (at_end in_time : Bool) (ms : List Message)
    → page at_end in_time ≡ ok ms
    → All (λ m. IsOurs early_broker m → added_at m.id < 6) ms
unfolding job_of
page_are_foreign true true ms e =
    rw (← ok-injective e)
      ((λ ours. absurd (other_foreign ours.2 ours.0.job_id (ap job_of ours.1) ours.3)), tt)
page_are_foreign true false ms e = absurd (cc e)
page_are_foreign false in_time ms e = absurd (cc e)

answered : AreAnsweredBy 6 early_broker flags added_at
answered = record { early = λ id t ms e. page_are_foreign (str_eq id "$") (leb t 7) ms e }

early_results-IsLost_example : IsLost 1 (main early_broker flags 10)
unfolding deadline_of
early_results-IsLost_example =
    early_results-IsLost early_broker flags added_at 9 10 letters_unique (λ t h. omega (arith, h))
      (omega arith) (omega arith) reads_later answered
