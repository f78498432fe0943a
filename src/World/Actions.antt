-- ===== src/World/Actions.antt =====
-- Actions: Go functions that call out, may fail, and return early on an error.
pub mod Keeps
pub mod Ensures
pub mod KeepsStore
pub mod Total
use mytonprovider_agent.Common.{
  if◌then◌else◌, ℕ, ◌+◌, String, List, ◌∷◌, Text, Option, none, some, Bool, leb, true, false,
}
use mytonprovider_agent.Jobs.{ResultEnvelope, Ctx}
use mytonprovider_agent.World.Schema.{Database}

-- `error` values. `wrap op e` is `fmt.Errorf("%s:%w", op, e)`.
pub data Error : Type 0 where
  canceled deadline_exceeded redis_nil no_rows not_found panicked : Error
  failed : String → Error
  wrap : String → Error → Error

pub data Result {ℓ} (A : Type ℓ) : Type ℓ where
  ok : A → Result A
  err : Error → Result A

-- Writes that leave the agent, in the order in which they were tried. `accepted` is false where
-- the call came back with an error.
pub data Write : Type 0 where
  xadd : (stream : String) (message : ResultEnvelope) (max_len : Option ℕ) (accepted : Bool) → Write
  xack : (stream group id : String) (accepted : Bool) → Write
  set_param : (key : String) (value : Text) (accepted : Bool) → Write
  set_last_tx_lt : (updates : List (Text × ℕ)) (accepted : Bool) → Write

-- pkg/metrics: the counters that the consumer moves
pub record Metrics : Type 0 where
  pub cycles_ok : ℕ
  pub cycles_error : ℕ
  pub cycles_inflight : ℕ
  pub redis_errors : ℕ

pub record World : Type 0 where
  pub tick : ℕ
  pub db : Database
  pub log : List Write  -- newest first
  pub metrics : Metrics

abbrev pub Act {ℓ} : Type ℓ → Type ℓ
Act A = World → Result A × World

module _ {ℓ} {A : Type ℓ} where
  unfoldable pub pure : A → Act A
  pure a w = (ok a, w)

  unfoldable pub raise : Error → Act A
  raise e w = (err e, w)

  unfoldable pub lift : Result A → Act A
  lift r w = (r, w)

  -- A call that leaves the process and changes nothing that the agent can see.
  unfoldable pub ask : (ℕ → Result A) → Act A
  ask answer w = (answer w.tick, record w { tick = w.tick + 1 })

  -- `if err := m; err != nil { log }`: the error is a value.
  unfoldable pub attempt : Act A → Act (Result A)
  attempt m w = let (r, w') = m w in (ok r, w')

  -- `if err != nil { return fmt.Errorf("%s:%w", op, err) }`
  unfoldable pub wrapping : String → Act A → Act A
  wrapping op m w = let (r, w') = m w in (elim r [ ok a ↦ ok a | err e ↦ err (wrap op e) ], w')

module _ {ℓ κ} {A : Type ℓ} {B : Type κ} where
  unfoldable pub continue : Result A → (A → Act B) → Act B
  continue (ok a) f w = f a w
  continue (err e) f w = (err e, w)

  unfoldable pub chosen : Result A → Act B → (A → Act B) → Act B
  chosen (ok a) on_error on_ok w = on_ok a w
  chosen (err e) on_error on_ok w = on_error w

  infixl 10 ◌>>=◌
  unfoldable pub ◌>>=◌ : Act A → (A → Act B) → Act B
  unfolding pure raise lift ask attempt wrapping continue
  ◌>>=◌ m f w = let (r, w') = m w in continue r f w'

  -- `a, err := m; if err != nil { log; on_error } else { on_ok a }`
  unfoldable pub attempt_or : Act A → Act B → (A → Act B) → Act B
  unfolding chosen
  attempt_or m on_error on_ok w = let (r, w') = m w in chosen r on_error on_ok w'

infixl 10 ◌>>◌
abbrev pub ◌>>◌ {ℓ} : {B : Type ℓ} → Act (Unit {0}) → Act B → Act B
m >> k = m >>= λ _. k

-- `ctx.Err() != nil`
abbrev pub is_done : Ctx → ℕ → Bool
is_done ctx t = elim ctx.done_at [ none ↦ false | some d ↦ leb d t ]

-- `ctx.Err()` read at some moment of the run
unfoldable pub ctx_done : Ctx → Act Bool
unfolding ask
ctx_done ctx = ask (λ t. ok (is_done ctx t))

-- `time.Now()`
unfoldable pub now : (ℕ → ℕ) → Act ℕ
unfolding ask
now clock = ask (λ t. ok (clock t))

-- `if ctx.Err() != nil { return ctx.Err() }`
unfoldable pub unless_done {ℓ} : {A : Type ℓ} → Ctx → Act A → Act A
unless_done ctx m w =
    let w' = record w { tick = w.tick + 1 } in
    if is_done ctx w.tick then (err canceled, w') else m w'
