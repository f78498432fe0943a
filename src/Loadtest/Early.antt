-- ===== src/Loadtest/Early.antt =====
-- What the tool makes of results that are there before it reads.
use package.text.Mathlib.Text.{◌==◌ as str_eq}
use package.text.Mathlib.TextEquality.{eq_iff}
use Prim.Native.String.{◌++◌ as ◌<>◌}
use mytonprovider_agent.Common.{
  ℕ, zero, suc, ◌+◌, ◌*◌, ◌≤◌, ◌<◌, ◌≡◌, ◌∙◌, refl, sym, ap, All-map, String, Bool, true, false,
  ◌||◌, Option, none, some, List, [], ◌∷◌, leb, length, All, if◌then◌else◌, arith, Bool-cases, inl,
  inr,
}
use mytonprovider_agent.Jobs.{ResultEnvelope}
use mytonprovider_agent.World.{Result, ok, err}
use mytonprovider_agent.Consumer.{Message}
use mytonprovider_agent.Loadtest.{
  Flags, Broker, Run, is_pending, raw_text, take_result, take_all, read_results, is_settled, wait,
  deadline_of, Exit, fatal, reported, exit_code, initial, main,
}
use mytonprovider_agent.Loadtest.Counting.{IsCounted}
use mytonprovider_agent.Loadtest.Sending.{AreEarlier}
use mytonprovider_agent.Loadtest.Ending.{await_lem, main_rule, sent-HasEnded}

-- From where on a read gives messages: from its own moment, if it asks for "$".
abbrev pub floor : (String → ℕ) → String → ℕ → ℕ
floor added_at id t = if str_eq id "$" then t else added_at id

-- XREAD, with the tick at which the message of an id was added: it gives messages added after the
-- one that it is asked to read after, or, for "$", after the read has begun. No message has the id
-- "$".
pub record ReadsLater (b : Broker) (f : Flags) (added_at : String → ℕ) : Type 0 where
  pub later :
      (id : String) (t : ℕ) (ms : List Message)
      → b.xread (f.prefix <> ":result:" <> f.cycle) id t ≡ ok ms
      → All (λ m. (floor added_at id t ≤ added_at m.id) × (str_eq m.id "$" ≡ false)) ms

-- the message is a result of one of the tool's triggers
abbrev pub IsOurs : Broker → Message → Type 0
IsOurs b m =
    (env : ResultEnvelope) × (b.unmarshal (raw_text m) ≡ some env)
    × (s : ℕ) × (env.job_id ≡ b.new_id s)

-- The results of the tool's triggers, if any, were all added before the tick `first`.
pub record AreAnsweredBy (first : ℕ) (b : Broker) (f : Flags) (added_at : String → ℕ) : Type 0 where
  pub early :
      (id : String) (t : ℕ) (ms : List Message)
      → b.xread (f.prefix <> ":result:" <> f.cycle) id t ≡ ok ms
      → All (λ m. IsOurs b m → added_at m.id < first) ms

is_pending_made :
    (b : Broker) (t : ℕ) (id : String) (ids : List String)
    → AreEarlier b t ids
    → is_pending id ids ≡ true
    → (s : ℕ) × (id ≡ b.new_id s)
unfolding is_pending
is_pending_made b t id [] h e = absurd (cc e)
is_pending_made b t id (x ∷ xs) h e = elim (Bool-cases (str_eq x id)) [
  | inl same ↦ (h.0.0, sym ((eq_iff x id).0 same) ∙ h.0.2)
  | inr other ↦ is_pending_made b t id xs h.1 (rw other at e)
]

module _ (b : Broker) (f : Flags) (added_at : String → ℕ) (first sent_at : ℕ) (ids : List String)
    (made : AreEarlier b sent_at ids) where
  -- Nothing was answered, and what is read next was added after all results.
  pub record IsWaiting (r : Run) : Type 0 where
    pub same : r.pending ≡ ids
    pub none_ok : r.got_ok ≡ 0
    pub none_err : r.got_err ≡ 0
    pub late : first ≤ floor added_at r.last_id (r.tick + 1)

  passed_by :
      (m : Message) (o : Option ResultEnvelope) (r : Run)
      → b.unmarshal (raw_text m) ≡ o
      → (IsOurs b m → ⊥)
      → r.pending ≡ ids
      → elim o [ none ↦ r | some env ↦ take_result env r ] ≡ r
  unfolding take_result
  passed_by m none r e foreign same = refl
  passed_by m (some env) r e foreign same = elim (Bool-cases (is_pending env.job_id r.pending)) [
    | inr h ↦ rw h refl
    | inl h ↦
        let by = is_pending_made b sent_at env.job_id ids made (rw (← same) h) in
        absurd (foreign (env, e, by.0, by.1))
  ]

  take_all-IsWaiting :
      (ms : List Message) (r : Run)
      → All (λ m. (first ≤ added_at m.id) × (str_eq m.id "$" ≡ false)) ms
      → All (λ m. IsOurs b m → added_at m.id < first) ms
      → IsWaiting r
      → IsWaiting (take_all b ms r)
  unfolding take_all
  take_all-IsWaiting [] r l h w = w
  take_all-IsWaiting (m ∷ ms) r l h w =
      let r' : Run = record r { last_id = m.id } in
      let kept =
        passed_by m (b.unmarshal (raw_text m)) r' refl (λ ours. omega (arith, l.0.0, h.0 ours))
          w.same in
      rw kept (
        take_all-IsWaiting ms r' l.1 h.1 (record {
          same = w.same;
          none_ok = w.none_ok;
          none_err = w.none_err;
          late = rw l.0.1 l.0.0;
        }))

  IsWaiting-later : (r : Run) (t : ℕ) → r.tick ≤ t → IsWaiting r → IsWaiting (record r { tick = t })
  IsWaiting-later r t h w = record {
    same = w.same;
    none_ok = w.none_ok;
    none_err = w.none_err;
    late = ground (arith, w.late);
  }

  read_results-IsWaiting :
      (r : Run) (a : Result (List Message))
      → b.xread (f.prefix <> ":result:" <> f.cycle) r.last_id (r.tick + 1) ≡ a
      → ReadsLater b f added_at
      → AreAnsweredBy first b f added_at
      → IsWaiting r
      → IsWaiting (read_results b a (record r { tick = r.tick + 2 }))
  unfolding read_results
  read_results-IsWaiting r (err e) read l h w = IsWaiting-later r (r.tick + 2) (omega arith) w
  read_results-IsWaiting r (ok ms) read l h w =
      take_all-IsWaiting ms (record r { tick = r.tick + 2 })
        (All-map
          (λ m. (floor added_at r.last_id (r.tick + 1) ≤ added_at m.id) × (str_eq m.id "$" ≡ false))
          (λ m. (first ≤ added_at m.id) × (str_eq m.id "$" ≡ false))
          (λ m k. (omega (arith, k.0, w.late), k.1)) ms (l.later r.last_id (r.tick + 1) ms read))
        (h.early r.last_id (r.tick + 1) ms read) (IsWaiting-later r (r.tick + 2) (omega arith) w)

  stop_at :
      (stop : Bool) (r r' : Run) (rest : Option Run)
      → IsWaiting r
      → (rest ≡ some r' → IsWaiting r')
      → (if stop then some r else rest) ≡ some r'
      → IsWaiting r'
  stop_at true r r' rest w h e = let same : r ≡ r' = cc e in rw (← same) w
  stop_at false r r' rest w h e = h e

  wait-IsWaiting :
      (deadline n : ℕ) (r r' : Run)
      → ReadsLater b f added_at
      → AreAnsweredBy first b f added_at
      → IsWaiting r
      → wait b f deadline n r ≡ some r'
      → IsWaiting r'
  unfolding wait
  wait-IsWaiting deadline zero r r' l h w e = absurd (cc e)
  wait-IsWaiting deadline (suc n) r r' l h w e =
      stop_at (is_settled r.pending || leb deadline (b.clock r.tick)) r r' _ w
        (wait-IsWaiting deadline n _ r' l h (read_results-IsWaiting r _ refl l h w)) e

-- The tool has ended without a single result.
abbrev pub IsLost : ℕ → Option Exit → Type 0
IsLost m none = ⊥
IsLost m (some (fatal e)) = Unit {0}
IsLost m (some (reported code r)) =
    (code ≡ 1) × (r.got_ok ≡ 0) × (r.got_err ≡ 0) × (length r.pending ≡ m)

lost :
    (m : ℕ) (r : Run)
    → 0 < m
    → IsCounted m r
    → r.got_ok ≡ 0
    → r.got_err ≡ 0
    → IsLost m (some (reported (exit_code r) r))
unfolding exit_code
lost m r pos c none_ok none_err = by_pending r.pending refl
  where
    by_pending : (ids : List String) → r.pending ≡ ids → IsLost m (some (reported (exit_code r) r))
    by_pending [] e = absurd (omega (arith, c.all, none_ok, none_err, ap length e, pos))
    by_pending (x ∷ xs) e = (rw e refl, none_ok, none_err, omega (arith, c.all, none_ok, none_err))

-- If every result of the tool's triggers was added before its first read, which asks for what is
-- added from then on, then the tool ends, with a fatal error or with exit code 1, no result
-- counted and all its triggers reported as missing. (UUIDs do not repeat, at least one trigger is
-- sent, and the clock has reached the deadline from the tick `last` on.)
pub early_results-IsLost :
    (b : Broker) (f : Flags) (added_at : String → ℕ) (last n : ℕ)
    → ((s t : ℕ) → b.new_id s ≡ b.new_id t → s ≡ t)
    → ((t : ℕ) → last ≤ t → deadline_of b f (1 + 3 * f.count) ≤ b.clock t)
    → last < n
    → 0 < f.count
    → ReadsLater b f added_at
    → AreAnsweredBy (3 + 3 * f.count) b f added_at
    → IsLost f.count (main b f n)
unfolding initial
early_results-IsLost b f added_at last n unique late enough pos l h =
    main_rule b f n (IsLost f.count) (λ e. tt)
      (λ r s.
        let ended = sent-HasEnded b f last n enough late r s in
        let w =
          wait-IsWaiting b f added_at (3 + 3 * f.count) (1 + 3 * f.count) r.pending s.made
            (deadline_of b f r.tick) n (record r { tick = r.tick + 1 }) ended.0 l h
            (record {
              same = refl;
              none_ok = s.none_ok;
              none_err = s.none_err;
              late = rw s.same_id (omega (arith, s.at_tick));
            })
            ended.1 in
        rw (await_lem b f n r ended.0 ended.1)
          (lost f.count ended.0 pos ended.2 w.none_ok w.none_err))
      unique
