-- ===== src/Loadtest/Ending.antt =====
-- That the tool ends, and what it reports.
use package.text.Mathlib.Text.{◌==◌ as str_eq}
use Prim.Native.String.{◌++◌ as ◌<>◌}
use mytonprovider_agent.Common.{
  ℕ, zero, suc, ◌+◌, ◌-◌, ◌*◌, ◌≤◌, ◌<◌, ◌≡◌, ◌↔◌, ◌∙◌, refl, ap, String, Bool, true, false, ◌||◌,
  Option, none, some, List, [], ◌∷◌, leb, length, if◌then◌else◌, arith, Bool-cases, inl, inr,
}
use mytonprovider_agent.Jobs.{ResultEnvelope, Status}
use mytonprovider_agent.World.{Error, Result, ok, err, wrap, failed}
use mytonprovider_agent.Consumer.{Message}
use mytonprovider_agent.Loadtest.{
  Flags, Broker, Run, is_pending, send_triggers, raw_text, count_result, take_result, take_all,
  read_results, is_settled, wait, deadline_of, Exit, fatal, reported, exit_code, initial, await,
  main,
}
use mytonprovider_agent.Loadtest.Counting.{IsDistinct, IsCounted, read_results-IsCounted}
use mytonprovider_agent.Loadtest.Sending.{IsSent, AreSent, send_triggers-AreSent}

-- Reading leaves the clock alone.
count_result-tick : (s : Status) (r : Run) → (count_result s r).tick ≡ r.tick
count_result-tick Status.status_ok r = refl
count_result-tick Status.status_error r = refl

read_one-tick :
    (o : Option ResultEnvelope) (r : Run)
    → (let r' : Run = elim o [ none ↦ r | some env ↦ take_result env r ] in r'.tick) ≡ r.tick
unfolding take_result
read_one-tick none r = refl
read_one-tick (some env) r = elim (Bool-cases (is_pending env.job_id r.pending)) [
  | inl h ↦ rw h (count_result-tick env.status _)
  | inr h ↦ rw h refl
]

take_all-tick : (b : Broker) (ms : List Message) (r : Run) → (take_all b ms r).tick ≡ r.tick
unfolding take_all
take_all-tick b [] r = refl
take_all-tick b (m ∷ ms) r =
    take_all-tick b ms _ ∙ read_one-tick (b.unmarshal (raw_text m)) (record r { last_id = m.id })

read_results-tick :
    (b : Broker) (a : Result (List Message)) (r : Run) → (read_results b a r).tick ≡ r.tick
unfolding read_results
read_results-tick b (ok ms) r = take_all-tick b ms r
read_results-tick b (err e) r = refl

-- The loop has ended, with every trigger counted.
abbrev pub HasEnded : ℕ → Option Run → Type 0
HasEnded m o = (r : Run) × (o ≡ some r) × IsCounted m r

module _ (b : Broker) (f : Flags) (deadline last : ℕ) where
  ends_or_waits :
      (stop : Bool) (m : ℕ) (r : Run) (rest : Option Run)
      → IsCounted m r
      → (stop ≡ false → HasEnded m rest)
      → HasEnded m (if stop then some r else rest)
  ends_or_waits true m r rest c h = (r, refl, c)
  ends_or_waits false m r rest c h = h refl

  before_last :
      (t : ℕ)
      → (last ≤ t → deadline ≤ b.clock t)
      → (e : Bool) → (e || leb deadline (b.clock t)) ≡ false
      → t < last
  before_last t late e h = ground (arith, late)

  wait-HasEnded :
      ((t : ℕ) → last ≤ t → deadline ≤ b.clock t)
      → (n m : ℕ) (r : Run) → last - r.tick < n
      → IsCounted m r
      → HasEnded m (wait b f deadline n r)
  unfolding wait
  wait-HasEnded late zero m r h c = absurd (omega (arith, h))
  wait-HasEnded late (suc n) m r h c =
      let answer = b.xread (f.prefix <> ":result:" <> f.cycle) r.last_id (r.tick + 1) in
      let r' : Run = record r { tick = r.tick + 2 } in
      ends_or_waits (is_settled r.pending || leb deadline (b.clock r.tick)) m r _ c λ going.
        wait-HasEnded late n m (read_results b answer r')
          (omega (
            arith,
            h,
            before_last r.tick (late r.tick) (is_settled r.pending) going,
            read_results-tick b answer r',
          ))
          (read_results-IsCounted m b answer r' (record { distinct = c.distinct; all = c.all }))

-- What the tool may end with: a fatal error, or a report that counts every trigger once, whose exit
-- code is 0 exactly if all of them were answered without an error.
abbrev pub IsAccounted : ℕ → Option Exit → Type 0
IsAccounted m none = ⊥
IsAccounted m (some (fatal e)) = Unit {0}
IsAccounted m (some (reported code r)) = IsCounted m r × ((code ≡ 0) ↔ (r.got_ok ≡ m))

exit_code_iff : (m : ℕ) (r : Run) → IsCounted m r → (exit_code r ≡ 0) ↔ (r.got_ok ≡ m)
unfolding exit_code
exit_code_iff m r c = by_pending r.pending refl
  where
    by_pending : (ids : List String) → r.pending ≡ ids → (exit_code r ≡ 0) ↔ (r.got_ok ≡ m)
    by_pending [] e = let counted = ap length e in ground (arith, c.all, counted)
    by_pending (x ∷ xs) e = let counted = ap length e in ground (arith, c.all, counted)

-- What holds of every fatal error, and of what comes after the sending, holds of `main`.
module _ (b : Broker) (f : Flags) (n : ℕ) (P : Option Exit → Type 0)
    (on_fatal : (e : Error) → P (some (fatal e)))
    (on_sent : (r : Run) → IsSent b initial f.count (1 + 3 * f.count) r → P (await b f n r)) where
  after_sending :
      (s : Result Run)
      → AreSent b initial f.count (1 + 3 * f.count) s
      → P (elim s [ err e ↦ some (fatal e) | ok r ↦ await b f n r ])
  after_sending (err e) s = on_fatal e
  after_sending (ok r) s = on_sent r s

  after_ping :
      (a : Result (Unit {0})) (s : Result Run)
      → AreSent b initial f.count (1 + 3 * f.count) s
      → P (elim a [
        | err e ↦ some (fatal (wrap "redis ping" e))
        | ok _ ↦ elim s [ err e ↦ some (fatal e) | ok r ↦ await b f n r ]
      ])
  after_ping (err e) s h = on_fatal _
  after_ping (ok a) s h = after_sending s h

  after_flags :
      (empty : Bool) (o : Option Exit)
      → P o
      → P (if empty then some (fatal (failed "cycle is required")) else o)
  after_flags true o h = on_fatal _
  after_flags false o h = h

  pub main_rule : ((s t : ℕ) → b.new_id s ≡ b.new_id t → s ≡ t) → P (main b f n)
  unfolding main initial IsDistinct
  main_rule unique = after_flags (str_eq f.cycle "") _ (
      after_ping (b.ping 0) (send_triggers b f f.count initial) (
        send_triggers-AreSent b unique f initial f.count 0 f.count (1 + 3 * f.count) initial
          (record {
            at_tick = refl;
            same_id = refl;
            none_ok = refl;
            none_err = refl;
            made = tt;
            counted = record { distinct = tt; all = refl };
          })
          (omega arith) (omega arith)))

pub await_lem :
    (b : Broker) (f : Flags) (n : ℕ) (r r' : Run)
    → wait b f (deadline_of b f r.tick) n (record r { tick = r.tick + 1 }) ≡ some r'
    → await b f n r ≡ some (reported (exit_code r') r')
unfolding await
await_lem b f n r r' e = rw (e, await) refl

module _ (b : Broker) (f : Flags) (last n : ℕ) (enough : last < n)
    (late : (t : ℕ) → last ≤ t → deadline_of b f (1 + 3 * f.count) ≤ b.clock t) where
  pub sent-HasEnded :
      (r : Run)
      → IsSent b initial f.count (1 + 3 * f.count) r
      → HasEnded f.count (wait b f (deadline_of b f r.tick) n (record r { tick = r.tick + 1 }))
  sent-HasEnded r s =
      wait-HasEnded b f (deadline_of b f r.tick) last (λ t h. rw s.at_tick (late t h)) n f.count
        (record r { tick = r.tick + 1 }) (omega (arith, enough))
        (record { distinct = s.counted.distinct; all = s.counted.all })

  await-IsAccounted :
      (r : Run) → IsSent b initial f.count (1 + 3 * f.count) r → IsAccounted f.count (await b f n r)
  await-IsAccounted r s =
      let h = sent-HasEnded r s in
      rw (await_lem b f n r h.0 h.1) (h.2, exit_code_iff f.count h.0 h.2)

-- If no UUID repeats and the clock has reached the deadline from the tick `last` on, then the tool
-- ends, for every answer of Redis and with at most `last + 1` turns of its loop: with a fatal error,
-- or with each trigger counted once, and the exit code 0 exactly if all were answered without one.
pub main-IsAccounted :
    (b : Broker) (f : Flags) (last n : ℕ)
    → ((s t : ℕ) → b.new_id s ≡ b.new_id t → s ≡ t)
    → ((t : ℕ) → last ≤ t → deadline_of b f (1 + 3 * f.count) ≤ b.clock t)
    → last < n
    → IsAccounted f.count (main b f n)
main-IsAccounted b f last n unique late h =
    main_rule b f n (IsAccounted f.count) (λ e. tt) (await-IsAccounted b f last n h late) unique
