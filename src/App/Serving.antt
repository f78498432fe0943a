-- ===== src/App/Serving.antt =====
-- `MustRun` from its start to its return: the loop that starts the consumers, their goroutines in
-- any order, and the wait for all of them. The goroutines take their first turn when the loop is
-- through; the server of the metrics, which nobody waits for, is left out.
use mytonprovider_agent.Common.{
  ℕ, ◌≤◌, ◌≡◌, Bool, true, ◌&&◌, none, some, List, [], ◌∷◌, ◌++◌, length, All, if◌then◌else◌, arith,
}
use mytonprovider_agent.Jobs.{Ctx}
use mytonprovider_agent.World.{World, Result, ok, err, is_done}
use mytonprovider_agent.Config.{Config}
use mytonprovider_agent.Consumer.{Consumer}
use mytonprovider_agent.Consumer.Run.{Task, goroutines, take_turns, all_ended}
use mytonprovider_agent.Consumer.Run.Drains.{
  IsSettled, Covers, Idles, Stand, take_turns-all_ended, take_turns-append,
}
use mytonprovider_agent.App.{Binding}
use mytonprovider_agent.App.Start.{Queue, start_consumers}

unfoldable pub all_goroutines : List Consumer → List Task
unfolding goroutines
all_goroutines [] = []
all_goroutines (c ∷ cs) = goroutines c ++ all_goroutines cs

-- how far MustRun is: a panic, or it still serves, or it has returned
pub data Outcome : Type 0 where
  crashed : Outcome
  serving : List Task → World → Outcome
  returned : World → Outcome

-- `<-ctx.Done()` and `wg.Wait()`
unfoldable pub waited : Ctx → Stand → Outcome
waited ctx none = crashed
waited ctx (some (ts, w)) = if is_done ctx w.tick && all_ended ts then returned w else serving ts w

unfoldable pub after_start : Ctx → (ℕ → Bool) → List ℕ → Result (List Consumer) × World → Outcome
unfolding waited all_goroutines
after_start ctx chooses turns (ok cs, w) =
    waited ctx (take_turns ctx chooses turns (all_goroutines cs) w)
after_start ctx chooses turns (err e, w) = crashed

-- MustRun, as far as it has come after these turns
unfoldable pub must_run :
    Config → Queue → List Binding → Ctx → (ℕ → Bool) → List ℕ → World → Outcome
unfolding after_start
must_run cfg q bs ctx chooses turns w = after_start ctx chooses turns (start_consumers cfg q bs w)

waited-serving :
    (ctx : Ctx) (r : Stand) (ts : List Task) (w : World)
    → waited ctx r ≡ serving ts w
    → r ≡ some (ts, w)
unfolding waited
waited-serving ctx none ts w e = absurd (cc e)
waited-serving ctx (some (us, v)) ts w e = ground arith

module _ (ctx : Ctx) (chooses : ℕ → Bool) (d : ℕ) (done : ctx.done_at ≡ some d)
    (selects : (t : ℕ) → d ≤ t → chooses t ≡ true) where
  waited-returned :
      (ts : List Task) (w : World)
      → d ≤ w.tick
      → all_ended ts ≡ true
      → waited ctx (some (ts, w)) ≡ returned w
  unfolding waited
  waited-returned ts w now h = ground (arith, done)

  after_start-drains :
      (early late : List ℕ) (r : Result (List Consumer)) (v : World) (ts : List Task) (w : World)
      → after_start ctx chooses early (r, v) ≡ serving ts w
      → d ≤ w.tick
      → All IsSettled ts
      → Covers late (length ts)
      → (w' : World) × (after_start ctx chooses (early ++ late) (r, v) ≡ returned w') × Idles w w'
  unfolding after_start
  after_start-drains early late (err e) v ts w s now h c = absurd (cc s)
  after_start-drains early late (ok cs) v ts w s now h c =
      let (ts', w', e, over, idle) =
        take_turns-all_ended ctx chooses d done selects late ts w h now c in
      (
        w',
        rw
            (
              take_turns-append ctx chooses early late (all_goroutines cs) v,
              waited-serving ctx (take_turns ctx chooses early (all_goroutines cs) v) ts w s,
              e,
            )
            (waited-returned ts' w' (omega (arith, now, idle.later)) over),
        idle,
      )

  -- Once the context is done, MustRun returns as soon as each goroutine has had one more turn, in
  -- whatever order, if none is a reaper that has not started or that is claiming, and the reapers'
  -- selects take the context's end; nothing is written in these turns.
  pub must_run-drains :
      (cfg : Config) (q : Queue) (bs : List Binding) (early late : List ℕ) (start : World)
      (ts : List Task) (w : World)
      → must_run cfg q bs ctx chooses early start ≡ serving ts w
      → d ≤ w.tick
      → All IsSettled ts
      → Covers late (length ts)
      → (w' : World) × (must_run cfg q bs ctx chooses (early ++ late) start ≡ returned w')
        × Idles w w'
  unfolding must_run
  must_run-drains cfg q bs early late start ts w s now h c =
      after_start-drains early late (start_consumers cfg q bs start).0
        (start_consumers cfg q bs start).1 ts w s now h c
