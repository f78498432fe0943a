-- ===== src/Consumer/Run.antt =====
-- `Run` of consumer.go: the goroutines of consumers, which take turns, and the wait group. A turn
-- of a worker is one round of its loop; one of a reaper is its start, a select, or a page.
pub mod Drains
use text.Mathlib.Text.{◌==◌ as str_eq}
use mytonprovider_agent.Common.{
  ℕ, zero, suc, ◌+◌, Bool, true, false, ◌&&◌, Option, none, some, String, List, [], ◌∷◌, ◌==◌,
  if◌then◌else◌,
}
use mytonprovider_agent.Jobs.{Ctx}
use mytonprovider_agent.World.{World, is_done}
use mytonprovider_agent.Consumer.{Consumer}
use mytonprovider_agent.Consumer.Worker.{worker_turn}
use mytonprovider_agent.Consumer.Reaper.{claim_page}

-- a goroutine: a worker, or a reaper by the place where it is in runReaper
pub data Task : Type 0 where
  works : Consumer → Task
  starts : Consumer → Task
  waits : Consumer → Task
  claims : Consumer → (cursor : String) → Task
  ended : Task

-- the goroutines that `Run` starts
unfoldable pub workers : Consumer → ℕ → List Task
workers c zero = []
workers c (suc n) = works c ∷ workers c n

unfoldable pub goroutines : Consumer → List Task
unfolding workers
goroutines c = starts c ∷ workers c c.cfg.pool

abbrev after_worker : Consumer → Bool → Task
after_worker c true = works c
after_worker c false = ended

-- One turn. `none` is a panic that nobody recovers: `time.NewTicker` panics at a duration that is
-- not positive. `chooses t` is whether a select at tick `t` takes `ctx.Done()`, which it may only
-- if the context is done.
unfoldable pub task_turn : Ctx → (ℕ → Bool) → Task → World → Option (Task × World)
task_turn ctx chooses (works c) w =
    let (on, w') = worker_turn c ctx w in some (after_worker c on, w')
task_turn ctx chooses (starts c) w = if c.cfg.reaper_timeout == 0 then none else some (waits c, w)
task_turn ctx chooses (waits c) w = some (
  (if is_done ctx w.tick && chooses w.tick then ended else claims c "0-0"),
  record w { tick = w.tick + 1 },
)
task_turn ctx chooses (claims c cursor) w =
    let (next, w') = claim_page c ctx cursor w in
    some ((if str_eq next "0-0" then waits c else claims c next), w')
task_turn ctx chooses ended w = some (ended, w)

-- a turn of the goroutine with this number
unfoldable pub take_turn : Ctx → (ℕ → Bool) → ℕ → List Task → World → Option (List Task × World)
unfolding task_turn
take_turn ctx chooses i [] w = some ([], w)
take_turn ctx chooses zero (t ∷ ts) w = elim (task_turn ctx chooses t w) [
  | none ↦ none
  | some (t', w') ↦ some (t' ∷ ts, w')
]
take_turn ctx chooses (suc i) (t ∷ ts) w = elim (take_turn ctx chooses i ts w) [
  | none ↦ none
  | some (ts', w') ↦ some (t ∷ ts', w')
]

-- the turns that the Go runtime gives
unfoldable pub take_turns :
    Ctx → (ℕ → Bool) → List ℕ → List Task → World → Option (List Task × World)
unfolding take_turn
take_turns ctx chooses [] ts w = some (ts, w)
take_turns ctx chooses (i ∷ is) ts w = elim (take_turn ctx chooses i ts w) [
  | none ↦ none
  | some (ts', w') ↦ take_turns ctx chooses is ts' w'
]

abbrev pub is_ended : Task → Bool
is_ended ended = true
is_ended _ = false

-- `wg.Wait()` returns
unfoldable pub all_ended : List Task → Bool
all_ended [] = true
all_ended (t ∷ ts) = is_ended t && all_ended ts
