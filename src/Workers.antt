-- ===== src/Workers.antt =====
-- The bounded fan-out that `UpdateProviderRates` and `CheckStorageProofs` write with a semaphore
-- channel, a wait group and a mutex. A goroutine's calls read the world, so it runs in one step,
-- when the scheduler lets it complete; the order of the completions is the scheduler's.
pub mod Bounds
pub mod Results
pub mod Worlds
use mytonprovider_agent.Common.{
  ℕ, zero, suc, ◌+◌, ◌*◌, Bool, true, false, ◌&&◌, Option, none, some, List, [], ◌∷◌, ◌++◌, ltb,
  if◌then◌else◌, length, pick,
}
use mytonprovider_agent.Jobs.{Ctx}
use mytonprovider_agent.World.{World, is_done}

-- `todo`: what the loop still has to look at; `running`: the goroutines that hold the semaphore;
-- `out`: what the goroutines have appended.
pub record Pool (J R : Type 0) : Type 0 where
  pub todo : List J
  pub running : List J
  pub out : List R
  pub world : World

-- `cap` is the size of the semaphore. `schedule t` is the scheduler's choice at tick `t`: the loop
-- goes on (`none`), or a goroutine completes.
pub record Fanout (J R : Type 0) : Type 0 where
  pub ctx : Ctx
  pub cap : ℕ
  pub schedule : ℕ → Option ℕ
  pub admits : J → Bool
  pub work : J → World → R × World

-- a tick later
abbrev ticked : {J R : Type 0} → Pool J R → Pool J R
ticked s = record s { world = record (s.world) { tick = s.world.tick + 1 } }

module _ {J R : Type 0} (f : Fanout J R) where
  -- one turn of the loop: `if ctx.Err() != nil { break }`, `continue`, or a new goroutine
  offer : J → List J → Pool J R → Pool J R
  offer j js s =
      let w = record s.world { tick = s.world.tick + 1 } in
      if is_done f.ctx s.world.tick
      then record s { todo = []; world = w }
      else if f.admits j
      then record s { todo = js; running = s.running ++ j ∷ []; world = w }
      else record s { todo = js; world = w }

  -- goroutine number `i` of the running ones does its work, appends, and frees its place
  complete : ℕ → J → List J → Pool J R → Pool J R
  unfolding pick
  complete i r rs s =
      let (x, rest) = pick i r rs in
      let (res, w) = f.work x s.world in
      record s { running = rest; out = s.out ++ res ∷ []; world = w }

  -- the one that completes next, if the loop cannot go on
  abbrev next_one : ℕ → ℕ
  next_one t = elim (f.schedule t) [ none ↦ 0 | some i ↦ i ]

  -- The loop turns to a job while the semaphore is full: it ends (`true`, what it has found of the
  -- context), skips the job (`false`, what it has found of the job), or blocks until a goroutine
  -- completes and starts the job then, without another look at the context.
  blocked : Bool → Bool → J → List J → J → List J → Pool J R → Pool J R
  unfolding complete
  blocked true admitted j js r rs s = record s { todo = [] }
  blocked false false j js r rs s = record s { todo = js }
  blocked false true j js r rs s =
      let s' = complete (next_one s.world.tick) r rs s in
      record s' { todo = js; running = s'.running ++ j ∷ [] }

  -- the loop goes on, or a goroutine completes
  choose : Option ℕ → J → List J → J → List J → Pool J R → Pool J R
  unfolding offer complete blocked
  choose none j js r rs s =
      if ltb (length s.running) f.cap
      then offer j js s
      else blocked (is_done f.ctx s.world.tick) (f.admits j) j js r rs (ticked s)
  choose (some i) j js r rs s = complete i r rs s

  turn : List J → List J → Pool J R → Pool J R
  unfolding choose offer complete blocked
  turn [] [] s = s
  turn [] (r ∷ rs) s = complete (next_one s.world.tick) r rs s
  turn (j ∷ js) [] s = offer j js s
  turn (j ∷ js) (r ∷ rs) s = choose (f.schedule s.world.tick) j js r rs s

  unfoldable pub round : Pool J R → Pool J R
  unfolding turn
  round s = turn s.todo s.running s

  -- `wg.Wait()` returns when nothing runs and nothing is left to start
  unfoldable pub run_rounds : ℕ → Pool J R → Pool J R
  unfolding round
  run_rounds zero s = s
  run_rounds (suc n) s = run_rounds n (round s)

  -- each job takes at most two rounds
  unfoldable pub fan_out : List J → World → List R × World
  unfolding run_rounds
  fan_out jobs w =
      let s =
        run_rounds (2 * length jobs) (record { todo = jobs; running = []; out = []; world = w }) in
      (s.out, s.world)
