-- ===== src/Consumer/Worker/Safety.antt =====
-- What a worker of the consumer keeps, and that it ends with its context.
use mytonprovider_agent.Common.{
  ℕ, zero, suc, ◌+◌, ◌≤◌, ◌≡◌, refl, Bool, true, false, some, List, [], ◌∷◌, arith, inl, inr,
  Bool-cases,
}
use mytonprovider_agent.Jobs.{Ctx}
use mytonprovider_agent.World.{World, Result, ok, err, is_done}
use mytonprovider_agent.World.Actions.KeepsStore.{Rule, AllowsXack, KeepsStore}
use mytonprovider_agent.Consumer.{Consumer, Message}
use mytonprovider_agent.Consumer.Process.{enter, handler_ctx, process}
use mytonprovider_agent.Consumer.Worker.{
  process_all, is_idle, Turn, count_error, after_read, worker_turn, run_worker,
}

module _ (Q : Rule) (allowed : AllowsXack Q) (c : Consumer)
    (keeps : (ctx : Ctx) → KeepsStore Q (c.handler ctx)) where
  process_keeps :
      (ctx : Ctx) (msg : Message) (w : World)
      → Q w.db w.log
      → Q (process c ctx msg w).db (process c ctx msg w).log
  unfolding process enter
  process_keeps ctx msg w h = allowed _ _ _ _ _ _ ((keeps (handler_ctx c ctx msg w)).at (enter w) h)

  pub process_all_keeps :
      (ctx : Ctx) (msgs : List Message) (w : World)
      → Q w.db w.log
      → Q (process_all c ctx msgs w).db (process_all c ctx msgs w).log
  unfolding process_all
  process_all_keeps ctx [] w h = h
  process_all_keeps ctx (msg ∷ msgs) w h = process_all_keeps ctx msgs _ (process_keeps ctx msg w h)

  after_read_keeps :
      (ctx : Ctx) (r : Result (List Message)) (w : World)
      → Q w.db w.log
      → Q (after_read c ctx r w).1.db (after_read c ctx r w).1.log
  unfolding after_read count_error
  after_read_keeps ctx (ok msgs) w h = process_all_keeps ctx msgs w h
  after_read_keeps ctx (err e) w h = elim (Bool-cases (is_idle e)) [
    | inl idle ↦ rw idle h
    | inr busy ↦ elim (Bool-cases (is_done ctx w.tick)) [
      | inl done ↦ rw (busy, done) h
      | inr runs ↦ rw (busy, runs) h
    ]
  ]

  -- What the handler keeps and acknowledgements do not break, a turn of a worker keeps.
  pub worker_turn_keeps :
      (ctx : Ctx) (w : World)
      → Q w.db w.log
      → Q (worker_turn c ctx w).1.db (worker_turn c ctx w).1.log
  unfolding worker_turn
  worker_turn_keeps ctx w h = elim (Bool-cases (is_done ctx w.tick)) [
    | inl done ↦ rw done h
    | inr runs ↦
        rw runs
          (after_read_keeps ctx (c.read_group (w.tick + 1)) (record w { tick = w.tick + 1 + 1 }) h)
  ]

  run_worker_keeps :
      (ctx : Ctx) (n : ℕ) (goes_on : Bool) (w : World)
      → Q w.db w.log
      → Q (run_worker c ctx n (goes_on, w)).1.db (run_worker c ctx n (goes_on, w)).1.log
  unfolding run_worker
  run_worker_keeps ctx zero goes_on w h = h
  run_worker_keeps ctx (suc n) false w h = h
  run_worker_keeps ctx (suc n) true w h = run_worker_keeps ctx n _ _ (worker_turn_keeps ctx w h)

-- A handler cannot turn back the clock.
module _ (c : Consumer) (ticks : (ctx : Ctx) (w : World) → w.tick ≤ (c.handler ctx w).1.tick) where
  process_all_ticks :
      (ctx : Ctx) (msgs : List Message) (w : World) → w.tick ≤ (process_all c ctx msgs w).tick
  unfolding process_all process enter
  process_all_ticks ctx [] w = omega arith
  process_all_ticks ctx (msg ∷ msgs) w = omega (
    arith,
    ticks (handler_ctx c ctx msg w) (enter w),
    process_all_ticks ctx msgs (process c ctx msg w),
  )

  after_read_ticks :
      (ctx : Ctx) (r : Result (List Message)) (w : World) → w.tick ≤ (after_read c ctx r w).1.tick
  unfolding after_read count_error
  after_read_ticks ctx (ok msgs) w = process_all_ticks ctx msgs w
  after_read_ticks ctx (err e) w = ground arith

  worker_turn_ticks : (ctx : Ctx) (w : World) → w.tick + 1 ≤ (worker_turn c ctx w).1.tick
  unfolding worker_turn
  worker_turn_ticks ctx w = elim (Bool-cases (is_done ctx w.tick)) [
    | inl done ↦ rw done (omega arith)
    | inr runs ↦ rw runs (
        omega (
          arith,
          after_read_ticks ctx (c.read_group (w.tick + 1)) (record w { tick = w.tick + 1 + 1 }),
        ))
  ]

  goes_on :
      (ctx : Ctx) (n : ℕ) (t : Turn)
      → (run_worker c ctx (suc n) (true, t.1)).0 ≡ false
      → (run_worker c ctx (suc n) t).0 ≡ false
  unfolding run_worker
  goes_on ctx n (true, w) h = h
  goes_on ctx n (false, w) h = refl

  ends_from :
      (ctx : Ctx) (d n : ℕ) (w : World)
      → ctx.done_at ≡ some d
      → d ≤ w.tick + n
      → (run_worker c ctx (suc n) (true, w)).0 ≡ false
  unfolding run_worker worker_turn
  ends_from ctx d zero w e h = ground (arith, e)
  ends_from ctx d (suc n) w e h =
      goes_on ctx n (worker_turn c ctx w)
        (ends_from ctx d n (worker_turn c ctx w).1 e (omega (arith, h, worker_turn_ticks ctx w)))

  -- A worker whose context is done from tick `d` on ends, within as many turns as there are ticks
  -- until then, and one more.
  run_worker-ends :
      (ctx : Ctx) (d : ℕ) (w : World)
      → ctx.done_at ≡ some d
      → (run_worker c ctx (suc d) (true, w)).0 ≡ false
  run_worker-ends ctx d w e = ends_from ctx d d w e (omega arith)
