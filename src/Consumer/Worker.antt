-- ===== src/Consumer/Worker.antt =====
-- `runWorker` of consumer.go.
pub mod Safety
pub mod Delivery
use mytonprovider_agent.Common.{
  ℕ, zero, suc, ◌+◌, Bool, true, false, ◌||◌, List, [], ◌∷◌, if◌then◌else◌,
}
use mytonprovider_agent.Jobs.{Ctx}
use mytonprovider_agent.World.{World, Metrics, Result, ok, err, Error, redis_nil, canceled, is_done}
use mytonprovider_agent.Consumer.{Consumer, Message}
use mytonprovider_agent.Consumer.Process.{process}

-- `for _, msg := range s.Messages { c.process(ctx, log, msg) }`
unfoldable pub process_all : Consumer → Ctx → List Message → World → World
process_all c ctx [] w = w
process_all c ctx (msg ∷ msgs) w = process_all c ctx msgs (process c ctx msg w)

-- `errors.Is(err, redis.Nil) || errors.Is(err, context.Canceled)`
abbrev is_idle : Error → Bool
is_idle redis_nil = true
is_idle canceled = true
is_idle (Error.wrap op e) = is_idle e
is_idle _ = false

-- whether the loop goes on, and the world after one read
abbrev Turn : Type 0
Turn = Bool × World

count_error : World → World
count_error w = record w {
  metrics = record (w.metrics) { redis_errors = w.metrics.redis_errors + 1 };
}

-- after a read: an idle error goes on at once, another one waits a second and ends if the context
-- is done by then
after_read : Consumer → Ctx → Result (List Message) → World → Turn
unfolding process_all count_error
after_read c ctx (ok msgs) w = (true, process_all c ctx msgs w)
after_read c ctx (err e) w =
    if is_idle e
    then (true, w)
    else if is_done ctx w.tick
    then (false, record (count_error w) { tick = w.tick + 1 })
    else (true, record (count_error w) { tick = w.tick + 1 })

unfoldable pub worker_turn : Consumer → Ctx → World → Turn
unfolding after_read
worker_turn c ctx w =
    let w1 = record w { tick = w.tick + 1 } in
    if is_done ctx w.tick
    then (false, w1)
    else after_read c ctx (c.read_group w1.tick) (record w1 { tick = w1.tick + 1 })

-- `n` turns of the loop at most; a worker runs for as long as its context
unfoldable pub run_worker : Consumer → Ctx → ℕ → Turn → Turn
unfolding worker_turn
run_worker c ctx zero t = t
run_worker c ctx (suc n) (false, w) = (false, w)
run_worker c ctx (suc n) (true, w) = run_worker c ctx n (worker_turn c ctx w)
