-- ===== src/Consumer/Worker/Delivery.antt =====
-- What a worker acknowledges: the messages of its read.
use mathlib.Core.List.{append-nil}
use mytonprovider_agent.Common.{◌+◌, ◌≡◌, sym, List, [], ◌++◌, if◌then◌else◌, Bool-cases, inl, inr}
use mytonprovider_agent.Jobs.{Ctx}
use mytonprovider_agent.World.{World, Result, ok, err, is_done}
use mytonprovider_agent.Consumer.{Consumer, Message}
use mytonprovider_agent.Consumer.Delivery.{acked, on_stream, IsQuiet, messages, process_all-acked}
use mytonprovider_agent.Consumer.Worker.{is_idle, count_error, after_read, worker_turn}

module _ (c : Consumer) (quiet : IsQuiet c) (ctx : Ctx) where
  after_read-acked :
      (r : Result (List Message)) (w : World)
      → acked (after_read c ctx r w).1.log ≡ acked w.log ++ on_stream c.cfg.stream (messages r)
  unfolding after_read count_error
  after_read-acked (ok msgs) w = process_all-acked c quiet ctx msgs w
  after_read-acked (err e) w = elim (Bool-cases (is_idle e)) [
    | inl idle ↦ rw idle (sym (append-nil (acked w.log)))
    | inr busy ↦ elim (Bool-cases (is_done ctx w.tick)) [
      | inl done ↦ rw (busy, done) (sym (append-nil (acked w.log)))
      | inr runs ↦ rw (busy, runs) (sym (append-nil (acked w.log)))
    ]
  ]

  pub worker_turn-acked :
      (w : World)
      → acked (worker_turn c ctx w).1.log
        ≡ acked w.log
          ++ (if is_done ctx w.tick
              then []
              else on_stream c.cfg.stream (messages (c.read_group (w.tick + 1))))
  unfolding worker_turn
  worker_turn-acked w = elim (Bool-cases (is_done ctx w.tick)) [
    | inl done ↦ rw done (sym (append-nil (acked w.log)))
    | inr runs ↦
        rw runs (after_read-acked (c.read_group (w.tick + 1)) (record w { tick = w.tick + 1 + 1 }))
  ]
