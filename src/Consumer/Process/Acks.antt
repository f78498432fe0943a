-- ===== src/Consumer/Process/Acks.antt =====
-- Every message is acknowledged, whatever its handler does.
use mytonprovider_agent.Common.{ℕ, ◌+◌, ◌≡◌, refl, Bool, ◌∷◌, arith}
use mytonprovider_agent.Jobs.{Ctx}
use mytonprovider_agent.World.{World, Metrics, Result, ok, err, xack}
use mytonprovider_agent.Consumer.{Consumer, Message}
use mytonprovider_agent.Consumer.Process.{handler_ctx, enter, process}

-- The last write of `process` acknowledges the message, after all that the handler wrote, whether
-- the handler succeeds, fails or panics; the handler runs under the job id of the message.
pub process-acks :
    (c : Consumer) (ctx : Ctx) (msg : Message) (w : World)
    → (taken : Bool) × ((process c ctx msg w).log
        ≡ xack c.cfg.stream c.cfg.group msg.id taken
          ∷ (c.handler (handler_ctx c ctx msg w) (enter w)).1.log)
unfolding process
process-acks c ctx msg w = (_, refl)

abbrev pub finished : Metrics → ℕ
finished m = m.cycles_ok + m.cycles_error

-- If the handler leaves the metrics alone, `process` counts one more finished cycle, as ok exactly
-- if the handler returned no error and did not panic, and the gauge of cycles in flight is back
-- where it was.
process-metrics :
    (c : Consumer) (ctx : Ctx) (msg : Message) (w : World) (r : Result (Unit {0})) (w' : World)
    → c.handler (handler_ctx c ctx msg w) (enter w) ≡ (r, w')
    → w'.metrics ≡ (enter w).metrics
    → (finished ((process c ctx msg w).metrics) ≡ finished w.metrics + 1)
      × ((process c ctx msg w).metrics.cycles_ok
          ≡ w.metrics.cycles_ok + (elim r [ ok _ ↦ 1 | err _ ↦ 0 ]))
      × ((process c ctx msg w).metrics.cycles_inflight ≡ w.metrics.cycles_inflight)
unfolding process
process-metrics c ctx msg w r w' e same = ground (arith, e, same)
