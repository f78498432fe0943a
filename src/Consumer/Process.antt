-- ===== src/Consumer/Process.antt =====
-- `process`, `runHandler` and `decodeJobID` of consumer.go.
pub mod Acks
use mytonprovider_agent.Common.{
  ℕ, ◌+◌, ◌-◌, String, Bool, true, false, Option, none, some, List, [], ◌∷◌, leb, if◌then◌else◌,
}
use mytonprovider_agent.Jobs.{Ctx, TriggerEnvelope, with_job_id}
use mytonprovider_agent.World.{World, Metrics, Act, Result, ok, err, Error, panicked, failed, xack}
use mytonprovider_agent.Publisher.{accepted}
use mytonprovider_agent.Consumer.{Consumer, Message, Field, missing, no_text, text}

-- decodeJobID: the empty id, if there is no readable envelope
unfoldable pub decode_job_id : Consumer → Message → String
decode_job_id c msg = elim msg.data_field [
  | missing ↦ ""
  | no_text ↦ ""
  | text s ↦ elim (c.unmarshal s) [ none ↦ "" | some env ↦ env.job_id ]
]

-- `context.WithTimeout(ctx, c.timeout)`: done as soon as `ctx` is, or when the timer fires
abbrev with_deadline : Ctx → ℕ → Ctx
with_deadline ctx d = record ctx {
  done_at = elim ctx.done_at [ none ↦ some d | some e ↦ some (if leb e d then e else d) ];
}

-- runHandler: a panic becomes an error
abbrev recovered : Result (Unit {0}) → Result (Unit {0})
recovered (err panicked) = err (failed "error in handler")
recovered r = r

unfoldable pub run_handler : Consumer → Ctx → Act (Unit {0})
run_handler c ctx w = let (r, w') = c.handler ctx w in (recovered r, w')

count_status : Result (Unit {0}) → Metrics → Metrics
count_status (ok _) m = record m { cycles_ok = m.cycles_ok + 1 }
count_status (err _) m = record m { cycles_error = m.cycles_error + 1 }

count_redis : Result (Unit {0}) → Metrics → Metrics
count_redis (ok _) m = m
count_redis (err _) m = record m { redis_errors = m.redis_errors + 1 }

-- `c.rdb.XAck(ctx, c.stream, c.group, msg.ID)`, in every case
acknowledge : Consumer → Message → World → World
unfolding count_redis
acknowledge c msg w =
    let answer = c.ack msg.id w.tick in
    record w {
      tick = w.tick + 1;
      log = xack c.cfg.stream c.cfg.group msg.id (accepted answer) ∷ w.log;
      metrics = count_redis answer w.metrics;
    }

unfoldable pub enter : World → World
enter w = record w {
  metrics = record (w.metrics) { cycles_inflight = w.metrics.cycles_inflight + 1 };
}

-- the deferred `Dec`
leave : World → World
leave w = record w {
  metrics = record (w.metrics) { cycles_inflight = w.metrics.cycles_inflight - 1 };
}

-- the context that the handler gets
unfoldable pub handler_ctx : Consumer → Ctx → Message → World → Ctx
handler_ctx c ctx msg w =
    with_job_id (with_deadline ctx (c.expires c.cfg.timeout w.tick)) (decode_job_id c msg)

unfoldable pub process : Consumer → Ctx → Message → World → World
unfolding run_handler count_status acknowledge enter leave
process c ctx msg w =
    let (r, w') = run_handler c (handler_ctx c ctx msg w) (enter w) in
    leave (acknowledge c msg (record w' { metrics = count_status r w'.metrics }))
