-- ===== src/Publisher/Laws.antt =====
-- What one call of `PublishResult` leaves behind.
use mytonprovider_agent.Common.{◌+◌, String, ◌≡◌, refl, ◌∷◌, arith}
use mytonprovider_agent.Jobs.{ResultEnvelope, Status, Payload}
use mytonprovider_agent.World.{World, Result, ok, err, wrap, xadd}
use mytonprovider_agent.Publisher.{Publisher, accepted, max_len_arg, publish_result}

-- the message that `PublishResult` builds at world `w`
abbrev pub envelope : Publisher → String → String → Payload → World → ResultEnvelope
envelope p job_id cycle payload w = record {
  job_id = job_id;
  cycle = cycle;
  status = Status.status_ok;
  error = "";
  payload = payload;
  processed_at = p.clock w.tick;
  agent_id = p.agent_id;
}

abbrev pub after_publish : Publisher → String → String → String → Payload → World → World
after_publish p stream id cycle payload w = record w {
  tick = w.tick + 1 + 1;
  log =
      xadd stream (envelope p id cycle payload w) (max_len_arg p) (accepted (p.answer (w.tick + 1)))
      ∷ w.log;
}

-- what `PublishResult` returns for Redis's answer
abbrev pub reply_of : Result (Unit {0}) → Result (Unit {0})
reply_of (ok a) = ok a
reply_of (err e) = err (wrap "redisstream.Publisher.publish" e)

abbrev pub publish_reply : Publisher → World → Result (Unit {0})
publish_reply p w = reply_of (p.answer (w.tick + 1))

pub publish_result_lem :
    (p : Publisher) (stream id cycle : String) (payload : Payload) (w : World)
    → publish_result p stream id cycle payload w
      ≡ (publish_reply p w, after_publish p stream id cycle payload w)
unfolding publish_result
publish_result_lem p stream id cycle payload w = refl

-- One message is tried, the database stays, and the reply is `ok` exactly if Redis took it.
publish_result-accepted :
    (p : Publisher) (stream id cycle : String) (payload : Payload) (w : World)
    → (accepted (publish_result p stream id cycle payload w).0 ≡ accepted (p.answer (w.tick + 1)))
      × ((publish_result p stream id cycle payload w).1 ≡ after_publish p stream id cycle payload w)
unfolding publish_result
publish_result-accepted p stream id cycle payload w = (ground arith, refl)
