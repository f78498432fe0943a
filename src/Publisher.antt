-- ===== src/Publisher.antt =====
-- internal/adapters/outbound/redisstream/publisher.go: results go to a Redis stream by XADD.
-- The envelope stands for its JSON: `json.Marshal` does not fail on these types.
pub mod Laws
pub mod Keeps
use mytonprovider_agent.Common.{
  ℕ, suc, ◌+◌, String, Bool, true, false, Option, none, some, ◌∷◌, ltb, if◌then◌else◌,
}
use mytonprovider_agent.Jobs.{ResultEnvelope, Status, Payload, absent}
use mytonprovider_agent.World.{World, Act, Result, ok, err, xadd, wrapping, now, ◌>>=◌}

pub record Publisher : Type 0 where
  pub max_len : ℕ  -- int64; a bound that is not positive is 0 here
  pub agent_id : String
  -- Redis answers XADD, and the clock is read
  pub answer : ℕ → Result (Unit {0})
  pub clock : ℕ → ℕ

abbrev pub accepted : Result (Unit {0}) → Bool
accepted (ok _) = true
accepted (err _) = false

unfoldable pub max_len_arg : Publisher → Option ℕ
max_len_arg p = if ltb 0 p.max_len then some p.max_len else none

-- `p.rdb.XAdd(ctx, args).Err()`
send : Publisher → String → ResultEnvelope → Act (Unit {0})
unfolding max_len_arg
send p stream res w =
    let answer = p.answer w.tick in
    (
      answer,
      record w {
        tick = w.tick + 1;
        log = xadd stream res (max_len_arg p) (accepted answer) ∷ w.log;
      },
    )

publish : Publisher → String → ResultEnvelope → Act (Unit {0})
unfolding send wrapping
publish p stream res = wrapping "redisstream.Publisher.publish" (send p stream res)

unfoldable pub publish_result : Publisher → String → String → String → Payload → Act (Unit {0})
unfolding publish now ◌>>=◌
publish_result p stream_key job_id cycle payload = do
  t ← now p.clock
  publish p stream_key (record {
    job_id = job_id;
    cycle = cycle;
    status = Status.status_ok;
    error = "";
    payload = payload;
    processed_at = t;
    agent_id = p.agent_id;
  })

unfoldable pub publish_error : Publisher → String → String → String → String → Act (Unit {0})
unfolding publish now ◌>>=◌
publish_error p stream_key job_id cycle err_msg = do
  t ← now p.clock
  publish p stream_key (record {
    job_id = job_id;
    cycle = cycle;
    status = Status.status_error;
    error = err_msg;
    payload = absent;
    processed_at = t;
    agent_id = p.agent_id;
  })
