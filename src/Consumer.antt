-- ===== src/Consumer.antt =====
-- internal/adapters/inbound/redisstream: the consumer of one cycle's triggers. Its workers read
-- and process messages; its reaper claims messages that other consumers left pending.
pub mod Process
pub mod Worker
pub mod Reaper
pub mod Groups
pub mod Run
pub mod Delivery
use mytonprovider_agent.Common.{
  ℕ, ◌+◌, ◌*◌, String, Option, none, some, List, ◌==◌, leb, if◌then◌else◌,
}
use mytonprovider_agent.Jobs.{Ctx, TriggerEnvelope}
use mytonprovider_agent.World.{Act, Result}

-- `msg.Values["data"]`
pub data Field : Type 0 where
  missing no_text : Field
  text : String → Field

pub record Message : Type 0 where
  pub id : String
  pub data_field : Field

-- what XAUTOCLAIM gives: messages, the next cursor, and an error
pub record Claimed : Type 0 where
  pub jobs : List Message
  pub start : String
  pub failed : Option String

-- A duration or a count that is not positive is 0 here.
pub record ConsumerConfig : Type 0 where
  pub stream : String
  pub group : String
  pub consumer_id : String
  pub cycle_type : String
  pub pool : ℕ
  pub timeout : ℕ
  pub block_ms : ℕ
  pub min_idle : ℕ
  pub reaper_timeout : ℕ

-- what `NewConsumer` sets where the configuration says nothing
unfoldable pub with_defaults : ConsumerConfig → ConsumerConfig
with_defaults cfg = record cfg {
  pool = if cfg.pool == 0 then 1 else cfg.pool;
  timeout = if cfg.timeout == 0 then 30 * 60 * 1000000000 else cfg.timeout;
  block_ms = if cfg.block_ms == 0 then 5000 else cfg.block_ms;
}

-- The handler is one of the use cases; a panic of it is the error `panicked`. Redis, the JSON
-- decoder and the timer are parameters: `expires timeout t` is the tick at which a timer that is
-- started at tick `t` fires.
pub record Consumer : Type 0 where
  pub cfg : ConsumerConfig
  pub handler : Ctx → Act (Unit {0})
  pub unmarshal : String → Option TriggerEnvelope
  pub expires : ℕ → ℕ → ℕ
  pub read_group : ℕ → Result (List Message)
  pub auto_claim : String → ℕ → Claimed
  pub ack : String → ℕ → Result (Unit {0})
