-- ===== src/App/Start.antt =====
-- The loop of `MustRun` that starts the consumers.
use mytonprovider_agent.Common.{
  ℕ, String, Option, List, [], ◌∷◌, Text, if◌then◌else◌, ◌≡◌, refl, map, select,
}
use mytonprovider_agent.Jobs.{TriggerEnvelope}
use mytonprovider_agent.World.{Act, Result, panicked, pure, raise, attempt_or, ◌>>=◌}
use mytonprovider_agent.World.Actions.Ensures.{
  Ensures, pure-Ensures, raise-Ensures, if-Ensures, bind-Ensures, attempt_or-Ensures,
}
use mytonprovider_agent.Config.{Config}
use mytonprovider_agent.Consumer
use mytonprovider_agent.Consumer.{Message, Claimed, Consumer}
use mytonprovider_agent.Consumer.Groups.{ensure_group}
use mytonprovider_agent.App.{Binding, stream_key}

-- Redis, as the consumer of a stream sees it, and the JSON decoder and timer of a consumer.
pub record Queue : Type 0 where
  pub create_group : String → String → ℕ → Option Text
  pub unmarshal : String → Option TriggerEnvelope
  pub expires : ℕ → ℕ → ℕ
  pub read_group : String → ℕ → Result (List Message)
  pub auto_claim : String → String → ℕ → Claimed
  pub ack : String → String → ℕ → Result (Unit {0})

unfoldable pub new_consumer : Config → Queue → Binding → Consumer
unfolding Consumer.with_defaults stream_key
new_consumer cfg q b =
    let stream = stream_key cfg "cycle" b.cycle_type in
    record {
      cfg = Consumer.with_defaults (record {
        stream = stream;
        group = cfg.redis.group;
        consumer_id = cfg.system.agent_id;
        cycle_type = b.cycle_type;
        pool = b.usecase.pool;
        timeout = b.usecase.timeout;
        block_ms = b.usecase.block_ms;
        min_idle = cfg.system.min_job_idle;
        reaper_timeout = cfg.system.reaper_timeout;
      });
      handler = b.handler;
      unmarshal = q.unmarshal;
      expires = q.expires;
      read_group = q.read_group stream;
      auto_claim = q.auto_claim stream;
      ack = q.ack stream;
    }

-- the loop `for _, b := range a.bindings`, with the consumers that run after it
unfoldable pub start_consumers : Config → Queue → List Binding → Act (List Consumer)
unfolding ◌>>=◌ attempt_or pure raise ensure_group new_consumer
start_consumers cfg q [] = pure []
start_consumers cfg q (b ∷ bs) =
    if b.usecase.enabled
    then attempt_or
        (ensure_group q.create_group (stream_key cfg "cycle" b.cycle_type) cfg.redis.group)
        (raise panicked) (λ u. start_consumers cfg q bs >>= λ cs. pure (new_consumer cfg q b ∷ cs))
    else start_consumers cfg q bs

abbrev pub enabled : List Binding → List Binding
enabled = select (λ b. b.usecase.enabled)

-- If MustRun gets past its loop, there is one consumer for each cycle that is enabled, in the
-- order of the bindings, and none for the others.
start_consumers-Ensures :
    (cfg : Config) (q : Queue) (bs : List Binding)
    → Ensures (λ cs. cs ≡ map (new_consumer cfg q) (enabled bs)) (start_consumers cfg q bs)
unfolding start_consumers
start_consumers-Ensures cfg q [] = pure-Ensures _ [] refl
start_consumers-Ensures cfg q (b ∷ bs) =
    let IsStarted : List Consumer → Type 0 =
      λ cs. cs ≡ map (new_consumer cfg q) (enabled (b ∷ bs)) in
    if-Ensures IsStarted b.usecase.enabled _ (start_consumers cfg q bs)
      (λ on.
        attempt_or-Ensures IsStarted
          (ensure_group q.create_group (stream_key cfg "cycle" b.cycle_type) cfg.redis.group) _ _
          (raise-Ensures IsStarted panicked)
          (λ u.
            bind-Ensures IsStarted (λ cs. cs ≡ map (new_consumer cfg q) (enabled bs))
              (start_consumers cfg q bs) (λ cs. pure (new_consumer cfg q b ∷ cs))
              (start_consumers-Ensures cfg q bs)
              (λ cs e. pure-Ensures IsStarted (new_consumer cfg q b ∷ cs) (rw (on, e) refl))))
      (λ off. rw off (start_consumers-Ensures cfg q bs))
