-- ===== src/Tests/Messages.antt =====
-- Runs of the consumer of triggers.
use mytonprovider_agent.Common.{◌+◌, ◌≡◌, refl, some, none, [], ◌∷◌}
use mytonprovider_agent.World.{ok}
use mytonprovider_agent.Discovery.NewProviders.{collect_new_providers}
use mytonprovider_agent.Consumer.{Consumer, Message, missing}
use mytonprovider_agent.Consumer.Reaper.{claim_pending}
use mytonprovider_agent.Consumer.Reaper.Diverges.{claim_pending-diverges}
use mytonprovider_agent.Tests.Samples.{ctx, world, discovery}

abbrev message : Message
message = record { id = "1-0"; data_field = missing }

abbrev consumer : Consumer
consumer = record {
  cfg = record {
    stream = "triggers:scan_master";
    group = "agents";
    consumer_id = "agent-1";
    cycle_type = "scan_master";
    pool = 1;
    timeout = 30;
    block_ms = 5000;
    min_idle = 60;
    reaper_timeout = 60;
  };
  handler = collect_new_providers discovery;
  unmarshal = λ s. none;
  expires = λ timeout t. t + timeout;
  read_group = λ t. ok (message ∷ []);
  auto_claim = λ cursor t. record { jobs = []; start = ""; failed = some "timeout" };
  ack = λ id t. ok tt;
}

claim_pending-diverges_example : claim_pending consumer ctx 7 world ≡ none
claim_pending-diverges_example = claim_pending-diverges consumer ctx (λ cursor t. refl) 7 world
