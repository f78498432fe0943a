-- ===== src/App.antt =====
-- internal/app/app.go: `New` builds the agent from the adapters, `MustRun` starts its consumers.
pub mod Streams
pub mod Start
pub mod Agent
pub mod Overlap
pub mod Serving
pub mod Advance
pub mod Answers
pub mod Delivery
pub mod Findings
pub mod Proofs
pub mod Lifecycle
use Prim.Native.String.{◌++◌ as ◌<>◌}
use mytonprovider_agent.Common.{ℕ, String, Option, List, [], ◌∷◌, Text}
use mytonprovider_agent.Jobs.{
  Ctx, cycle_scan_master, cycle_scan_wallets, cycle_resolve_endpoints, cycle_probe_rates,
  cycle_inspect_contracts, cycle_check_proofs, cycle_lookup_ipinfo,
}
use mytonprovider_agent.World.{Act, Result}
use mytonprovider_agent.Config.{Config, UsecaseCfg}
use mytonprovider_agent.Publisher.{Publisher}
use mytonprovider_agent.Postgres.{Server}
use mytonprovider_agent.Postgres.System.{system_repo}
use mytonprovider_agent.Postgres.Endpoints.{endpoint_repo}
use mytonprovider_agent.Postgres.Providers.{provider_repo}
use mytonprovider_agent.Postgres.Relations.{contract_repo, ip_info_repo}
use mytonprovider_agent.Ton.{Client}
use mytonprovider_agent.Ton.Adapters.{master_scanner, wallet_scanner, contract_inspector}
use mytonprovider_agent.Dht.{Dht}
use mytonprovider_agent.Dht.Reads.{endpoint_resolver}
use mytonprovider_agent.Direct.{Network}
use mytonprovider_agent.Direct.Prover.{bag_prover}
use mytonprovider_agent.Direct.Rates.{Transport, rates_probe}
use mytonprovider_agent.IpConfig.{Http, ip_info_client}
use mytonprovider_agent.Discovery
use mytonprovider_agent.Discovery.NewProviders.{collect_new_providers}
use mytonprovider_agent.Discovery.StorageContracts.{collect_storage_contracts}
use mytonprovider_agent.Discovery.Endpoints.{resolve_endpoints_cycle}
use mytonprovider_agent.Poll
use mytonprovider_agent.Poll.Rates.{update_provider_rates}
use mytonprovider_agent.Poll.Rejected.{update_rejected_contracts}
use mytonprovider_agent.Proof
use mytonprovider_agent.Proof.Cycle.{check_storage_proofs}
use mytonprovider_agent.Update
use mytonprovider_agent.Update.{update_ip_info}

-- The connections that `New` opens, the clock and the Go runtime.
pub record Outside : Type 1 where
  pub server : Server
  pub ton : Client
  pub dht : Dht
  pub transport : Transport
  pub network : Network
  pub http : Http
  pub xadd_answer : ℕ → Result (Unit {0})
  pub clock : ℕ → ℕ
  pub schedule : ℕ → Option ℕ
  pub range_order : ℕ → List ℕ
  pub shuffle : ℕ → List ℕ

-- the closure `streamKey`
unfoldable pub stream_key : Config → String → String → String
stream_key cfg kind cycle_type = cfg.redis.stream_prefix <> ":" <> kind <> ":" <> cycle_type

pub record Binding : Type 0 where
  pub cycle_type : String
  pub usecase : UsecaseCfg
  pub handler : Ctx → Act (Unit {0})

abbrev new_publisher : Config → Outside → Publisher
new_publisher cfg out = record {
  max_len = cfg.redis.result_max_len;
  agent_id = cfg.system.agent_id;
  answer = out.xadd_answer;
  clock = out.clock;
}

unfoldable pub new_discovery : Config → Outside → Discovery.Discovery
unfolding stream_key
new_discovery cfg out = record {
  cfg = record {
    master_addr = cfg.ton.master_address;
    endpoint_ttl = cfg.workers.discovery.endpoint_ttl;
    scan_master_stream = stream_key cfg "result" cycle_scan_master;
    scan_wallets_stream = stream_key cfg "result" cycle_scan_wallets;
    resolve_endpoints_stream = stream_key cfg "result" cycle_resolve_endpoints;
  };
  master_scanner = master_scanner out.ton;
  wallet_scanner = wallet_scanner out.ton;
  resolver = endpoint_resolver out.dht;
  provider_repo = provider_repo out.server;
  contract_repo = contract_repo out.server;
  endpoint_repo = endpoint_repo out.server;
  system_repo = system_repo out.server;
  publisher = new_publisher cfg out;
  clock = out.clock;
  range_order = out.range_order;
}

unfoldable pub new_poll : Config → Outside → Poll.Poll
unfolding stream_key
new_poll cfg out = record {
  cfg = record {
    probe_timeout = 0;
    max_concurrent_probe = cfg.workers.poll.concurrency;
    probe_rates_stream = stream_key cfg "result" cycle_probe_rates;
    inspect_contracts_stream = stream_key cfg "result" cycle_inspect_contracts;
  };
  probe = rates_probe out.transport;
  inspector = contract_inspector out.ton;
  provider_repo = provider_repo out.server;
  contract_repo = contract_repo out.server;
  publisher = new_publisher cfg out;
  clock = out.clock;
  schedule = out.schedule;
  range_order = out.range_order;
}

unfoldable pub new_proof : Config → Outside → Proof.Proof
unfolding stream_key Proof.with_defaults
new_proof cfg out = record {
  cfg = Proof.with_defaults (record {
    endpoint_max_age = cfg.workers.proof.endpoint_ttl;
    max_concurrent_bags = cfg.workers.proof.concurrency;
    max_bags_per_provider = 0;
    bags_sample_percent = 0;
    between_bags_cooldown = 0;
    check_proofs_stream = stream_key cfg "result" cycle_check_proofs;
  });
  prover = bag_prover out.network;
  contract_repo = contract_repo out.server;
  endpoint_repo = endpoint_repo out.server;
  publisher = new_publisher cfg out;
  clock = out.clock;
  schedule = out.schedule;
  range_order = out.range_order;
  shuffle = out.shuffle;
}

unfoldable pub new_update : Config → Outside → Update.Update
unfolding stream_key Update.with_defaults
new_update cfg out = record {
  cfg = Update.with_defaults (record {
    ip_info_timeout = 0;
    between_ips_cooldown = 0;
    lookup_ip_info_stream = stream_key cfg "result" cycle_lookup_ipinfo;
  });
  ipinfo = ip_info_client out.http;
  ipinfo_repo = ip_info_repo out.server;
  publisher = new_publisher cfg out;
}

abbrev binding : String → UsecaseCfg → (Ctx → Act (Unit {0})) → Binding
binding cycle_type usecase handler = record {
  cycle_type = cycle_type;
  usecase = usecase;
  handler = handler;
}

-- the table `bindings` of `New`, over the use cases
unfoldable pub bindings_of :
    Config → Discovery.Discovery → Poll.Poll → Proof.Proof → Update.Update → List Binding
bindings_of cfg d p pr u =
    binding cycle_scan_master cfg.workers.discovery (collect_new_providers d)
    ∷ binding cycle_scan_wallets cfg.workers.discovery (collect_storage_contracts d)
    ∷ binding cycle_resolve_endpoints cfg.workers.discovery (resolve_endpoints_cycle d)
    ∷ binding cycle_probe_rates cfg.workers.poll (update_provider_rates p)
    ∷ binding cycle_inspect_contracts cfg.workers.poll (update_rejected_contracts p)
    ∷ binding cycle_check_proofs cfg.workers.proof (check_storage_proofs pr)
    ∷ binding cycle_lookup_ipinfo cfg.workers.update (update_ip_info u)
    ∷ []

-- the table of the agent that `New` builds
unfoldable pub bindings : Config → Outside → List Binding
unfolding bindings_of new_discovery new_poll new_proof new_update
bindings cfg out =
    bindings_of cfg (new_discovery cfg out) (new_poll cfg out) (new_proof cfg out)
      (new_update cfg out)
