-- ===== src/Tests/Samples.antt =====
-- Sample data: a database, ports that answer from it or by constants, and the components over them.
use mytonprovider_agent.Common.{
  ℕ, zero, suc, ◌+◌, ◌*◌, refl, true, none, some, List, [], ◌∷◌, Text, codes, text_eq,
}
use mytonprovider_agent.Domain.{
  Provider, ProviderEndpoint, StorageContract, ContractProviderRelation, no_endpoint,
  no_provider_endpoint,
}
use mytonprovider_agent.Jobs.{Ctx}
use mytonprovider_agent.Strings.Hex.{encode_hex}
use mytonprovider_agent.World.{World, ProviderRow, ok, err, failed, ask, set_last_tx_lt}
use mytonprovider_agent.World.Actions.Keeps.{ask-IsReadOnly}
use mytonprovider_agent.Ports.{ProviderRepo, ContractRepo, lt_updates}
use mytonprovider_agent.Publisher.{Publisher}
use mytonprovider_agent.Postgres.{Server}
use mytonprovider_agent.Postgres.System.{system_repo}
use mytonprovider_agent.Postgres.Endpoints.{endpoint_repo}
use mytonprovider_agent.Direct.{Network}
use mytonprovider_agent.Direct.Prover.{bag_prover}
use mytonprovider_agent.Discovery
use mytonprovider_agent.Poll
use mytonprovider_agent.Proof
use mytonprovider_agent.Update

abbrev pub fill : ℕ → ℕ → List ℕ
fill zero b = []
fill (suc n) b = b ∷ fill n b

-- two providers' keys: 32 bytes each, in hexadecimal
abbrev pub key_a : Text
key_a = encode_hex (fill 32 10)

abbrev pub key_b : Text
key_b = encode_hex (fill 32 11)

abbrev pub ctx : Ctx
ctx = record { job_id = "job-1"; done_at = none }

abbrev pub row : Text → Text → ProviderRow
row key addr = record {
  public_key = key;
  address = addr;
  last_tx_lt = 5;
  ip = some (codes "10.0.0.1");
  port = some 3333;
  storage_ip = some (codes "10.0.0.2");
  storage_port = some 4444;
  updated_at = 100;
  ip_info = some none;
}

abbrev pub world : World
world = record {
  tick = 0;
  db = record {
    providers = row key_a (codes "A") ∷ row key_b (codes "B") ∷ [];
    storage_contracts = [];
    params = ("masterWalletLastLT", codes "40") ∷ [];
  };
  log = [];
  metrics = record { cycles_ok = 0; cycles_error = 0; cycles_inflight = 0; redis_errors = 0 };
}

abbrev pub server : Server
server = record { fault = λ t. none; clock = λ t. 200 }

abbrev pub publisher : Publisher
publisher = record { max_len = 1000; agent_id = "agent-1"; answer = λ t. ok tt; clock = λ t. t }

abbrev pub provider : Text → Text → ℕ → Provider
provider key addr lt = record { public_key = key; address = addr; lt = lt; registered_at = 7 }

abbrev pub contract : Text → List Text → ℕ → StorageContract
contract addr providers lt = record {
  address = addr;
  bag_id = codes "00ff";
  owner_addr = codes "O";
  size = 1048576;
  chunk_size = 131072;
  last_lt = lt;
  providers = providers;
}

abbrev pub relation : Text → Text → ContractProviderRelation
relation addr key = record {
  contract_addr = addr;
  provider_pubkey = key;
  provider_address = codes "A";
  bag_id = codes "00ff";
  size = 1048576;
}

abbrev pub relations : List ContractProviderRelation
relations =
    relation (codes "C") key_a ∷ relation (codes "D") key_b ∷ relation (codes "E") key_a ∷ []

abbrev pub provider_repo : ProviderRepo
provider_repo = record {
  get_all_pubkeys = ask (λ t. ok (key_a ∷ codes "zz" ∷ key_b ∷ []));
  get_all_wallets =
      ask (λ t. ok (provider key_a (codes "A") 5 ∷ provider key_b (codes "B") 6 ∷ []));
  update_lt = λ ps w.
      (ok tt, record w { tick = w.tick + 1; log = set_last_tx_lt (lt_updates ps) true ∷ w.log });
  pubkeys_reads = ask-IsReadOnly _;
  wallets_reads = ask-IsReadOnly _;
  update_writes = λ p ps w. (true, refl);
}

abbrev pub contract_repo : ContractRepo
contract_repo = record {
  get_active_relations = ask (λ t. ok relations);
  relations_reads = ask-IsReadOnly _;
}

abbrev pub resolved : ProviderEndpoint
resolved = record no_provider_endpoint {
  provider = record no_endpoint { ip = codes "10.0.0.1"; port = 3333 };
}

abbrev pub discovery : Discovery.Discovery
discovery = record {
  cfg = record {
    master_addr = codes "M";
    endpoint_ttl = 50;
    scan_master_stream = "results:scan_master";
    scan_wallets_stream = "results:scan_wallets";
    resolve_endpoints_stream = "results:resolve_endpoints";
  };
  master_scanner = record {
    scan = λ addr from_lt. ask (λ t. ok (provider key_b (codes "B") 70 ∷ [], 70));
    scan_reads = λ addr from_lt. ask-IsReadOnly _;
  };
  wallet_scanner = record {
    scan = λ addr from_lt. ask (λ t. ok (contract (codes "C") (addr ∷ []) 60 ∷ [], 60));
    scan_reads = λ addr from_lt. ask-IsReadOnly _;
  };
  resolver = record {
    resolve = λ pk addr. ask (λ t. ok resolved);
    resolve_storage_with_overlay = λ ip bags. ask (λ t. err (failed "no nodes"));
    resolve_reads = λ pk addr. ask-IsReadOnly _;
    overlay_reads = λ ip bags. ask-IsReadOnly _;
  };
  provider_repo = provider_repo;
  contract_repo = contract_repo;
  endpoint_repo = endpoint_repo server;
  system_repo = system_repo server;
  publisher = publisher;
  clock = λ t. 300;
  range_order = λ t. 1 ∷ [];
}

-- the scheduler lets the second goroutine complete whenever there is a choice
abbrev pub poll : Poll.Poll
poll = record {
  cfg = record {
    probe_timeout = 0;
    max_concurrent_probe = 2;
    probe_rates_stream = "results:probe_rates";
    inspect_contracts_stream = "results:inspect_contracts";
  };
  probe = record {
    probe = λ key. ask (λ t.
        ok (record { rate_per_mb_day = 3; min_bounty = 1; min_span = 10; max_span = 20 }, true));
    probe_reads = λ key. ask-IsReadOnly _;
  };
  inspector = record {
    inspect_providers = λ addrs. ask (λ t. ok []);
    inspect_reads = λ addrs. ask-IsReadOnly _;
  };
  provider_repo = provider_repo;
  contract_repo = contract_repo;
  publisher = publisher;
  clock = λ t. 9000 * 1000000000;
  schedule = λ t. some 1;
  range_order = λ t. [];
}

abbrev pub network : Network
network = record {
  Cell = List ℕ;
  register_client = λ addr key t. true;
  ping = λ addr t. true;
  peer_known = λ addr. true;
  overlay_hash = λ bag. some bag;
  torrent_info = λ addr over t. some (0 ∷ 255 ∷ []);
  get_piece = λ addr over piece t. some (9 ∷ []);
  from_boc = λ b. some b;
  cell_hash = λ c. c;
  load_torrent =
      λ c. some (record { piece_size = 131072; file_size = 1048576; root_hash = 9 ∷ [] });
  check_proof = λ c root. text_eq c root;
  int31n = λ n t. 3;
}

abbrev pub proof : Proof.Proof
proof = record {
  cfg = record {
    endpoint_max_age = 3600 * 1000000000;
    max_concurrent_bags = 1;
    max_bags_per_provider = 1;
    bags_sample_percent = 0;
    between_bags_cooldown = 0;
    check_proofs_stream = "results:check_proofs";
  };
  prover = bag_prover network;
  contract_repo = contract_repo;
  endpoint_repo = endpoint_repo server;
  publisher = publisher;
  clock = λ t. t;
  schedule = λ t. none;
  range_order = λ t. 1 ∷ [];
  shuffle = λ t. 1 ∷ [];
}

abbrev pub update : Update.Update
update = record {
  cfg = record {
    ip_info_timeout = 10;
    between_ips_cooldown = 1;
    lookup_ip_info_stream = "results:lookup_ipinfo";
  };
  ipinfo = record {
    get_ip_info = λ ip. ask (λ t. ok (record {
      country = codes "Serbia";
      country_iso = codes "RS";
      city = [];
      time_zone = [];
      ip = ip;
    }));
    info_reads = λ ip. ask-IsReadOnly _;
  };
  ipinfo_repo = record {
    get_providers_ips = ask (λ t. ok (resolved ∷ []));
    ips_reads = ask-IsReadOnly _;
  };
  publisher = publisher;
}
