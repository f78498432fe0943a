-- ===== src/Tests/Outside.antt =====
-- Sample data: what the outbound adapters of the agent talk to.
use mytonprovider_agent.Common.{
  ℕ, ◌+◌, ◌==◌, ◌++◌, true, false, none, some, List, [], ◌∷◌, Text, codes, if◌then◌else◌,
}
use mytonprovider_agent.World.{ok, err, failed}
use mytonprovider_agent.Config.{Config, UsecaseCfg}
use mytonprovider_agent.Lite.{
  RawTransaction, internal, Api, Page, found, refused, none_found, deadline,
}
use mytonprovider_agent.Ton.{Client}
use mytonprovider_agent.Dht.{Dht, ed25519}
use mytonprovider_agent.Consumer
use mytonprovider_agent.App.{Outside}
use mytonprovider_agent.App.Start.{Queue}
use mytonprovider_agent.Tests.Samples.{fill, key_a, server, network}

abbrev pub friendly : Text
friendly = codes "EQB3ncyBUTjZUA5EnFKR5_EnOMI9V1tTEAAPaiU71gc4TiUt"

-- a registration of `key_a` at an LT, and the LT before it
abbrev pub raw : ℕ → ℕ → RawTransaction
raw lt prev_lt = record {
  hash = codes "h";
  lt = lt;
  prev_lt = prev_lt;
  prev_hash = codes "p";
  incoming = internal (record {
    src_addr = friendly;
    dst_addr = codes "M";
    created_at = lt;
    payload = some (record { comment = codes "tsp-" ++ key_a; op = 0 });
  });
}

abbrev pub newest_page : List RawTransaction
newest_page = raw 50 40 ∷ raw 60 50 ∷ []

abbrev pub oldest_page : List RawTransaction
oldest_page = raw 30 20 ∷ raw 40 30 ∷ []

-- what arrives later
abbrev pub later_page : List RawTransaction
later_page = raw 70 60 ∷ raw 80 70 ∷ []

-- a page of the later history: its first transaction was there before
abbrev pub mixed_page : List RawTransaction
mixed_page = raw 60 50 ∷ raw 70 60 ∷ raw 80 70 ∷ []

abbrev pub middle_page : List RawTransaction
middle_page = raw 40 30 ∷ raw 50 40 ∷ []

abbrev pub page_at : ℕ → Page
page_at lt =
    if lt == 60
    then found newest_page
    else if lt == 40
    then found oldest_page
    else refused none_found

abbrev pub api : Api
api = record {
  parse_addr = λ a. true;
  masterchain_info = λ t. ok 7;
  account = λ block a t. ok (60, codes "h");
  list_transactions = λ a lt hash t. page_at lt;
  storage_info = λ block a t. ok none;
  providers_info = λ block a t. err (failed "no answer");
  schedule = λ t. some 0;
  turn_order = λ t. 1 ∷ [];
}

-- the server when more has arrived: its pages are cut elsewhere
abbrev pub later_api : Api
later_api = record api {
  account = λ block a t. ok (80, codes "h");
  list_transactions = λ a lt hash t.
      if lt == 80
      then found mixed_page
      else if lt == 50
      then found middle_page
      else if lt == 30
      then found (raw 30 20 ∷ [])
      else refused none_found;
}

-- the server that is too slow for a second page
abbrev pub slow_api : Api
slow_api = record api {
  list_transactions = λ a lt hash t. if lt == 60 then found newest_page else refused deadline;
}

abbrev pub client : Client
client = record { api = api; range_order = λ t. [] }

abbrev pub dht : Dht
dht = record {
  hash_key = λ k. ok k;
  find_value = λ k t. ok k;
  parse_record = λ v. ok v;
  find_addresses = λ id t. ok (
    some (
        record { ip = codes "10.0.0.9"; port = 1 }
        ∷ record { ip = codes "10.0.0.1"; port = 2 }
        ∷ []),
    codes "K",
  );
  find_overlay_nodes = λ bag t. ok (some (ed25519 (fill 32 1) ∷ []));
  parse_addr = λ a. true;
  verify_storage_adnl_proof = λ k a t. ok k;
  shuffle = λ t. [];
}

abbrev usecase : UsecaseCfg
usecase = record {
  enabled = true;
  pool = 2;
  timeout = 0;
  block_ms = 0;
  concurrency = 0;
  endpoint_ttl = 0;
}

abbrev pub config : Config
config = record {
  system = record {
    agent_id = "agent-1";
    adnl_port = "16167";
    key = fill 64 1;
    log_level = 1;
    min_job_idle = 0;
    reaper_timeout = 0;
  };
  postgres = record { host = "db"; port = "5432"; user = "u"; password = "p"; name = "n" };
  redis = record {
    addr = "redis:6379";
    password = "";
    db = 0;
    group = "mtpa";
    stream_prefix = "mtpa";
    result_max_len = 1000;
  };
  ton = record { master_address = codes "M"; config_url = "" };
  workers = record {
    discovery = usecase;
    poll = record usecase { enabled = false };
    proof = usecase;
    update = usecase;
  };
  metrics = record { enabled = true; port = "2112" };
  telemetry = record { enabled = false; end_point = ""; service_name = "mtpa" };
}

abbrev pub outside : Outside
outside = record {
  server = server;
  ton = client;
  dht = dht;
  transport = λ key size t. ok none;
  network = network;
  http = record {
    new_request = λ url. ok url;
    do_request = λ req t. err (failed "no route");
    decode = λ body. err (failed "no JSON");
  };
  xadd_answer = λ t. ok tt;
  clock = λ t. t;
  schedule = λ t. none;
  range_order = λ t. [];
  shuffle = λ t. [];
}

-- the group is there already, and each read gives one trigger
abbrev pub queue : Queue
queue = record {
  create_group = λ stream group t. some (codes "BUSYGROUP Consumer Group name already exists");
  unmarshal = λ text. none;
  expires = λ timeout t. t + 1000;
  read_group = λ stream t. ok (record { id = "1-0"; data_field = Consumer.Field.missing } ∷ []);
  auto_claim = λ stream cursor t. record { jobs = []; start = "0-0"; failed = none };
  ack = λ stream id t. ok tt;
}
