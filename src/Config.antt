-- ===== src/Config.antt =====
-- internal/config/config.go. Durations are nanoseconds; a number that is negative is 0 here.
use Prim.Native.String.{◌++◌ as ◌<>◌}
use text.Mathlib.Text.{◌==◌ as str_eq}
use mytonprovider_agent.Common.{ℕ, String, Bool, ◌||◌, List, [], ◌∷◌, Text, if◌then◌else◌}
use mytonprovider_agent.World.{Act, Result, ok, panicked, pure, raise, ask, attempt_or, ◌>>=◌}

pub record System : Type 0 where
  pub agent_id : String
  pub adnl_port : String
  pub key : List ℕ
  pub log_level : ℕ
  pub min_job_idle : ℕ
  pub reaper_timeout : ℕ

pub record Postgres : Type 0 where
  pub host : String
  pub port : String
  pub user : String
  pub password : String
  pub name : String

pub record Redis : Type 0 where
  pub addr : String
  pub password : String
  pub db : ℕ
  pub group : String
  pub stream_prefix : String
  pub result_max_len : ℕ

pub record Ton : Type 0 where
  pub master_address : Text
  pub config_url : String

pub record UsecaseCfg : Type 0 where
  pub enabled : Bool
  pub pool : ℕ
  pub timeout : ℕ
  pub block_ms : ℕ
  pub concurrency : ℕ
  pub endpoint_ttl : ℕ

pub record Workers : Type 0 where
  pub discovery : UsecaseCfg
  pub poll : UsecaseCfg
  pub proof : UsecaseCfg
  pub update : UsecaseCfg

pub record Metrics : Type 0 where
  pub enabled : Bool
  pub port : String

pub record Telemetry : Type 0 where
  pub enabled : Bool
  pub end_point : String
  pub service_name : String

pub record Config : Type 0 where
  pub system : System
  pub postgres : Postgres
  pub redis : Redis
  pub ton : Ton
  pub workers : Workers
  pub metrics : Metrics
  pub telemetry : Telemetry

-- The environment, the files, cleanenv, uuid and ed25519.
pub record Loader : Type 0 where
  pub config_path : String
  pub exists : String → Bool
  pub read_config : String → Result Config
  pub new_uuid : ℕ → String
  pub generate_key : ℕ → Result (List ℕ)

unfoldable pub is_auto : String → Bool
is_auto id = str_eq id "" || str_eq id "auto"

choose_agent_id : Loader → Config → Act Config
unfolding ◌>>=◌ ask pure is_auto
choose_agent_id l cfg =
    if is_auto cfg.system.agent_id
    then (ask (λ t. ok (l.new_uuid t)) >>= λ id.
        pure (record cfg { system = record (cfg.system) { agent_id = "agent-" <> id } }))
    else pure cfg

generated : Config → List ℕ → Config
generated cfg key = record cfg { system = record (cfg.system) { key = key } }

choose_key : Loader → List ℕ → Config → Act Config
unfolding attempt_or ask pure raise generated
choose_key l [] cfg =
    attempt_or (ask l.generate_key) (raise panicked) (λ key. pure (generated cfg key))
choose_key l (b ∷ bs) cfg = pure cfg

-- MustLoad; a panic is the error `panicked`
unfoldable pub must_load : Loader → Act Config
unfolding ◌>>=◌ attempt_or ask raise choose_agent_id choose_key
must_load l =
    if str_eq l.config_path ""
    then raise panicked
    else if l.exists l.config_path
    then attempt_or (ask (λ t. l.read_config l.config_path)) (raise panicked)
        (λ cfg. choose_agent_id l cfg >>= λ named. choose_key l named.system.key named)
    else raise panicked

unfoldable pub dsn : Postgres → String
dsn p =
    "postgres://" <> p.user <> ":" <> p.password <> "@" <> p.host <> ":" <> p.port <> "/" <> p.name
    <> "?sslmode=disable"
