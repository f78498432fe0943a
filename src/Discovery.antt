-- ===== src/Discovery.antt =====
-- internal/usecase/discovery/discovery.go: the configuration and the parts of the use case. Each
-- of its three cycles is a module below. Spans and log lines are not modelled.
pub mod NewProviders
pub mod StorageContracts
pub mod Endpoints
use mytonprovider_agent.Common.{
  ℕ, ◌+◌, ◌<◌, String, Bool, true, false, not, Option, none, some, List, [], ◌∷◌, ◌++◌, map, ltb,
  ◌==◌, if◌then◌else◌, length, select, arrange, Text, is_empty,
}
use mytonprovider_agent.Common.Dict.{Dict, lookup, insert, has, get_or, keys}
use mytonprovider_agent.Domain.{
  Provider, Endpoint, ProviderEndpoint, StorageContract, ContractProviderRelation,
}
use mytonprovider_agent.Jobs.{
  Ctx, job_id_from, scan_master, scan_wallets, resolve_endpoints, cycle_scan_master,
  cycle_scan_wallets, cycle_resolve_endpoints,
}
use mytonprovider_agent.World.{
  Act, Error, Result, ok, err, canceled, pure, raise, ask, attempt, ctx_done, now, ◌>>=◌, ◌>>◌,
}
use mytonprovider_agent.Strings.{to_lower, is_user_friendly}
use mytonprovider_agent.Strings.Hex.{decode_hex}
use mytonprovider_agent.Ports.{
  MasterScanner, WalletScanner, EndpointResolver, ProviderRepo, ContractRepo, EndpointRepo,
  SystemRepo,
}
use mytonprovider_agent.Publisher.{Publisher, publish_result}

pub record Config : Type 0 where
  pub master_addr : Text
  pub endpoint_ttl : ℕ
  pub scan_master_stream : String
  pub scan_wallets_stream : String
  pub resolve_endpoints_stream : String

pub record Discovery : Type 0 where
  pub cfg : Config
  pub master_scanner : MasterScanner
  pub wallet_scanner : WalletScanner
  pub resolver : EndpointResolver
  pub provider_repo : ProviderRepo
  pub contract_repo : ContractRepo
  pub endpoint_repo : EndpointRepo
  pub system_repo : SystemRepo
  pub publisher : Publisher
  -- the clock, and the order in which Go ranges over a map
  pub clock : ℕ → ℕ
  pub range_order : ℕ → List ℕ
