-- ===== src/Poll.antt =====
-- internal/usecase/poll/poll.go: the configuration and the parts of the use case. Its two cycles
-- are modules below.
pub mod Rates
pub mod Rejected
use mytonprovider_agent.Common.{ℕ, String, List, Option, ◌*◌, ◌==◌, if◌then◌else◌}
use mytonprovider_agent.Ports.{RatesProbe, ContractInspector, ProviderRepo, ContractRepo}
use mytonprovider_agent.Publisher.{Publisher}

-- A duration or a count that is not positive is 0 here.
pub record Config : Type 0 where
  pub probe_timeout : ℕ
  pub max_concurrent_probe : ℕ
  pub probe_rates_stream : String
  pub inspect_contracts_stream : String

-- `New` sets what the configuration left out
unfoldable pub with_defaults : Config → Config
with_defaults cfg = record cfg {
  probe_timeout = if cfg.probe_timeout == 0 then 14 * 1000000000 else cfg.probe_timeout;
  max_concurrent_probe = if cfg.max_concurrent_probe == 0 then 30 else cfg.max_concurrent_probe;
}

pub record Poll : Type 0 where
  pub cfg : Config
  pub probe : RatesProbe
  pub inspector : ContractInspector
  pub provider_repo : ProviderRepo
  pub contract_repo : ContractRepo
  pub publisher : Publisher
  pub clock : ℕ → ℕ
  -- the choices of the Go scheduler, and the orders of ranges over maps
  pub schedule : ℕ → Option ℕ
  pub range_order : ℕ → List ℕ
