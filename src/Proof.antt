-- ===== src/Proof.antt =====
-- internal/usecase/proof/proof.go: the configuration, the parts and the cycle of the proof checks.
pub mod Provider
pub mod Cycle
use mytonprovider_agent.Common.{ℕ, String, List, ◌*◌, ◌==◌, if◌then◌else◌, Option}
use mytonprovider_agent.Ports.{BagProver, ContractRepo, EndpointRepo}
use mytonprovider_agent.Publisher.{Publisher}

-- A duration or a count that is not positive is 0 here.
pub record Config : Type 0 where
  pub endpoint_max_age : ℕ
  pub max_concurrent_bags : ℕ
  pub max_bags_per_provider : ℕ
  pub bags_sample_percent : ℕ
  pub between_bags_cooldown : ℕ
  pub check_proofs_stream : String

-- `New` sets what the configuration left out
unfoldable pub with_defaults : Config → Config
with_defaults cfg = record cfg {
  endpoint_max_age = if cfg.endpoint_max_age == 0 then 3600 * 1000000000 else cfg.endpoint_max_age;
  max_concurrent_bags = if cfg.max_concurrent_bags == 0 then 30 else cfg.max_concurrent_bags;
  between_bags_cooldown =
      if cfg.between_bags_cooldown == 0 then 500 * 1000000 else cfg.between_bags_cooldown;
}

-- `Proof`; its inspector and resolver are never called. `cfg` is what `New` has completed.
pub record Proof : Type 0 where
  pub cfg : Config
  pub prover : BagProver
  pub contract_repo : ContractRepo
  pub endpoint_repo : EndpointRepo
  pub publisher : Publisher
  pub clock : ℕ → ℕ
  -- the choices of the Go scheduler, of ranges over maps, and of `rand.Shuffle`
  pub schedule : ℕ → Option ℕ
  pub range_order : ℕ → List ℕ
  pub shuffle : ℕ → List ℕ
