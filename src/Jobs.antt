-- ===== src/Jobs.antt =====
-- internal/jobs/types.go: the names of the cycles, the envelopes and the payloads.
use mytonprovider_agent.Common.{ℕ, String, List, Text, Option}
use mytonprovider_agent.Domain.{
  Provider, StorageContract, ContractProviderRelation, ProviderEndpoint, ProviderStatus, Rates,
  ProofResult, IpInfo,
}

abbrev pub cycle_scan_master : String
cycle_scan_master = "scan_master"

abbrev pub cycle_scan_wallets : String
cycle_scan_wallets = "scan_wallets"

abbrev pub cycle_resolve_endpoints : String
cycle_resolve_endpoints = "resolve_endpoints"

abbrev pub cycle_probe_rates : String
cycle_probe_rates = "probe_rates"

abbrev pub cycle_inspect_contracts : String
cycle_inspect_contracts = "inspect_contracts"

abbrev pub cycle_check_proofs : String
cycle_check_proofs = "check_proofs"

abbrev pub cycle_lookup_ipinfo : String
cycle_lookup_ipinfo = "lookup_ipinfo"

pub data Status : Type 0 where
  status_ok status_error : Status

-- `Hint` is raw JSON that no code of the agent reads.
pub record TriggerEnvelope : Type 0 where
  pub job_id : String
  pub cycle : String
  pub enqueued_at : ℕ

pub record ScanMasterResult : Type 0 where
  pub new_providers : List Provider
  pub last_lt : ℕ
  pub scanned_count : ℕ

pub record ScanWalletsResult : Type 0 where
  pub contracts : List StorageContract
  pub relations : List ContractProviderRelation
  pub updated_wallets : List Provider

pub record ResolveEndpointsResult : Type 0 where
  pub endpoints : List ProviderEndpoint
  pub skipped : ℕ
  pub failed : ℕ

pub record ProviderRateUpdate : Type 0 where
  pub public_key : Text
  pub rates : Rates

pub record ProbeRatesResult : Type 0 where
  pub statuses : List ProviderStatus
  pub rates : List ProviderRateUpdate

pub record InspectContractsResult : Type 0 where
  pub rejected : List ContractProviderRelation
  pub skipped : List Text

pub record CheckProofsResult : Type 0 where
  pub results : List ProofResult

pub record IpInfoUpdate : Type 0 where
  pub public_key : Text
  pub ip : Text
  pub info : IpInfo

pub record LookupIpInfoResult : Type 0 where
  pub items : List IpInfoUpdate

-- `Payload any`: the seven results that the handlers pass, or nothing
pub data Payload : Type 0 where
  absent : Payload
  scan_master : ScanMasterResult → Payload
  scan_wallets : ScanWalletsResult → Payload
  resolve_endpoints : ResolveEndpointsResult → Payload
  probe_rates : ProbeRatesResult → Payload
  inspect_contracts : InspectContractsResult → Payload
  check_proofs : CheckProofsResult → Payload
  lookup_ipinfo : LookupIpInfoResult → Payload

pub record ResultEnvelope : Type 0 where
  pub job_id : String
  pub cycle : String
  pub status : Status
  pub error : String
  pub payload : Payload
  pub processed_at : ℕ
  pub agent_id : String

-- What a `context.Context` carries: the job's id (`WithJobID`), and the moment from which
-- `ctx.Err()` is not nil (cancelled, or past its deadline); a done context stays done.
pub record Ctx : Type 0 where
  pub job_id : String
  pub done_at : Option ℕ

abbrev pub with_job_id : Ctx → String → Ctx
with_job_id ctx id = record ctx { job_id = id }

abbrev pub job_id_from : Ctx → String
job_id_from ctx = ctx.job_id
