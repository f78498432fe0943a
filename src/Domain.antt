-- ===== src/Domain.antt =====
-- internal/domain/*.go. Strings are byte lists, `time.Time` is in Unix nanoseconds (the program
-- compares and subtracts times), `[]byte` is a byte list. The JSON tags are not modelled.
use mytonprovider_agent.Common.{ℕ, Text, List, [], Bool}

pub record Provider : Type 0 where
  pub public_key : Text
  pub address : Text
  pub lt : ℕ  -- uint64
  pub registered_at : ℕ

pub record Rates : Type 0 where
  pub rate_per_mb_day : ℕ  -- int64, as its bit pattern
  pub min_bounty : ℕ  -- int64, as its bit pattern
  pub min_span : ℕ  -- uint32
  pub max_span : ℕ  -- uint32

pub record Endpoint : Type 0 where
  pub public_key : Text
  pub ip : Text
  pub port : ℕ  -- int32

pub record ProviderEndpoint : Type 0 where
  pub public_key : Text
  pub provider : Endpoint
  pub storage : Endpoint
  pub updated_at : ℕ

pub record ProviderStatus : Type 0 where
  pub public_key : Text
  pub is_online : Bool
  pub checked_at : ℕ

pub record IpInfo : Type 0 where
  pub country : Text
  pub country_iso : Text
  pub city : Text
  pub time_zone : Text
  pub ip : Text

-- the zero values that Go gives to a variable which is not set
abbrev pub no_endpoint : Endpoint
no_endpoint = record { public_key = []; ip = []; port = 0 }

abbrev pub no_provider_endpoint : ProviderEndpoint
no_provider_endpoint = record {
  public_key = [];
  provider = no_endpoint;
  storage = no_endpoint;
  updated_at = 0;
}

abbrev pub storage_reward_withdrawal_op_code : ℕ
storage_reward_withdrawal_op_code = 0xa91baf56

pub record StorageContract : Type 0 where
  pub address : Text
  pub bag_id : Text
  pub owner_addr : Text
  pub size : ℕ  -- uint64
  pub chunk_size : ℕ  -- uint64
  pub last_lt : ℕ  -- uint64
  pub providers : List Text

pub record ContractProviderRelation : Type 0 where
  pub contract_addr : Text
  pub provider_pubkey : Text
  pub provider_address : Text
  pub bag_id : Text
  pub size : ℕ  -- uint64

pub record OnChainProvider : Type 0 where
  pub key : Text
  pub last_proof_time : ℕ
  pub rate_per_mb_day : ℕ  -- uint64
  pub max_span : ℕ  -- uint32

pub record ContractOnChainState : Type 0 where
  pub address : Text
  pub balance : ℕ  -- uint64
  pub providers : List OnChainProvider
  pub lite_server_error : Bool

-- reason.go: the constants of `ReasonCode`
pub data ReasonCode : Type 0 where
  valid_storage_proof : ReasonCode
  ip_not_found not_found unavailable_provider cant_create_peer unknown_peer : ReasonCode
  ping_failed invalid_bag_id failed_initial_ping : ReasonCode
  get_info_failed invalid_header : ReasonCode
  cant_get_piece cant_parse_boc proof_check_failed : ReasonCode

-- the number that a reason has on the wire
abbrev pub reason_number : ReasonCode → ℕ
reason_number ReasonCode.valid_storage_proof = 0
reason_number ReasonCode.ip_not_found = 101
reason_number ReasonCode.not_found = 102
reason_number ReasonCode.unavailable_provider = 103
reason_number ReasonCode.cant_create_peer = 104
reason_number ReasonCode.unknown_peer = 105
reason_number ReasonCode.ping_failed = 201
reason_number ReasonCode.invalid_bag_id = 202
reason_number ReasonCode.failed_initial_ping = 203
reason_number ReasonCode.get_info_failed = 301
reason_number ReasonCode.invalid_header = 302
reason_number ReasonCode.cant_get_piece = 401
reason_number ReasonCode.cant_parse_boc = 402
reason_number ReasonCode.proof_check_failed = 403

pub record ProofResult : Type 0 where
  pub contract_addr : Text
  pub provider_addr : Text
  pub reason : ReasonCode
  pub checked_at : ℕ
