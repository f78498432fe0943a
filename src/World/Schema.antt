-- ===== src/World/Schema.antt =====
-- The tables and columns that the SQL of internal/adapters/outbound/postgres names. A nullable
-- column is an `Option`.
use mytonprovider_agent.Common.{ℕ, String, List, Text, Option}

-- providers.providers
pub record ProviderRow : Type 0 where
  pub public_key : Text
  pub address : Text
  pub last_tx_lt : ℕ
  pub ip : Option Text
  pub port : Option ℕ
  pub storage_ip : Option Text
  pub storage_port : Option ℕ
  pub updated_at : ℕ
  -- `none` for a null column, `some none` for '{}', `some (some a)` for an object whose 'ip' is `a`
  pub ip_info : Option (Option Text)

-- providers.storage_contracts
pub record ContractRow : Type 0 where
  pub address : Text
  pub provider_address : Text
  pub bag_id : Text
  pub size : ℕ

pub record Database : Type 0 where
  pub providers : List ProviderRow
  pub storage_contracts : List ContractRow
  -- system.params: key and value, both varchar
  pub params : List (String × Text)
