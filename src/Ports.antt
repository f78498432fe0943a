-- ===== src/Ports.antt =====
-- The interfaces of internal/usecase/*/ports.go, with what their comments promise: reads write
-- nothing, and a write is one statement. A port's `ctx` argument only bounds its duration.
use mytonprovider_agent.Common.{ℕ, String, List, ◌∷◌, Text, Bool, Option, ◌≡◌, map}
use mytonprovider_agent.Common.Dict.{Dict}
use mytonprovider_agent.Domain.{
  Provider, Rates, Endpoint, ProviderEndpoint, IpInfo, StorageContract, ContractProviderRelation,
  ContractOnChainState, ReasonCode,
}
use mytonprovider_agent.Strings.Decimal.{format_uint}
use mytonprovider_agent.World.{World, Act, set_param, set_last_tx_lt}
use mytonprovider_agent.World.Actions.Keeps.{IsReadOnly}

abbrev pub last_lt_key : String
last_lt_key = "masterWalletLastLT"

pub record MasterScanner : Type 0 where
  pub scan : Text → ℕ → Act (List Provider × ℕ)
  pub scan_reads : (addr : Text) (from_lt : ℕ) → IsReadOnly (scan addr from_lt)

pub record WalletScanner : Type 0 where
  pub scan : Text → ℕ → Act (List StorageContract × ℕ)
  pub scan_reads : (addr : Text) (from_lt : ℕ) → IsReadOnly (scan addr from_lt)

pub record EndpointResolver : Type 0 where
  pub resolve : List ℕ → Text → Act ProviderEndpoint
  pub resolve_storage_with_overlay : Text → List Text → Act Endpoint
  pub resolve_reads : (pubkey : List ℕ) (addr : Text) → IsReadOnly (resolve pubkey addr)
  pub overlay_reads :
      (ip : Text) (bags : List Text) → IsReadOnly (resolve_storage_with_overlay ip bags)

abbrev pub lt_updates : List Provider → List (Text × ℕ)
lt_updates = map (λ p. (p.public_key, p.lt))

pub record ProviderRepo : Type 0 where
  pub get_all_pubkeys : Act (List Text)
  pub get_all_wallets : Act (List Provider)
  pub update_lt : List Provider → Act (Unit {0})
  pub pubkeys_reads : IsReadOnly get_all_pubkeys
  pub wallets_reads : IsReadOnly get_all_wallets
  pub update_writes :
      (p : Provider) (ps : List Provider) (w : World)
      → (accepted : Bool) × ((update_lt (p ∷ ps) w).1.log
          ≡ set_last_tx_lt (lt_updates (p ∷ ps)) accepted ∷ w.log)

pub record ContractRepo : Type 0 where
  pub get_active_relations : Act (List ContractProviderRelation)
  pub relations_reads : IsReadOnly get_active_relations

pub record EndpointRepo : Type 0 where
  pub load_all : Act (Dict ProviderEndpoint)
  pub load_fresh : Text → ℕ → Act (Option ProviderEndpoint)
  pub all_reads : IsReadOnly load_all
  pub fresh_reads : (pubkey : Text) (max_age : ℕ) → IsReadOnly (load_fresh pubkey max_age)

pub record SystemRepo : Type 0 where
  pub get_master_wallet_lt : Act ℕ
  pub set_master_wallet_lt : ℕ → Act (Unit {0})
  pub get_reads : IsReadOnly get_master_wallet_lt
  pub set_writes :
      (lt : ℕ) (w : World)
      → (accepted : Bool) × ((set_master_wallet_lt lt w).1.log
          ≡ set_param last_lt_key (format_uint lt) accepted ∷ w.log)

pub record RatesProbe : Type 0 where
  -- rates and `online`
  pub probe : List ℕ → Act (Rates × Bool)
  pub probe_reads : (pubkey : List ℕ) → IsReadOnly (probe pubkey)

pub record ContractInspector : Type 0 where
  pub inspect_providers : List Text → Act (List ContractOnChainState)
  pub inspect_reads : (addrs : List Text) → IsReadOnly (inspect_providers addrs)

-- The error that comes beside the reason is only logged, so a prover gives the reason alone.
pub record BagProver : Type 0 where
  pub verify : ProviderEndpoint → Text → World → ReasonCode × World
  pub verify_db : (ep : ProviderEndpoint) (bag : Text) (w : World) → (verify ep bag w).1.db ≡ w.db
  pub verify_log :
      (ep : ProviderEndpoint) (bag : Text) (w : World) → (verify ep bag w).1.log ≡ w.log

pub record IpInfoClient : Type 0 where
  pub get_ip_info : Text → Act IpInfo
  pub info_reads : (ip : Text) → IsReadOnly (get_ip_info ip)

pub record IpInfoRepo : Type 0 where
  pub get_providers_ips : Act (List ProviderEndpoint)
  pub ips_reads : IsReadOnly get_providers_ips
