-- ===== src/Discovery/Endpoints.antt =====
-- `ResolveEndpoints`: the resolve_endpoints cycle of internal/usecase/discovery/discovery.go.
pub mod Checkpoint
pub mod Counting
pub mod Total
pub mod Grouping
use mytonprovider_agent.Common.{
  ℕ, ◌+◌, ◌<◌, String, Bool, true, false, not, Option, none, some, List, [], ◌∷◌, ◌++◌, map, ltb,
  ◌==◌, if◌then◌else◌, length, select, arrange, Text, is_empty,
}
use mytonprovider_agent.Common.Dict.{Dict, lookup, insert, has, get_or, keys}
use mytonprovider_agent.Domain.{
  Provider, Endpoint, ProviderEndpoint, StorageContract, ContractProviderRelation,
}
use mytonprovider_agent.Jobs.{
  Ctx, job_id_from, scan_master, scan_wallets, resolve_endpoints, cycle_scan_master,
  cycle_scan_wallets, cycle_resolve_endpoints,
}
use mytonprovider_agent.World.{Act, ok, pure, ask, attempt_or, unless_done, now, ◌>>=◌, ◌>>◌}
use mytonprovider_agent.Strings.{to_lower, is_user_friendly}
use mytonprovider_agent.Strings.Hex.{decode_hex}
use mytonprovider_agent.Ports.{
  MasterScanner, WalletScanner, EndpointResolver, ProviderRepo, ContractRepo, EndpointRepo,
  SystemRepo,
}
use mytonprovider_agent.Publisher.{Publisher, publish_result}
use mytonprovider_agent.Discovery.{Discovery}

-- `contractByPubkey`: the first contract of each key; `bagsByPubkey`: all its bags, in order
unfoldable pub contract_by_pubkey : List ContractProviderRelation → Dict Text → Dict Text
contract_by_pubkey [] m = m
contract_by_pubkey (r ∷ rs) m =
    contract_by_pubkey rs
      (if has r.provider_pubkey m then m else insert r.provider_pubkey r.contract_addr m)

unfoldable pub bags_by_pubkey : List ContractProviderRelation → Dict (List Text) → Dict (List Text)
bags_by_pubkey [] m = m
bags_by_pubkey (r ∷ rs) m =
    bags_by_pubkey rs (insert r.provider_pubkey (get_or r.provider_pubkey [] m ++ r.bag_id ∷ []) m)

pub record Progress : Type 0 where
  pub resolved : List ProviderEndpoint
  pub skipped : ℕ
  pub failed : ℕ

abbrev pub no_progress : Progress
no_progress = record { resolved = []; skipped = 0; failed = 0 }

-- `now.Sub(ep.UpdatedAt) < d.cfg.EndpointTTL`
is_fresh : Discovery → ℕ → Option ProviderEndpoint → Bool
is_fresh d time none = false
is_fresh d time (some ep) = ltb time (ep.updated_at + d.cfg.endpoint_ttl)

-- `hex.DecodeString(pubkey)`, and the check of its length
unfoldable pub decode_pubkey : Text → Option (List ℕ)
decode_pubkey pubkey = elim (decode_hex pubkey) [
  | none ↦ none
  | some pk ↦ if length pk == 32 then some pk else none
]

-- the storage address is looked up again if the contract's way gave none; an error leaves it empty
complete_storage : Discovery → ProviderEndpoint → List Text → Act ProviderEndpoint
unfolding attempt_or pure
complete_storage d ep bags =
    if is_empty ep.storage.ip
    then attempt_or (d.resolver.resolve_storage_with_overlay ep.provider.ip bags) (pure ep)
        (λ storage. pure (record ep { storage = storage }))
    else pure ep

-- what the cycle publishes of a provider that it found
abbrev stamped : Text → ℕ → ProviderEndpoint → ProviderEndpoint
stamped pubkey time ep = record ep { public_key = pubkey; updated_at = time }

keep_found : Discovery → ℕ → Text → List Text → ProviderEndpoint → Act (Option ProviderEndpoint)
unfolding ◌>>=◌ complete_storage
keep_found d time pubkey bags ep =
    if is_empty ep.provider.ip
    then pure none
    else (complete_storage d ep bags >>= λ full. pure (some (stamped pubkey time full)))

-- one pass of the loop for a key that is not skipped; `none` counts as failed
resolve_one :
    Discovery → ℕ → Text → Text → List Text → Option (List ℕ) → Act (Option ProviderEndpoint)
unfolding attempt_or keep_found pure
resolve_one d time pubkey contract_addr bags none = pure none
resolve_one d time pubkey contract_addr bags (some pk) =
    attempt_or (d.resolver.resolve pk contract_addr) (pure none) (keep_found d time pubkey bags)

unfoldable pub count_outcome : Option ProviderEndpoint → Progress → Progress
count_outcome none p = record p { failed = p.failed + 1 }
count_outcome (some ep) p = record p { resolved = p.resolved ++ ep ∷ [] }

-- the loop `for pubkey, contractAddr := range contractByPubkey`
unfoldable pub resolve_from :
    Discovery
    → Ctx
    → ℕ
    → Dict ProviderEndpoint
    → Dict (List Text)
    → Dict Text
    → Progress
    → Act Progress
unfolding ◌>>=◌ unless_done is_fresh resolve_one
resolve_from d ctx time existing bags [] p = pure p
resolve_from d ctx time existing bags ((pubkey, addr) ∷ rest) p = unless_done ctx (
    if is_fresh d time (lookup pubkey existing)
    then resolve_from d ctx time existing bags rest (record p { skipped = p.skipped + 1 })
    else (resolve_one d time pubkey addr (get_or pubkey [] bags) (decode_pubkey pubkey) >>= λ o.
        resolve_from d ctx time existing bags rest (count_outcome o p)))

publish_progress : Discovery → Ctx → Progress → Act (Unit {0})
publish_progress d ctx p =
    publish_result d.publisher d.cfg.resolve_endpoints_stream (job_id_from ctx)
      cycle_resolve_endpoints
      (resolve_endpoints
        (record { endpoints = p.resolved; skipped = p.skipped; failed = p.failed }))

resolve_relations : Discovery → Ctx → List ContractProviderRelation → Act (Unit {0})
unfolding ◌>>=◌ now publish_progress
resolve_relations d ctx [] = publish_progress d ctx no_progress
resolve_relations d ctx (r ∷ rs) = do
  existing ← d.endpoint_repo.load_all
  time ← now d.clock
  order ← ask (λ t. ok (d.range_order t))
  p ←
      resolve_from d ctx time existing (bags_by_pubkey (r ∷ rs) [])
        (arrange order (contract_by_pubkey (r ∷ rs) [])) no_progress
  publish_progress d ctx p

unfoldable pub resolve_endpoints_cycle : Discovery → Ctx → Act (Unit {0})
unfolding ◌>>=◌ resolve_relations
resolve_endpoints_cycle d ctx = do
  relations ← d.contract_repo.get_active_relations
  resolve_relations d ctx relations
