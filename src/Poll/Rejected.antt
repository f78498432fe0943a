-- ===== src/Poll/Rejected.antt =====
-- `UpdateRejectedContracts` and `isRemovedByLowBalance` of internal/usecase/poll/poll.go.
pub mod Checkpoint
pub mod Balance
pub mod Verdicts
pub mod Skipped
pub mod Standing
pub mod Published
use mytonprovider_agent.Common.{
  ℕ, ◌+◌, ◌*◌, ◌/◌, Bool, true, false, ◌&&◌, Option, none, some, List, [], ◌∷◌, ◌++◌, map, arrange,
  ltb, leb, ◌==◌, if◌then◌else◌, Text, length, select,
}
use mytonprovider_agent.Common.Dict.{Dict, lookup, insert, has, get_or, keys}
use mytonprovider_agent.Domain.{ContractProviderRelation, OnChainProvider, ContractOnChainState}
use mytonprovider_agent.Jobs.{
  Ctx, job_id_from, InspectContractsResult, inspect_contracts, cycle_inspect_contracts,
}
use mytonprovider_agent.Strings.Hex.{encode_hex}
use mytonprovider_agent.World.{Act, ok, pure, ask, now, wrapping, ◌>>=◌, ◌>>◌}
use mytonprovider_agent.Publisher.{publish_result}
use mytonprovider_agent.Poll.{Poll}

-- tlb.MustFromTON("0.05").Nano()
abbrev pub storage_fee : ℕ
storage_fee = 50000000

-- `t.Unix()`: times are nanoseconds
abbrev pub unix : ℕ → ℕ
unix t = t / 1000000000

-- what a proof costs at most, in nanoTON; computed with `big.Int`, so nothing wraps
unfoldable pub bounty : ℕ → OnChainProvider → ℕ
bounty bag_size provider =
    provider.rate_per_mb_day * bag_size * provider.max_span / (24 * 60 * 60 * 1024 * 1024)
    + storage_fee

-- The deadline is an int64 of seconds; it does not wrap before the year 292 billion.
unfoldable pub is_removed_by_low_balance : ℕ → ℕ → OnChainProvider → ContractOnChainState → Bool
unfolding bounty
is_removed_by_low_balance time bag_size provider contract =
    if leb (bounty bag_size provider) contract.balance
    then false
    else if unix provider.last_proof_time == 0
    then false
    else ltb (unix provider.last_proof_time + provider.max_span + 3600) (unix time)

pub record ContractInfo : Type 0 where
  pub providers : Dict (Unit {0})
  pub skip : Bool

-- `bagSizeByContract[rel.ContractAddr] = rel.Size`: the last relation wins
unfoldable pub bag_sizes : List ContractProviderRelation → Dict ℕ → Dict ℕ
bag_sizes [] m = m
bag_sizes (r ∷ rs) m = bag_sizes rs (insert r.contract_addr r.size m)

-- the loop over `s.Providers`: each provider but those that have run out of balance
pub provider_set :
    Poll → ℕ → ContractOnChainState → List OnChainProvider → Dict (Unit {0}) → Act (Dict (Unit {0}))
unfolding ◌>>=◌ now is_removed_by_low_balance
provider_set p bag_size s [] set = pure set
provider_set p bag_size s (prov ∷ provs) set = now p.clock >>= λ time.
    provider_set p bag_size s provs (
      if is_removed_by_low_balance time bag_size prov s
      then set
      else insert (encode_hex prov.key) tt set)

-- the loop over the inspected states
unfoldable pub state_infos :
    Poll → Dict ℕ → List ContractOnChainState → Dict ContractInfo → Act (Dict ContractInfo)
unfolding ◌>>=◌ provider_set
state_infos p sizes [] infos = pure infos
state_infos p sizes (s ∷ ss) infos =
    provider_set p (get_or s.address 0 sizes) s s.providers [] >>= λ set.
    state_infos p sizes ss
      (insert s.address (record { providers = set; skip = s.lite_server_error }) infos)

abbrev pub skipped_addrs : List ContractOnChainState → List Text
skipped_addrs ss = map (λ s. s.address) (select (λ s. s.lite_server_error) ss)

pub data Verdict : Type 0 where
  rejected skipped active : Verdict

unfoldable pub verdict : Dict ContractInfo → ContractProviderRelation → Verdict
verdict infos rel = elim (lookup rel.contract_addr infos) [
  | none ↦ rejected
  | some info ↦
      if info.skip
      then skipped
      else if has rel.provider_pubkey info.providers
      then active
      else rejected
]

abbrev pub is_rejected : Verdict → Bool
is_rejected rejected = true
is_rejected _ = false

unfoldable pub rejected_relations :
    Dict ContractInfo → List ContractProviderRelation → List ContractProviderRelation
unfolding verdict
rejected_relations infos = select (λ rel. is_rejected (verdict infos rel))

publish_inspection : Poll → Ctx → InspectContractsResult → Act (Unit {0})
publish_inspection p ctx result =
    publish_result p.publisher p.cfg.inspect_contracts_stream (job_id_from ctx)
      cycle_inspect_contracts (inspect_contracts result)

inspect_relations : Poll → Ctx → List ContractProviderRelation → Act (Unit {0})
unfolding ◌>>=◌ wrapping state_infos publish_inspection rejected_relations bag_sizes
inspect_relations p ctx [] = publish_inspection p ctx (record { rejected = []; skipped = [] })
inspect_relations p ctx (r ∷ rs) = do
  let sizes = bag_sizes (r ∷ rs) []
  order ← ask (λ t. ok (p.range_order t))
  states ← p.inspector.inspect_providers (arrange order (keys sizes))
  infos ← state_infos p sizes states []
  wrapping "usecase.poll.UpdateRejectedContracts" (
      publish_inspection p ctx
        (record { rejected = rejected_relations infos (r ∷ rs); skipped = skipped_addrs states }))

unfoldable pub update_rejected_contracts : Poll → Ctx → Act (Unit {0})
unfolding ◌>>=◌ inspect_relations
update_rejected_contracts p ctx = do
  relations ← p.contract_repo.get_active_relations
  inspect_relations p ctx relations
