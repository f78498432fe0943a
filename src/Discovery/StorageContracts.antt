-- ===== src/Discovery/StorageContracts.antt =====
-- `CollectStorageContracts`: the scan_wallets cycle of internal/usecase/discovery/discovery.go.
pub mod Checkpoint
pub mod Merging
pub mod Relations
use mytonprovider_agent.Common.{
  Option, ℕ, not, none, some, List, [], ◌∷◌, ◌++◌, map, ltb, if◌then◌else◌, arrange, Text,
}
use mytonprovider_agent.Common.Dict.{Dict, lookup, insert}
use mytonprovider_agent.Domain.{Provider, StorageContract, ContractProviderRelation}
use mytonprovider_agent.Jobs.{ScanWalletsResult, Ctx, job_id_from, scan_wallets, cycle_scan_wallets}
use mytonprovider_agent.World.{Act, ok, pure, ask, attempt, attempt_or, unless_done, ◌>>=◌, ◌>>◌}
use mytonprovider_agent.Strings.{is_user_friendly}
use mytonprovider_agent.Publisher.{publish_result}
use mytonprovider_agent.Discovery.{Discovery}

-- `addrToPubkey[w.Address] = w.PublicKey`, in order: a later wallet of the same address wins
unfoldable pub addr_to_pubkey : List Provider → Dict Text → Dict Text
addr_to_pubkey [] m = m
addr_to_pubkey (w ∷ ws) m = addr_to_pubkey ws (insert w.address w.public_key m)

-- a contract that is there already gets the new providers, and the later `LastLT`
join_contract : StorageContract → StorageContract → StorageContract
join_contract existing c = record existing {
  providers = existing.providers ++ c.providers;
  last_lt = if ltb existing.last_lt c.last_lt then c.last_lt else existing.last_lt;
}

unfoldable pub merge_contract : StorageContract → Dict StorageContract → Dict StorageContract
unfolding join_contract
merge_contract c merged = elim (lookup c.address merged) [
  | some existing ↦ insert c.address (join_contract existing c) merged
  | none ↦ insert c.address c merged
]

unfoldable pub merge_contracts : List StorageContract → Dict StorageContract → Dict StorageContract
unfolding merge_contract
merge_contracts [] merged = merged
merge_contracts (c ∷ cs) merged = merge_contracts cs (merge_contract c merged)

-- the wallet with its new LT, if the scan got past the old one
unfoldable pub advanced : Provider → ℕ → List Provider
advanced w last_lt = if ltb w.lt last_lt then (record w { lt = last_lt }) ∷ [] else []

-- the loop `for k, w := range wallets`
unfoldable pub scan_wallets_from :
    Discovery
    → Ctx
    → List Provider
    → Dict StorageContract
    → List Provider
    → Act (Dict StorageContract × List Provider)
unfolding pure attempt_or unless_done
scan_wallets_from d ctx [] merged updated = pure (merged, updated)
scan_wallets_from d ctx (w ∷ ws) merged updated = unless_done ctx (
    if is_user_friendly w.address
    then attempt_or (d.wallet_scanner.scan w.address w.lt)
        (scan_wallets_from d ctx ws merged updated)
        (λ found.
          scan_wallets_from d ctx ws (merge_contracts found.0 merged)
            (updated ++ advanced w found.1))
    else scan_wallets_from d ctx ws merged updated)

-- one turn of the loop over `c.Providers`: an address that no wallet has is left out
add_relation :
    StorageContract
    → Text
    → Option Text
    → List ContractProviderRelation
    → List ContractProviderRelation
add_relation c addr none rest = rest
add_relation c addr (some pubkey) rest =
    (record {
      contract_addr = c.address;
      provider_pubkey = pubkey;
      provider_address = addr;
      bag_id = c.bag_id;
      size = c.size;
    })
    ∷ rest

relations_of : Dict Text → StorageContract → List Text → List ContractProviderRelation
unfolding add_relation
relations_of pubkeys c [] = []
relations_of pubkeys c (a ∷ addrs) =
    add_relation c a (lookup a pubkeys) (relations_of pubkeys c addrs)

unfoldable pub all_relations : Dict Text → List StorageContract → List ContractProviderRelation
unfolding relations_of
all_relations pubkeys [] = []
all_relations pubkeys (c ∷ cs) = relations_of pubkeys c c.providers ++ all_relations pubkeys cs

update_wallets : Discovery → List Provider → Act (Unit {0})
update_wallets d [] = pure tt
update_wallets d (w ∷ ws) = attempt (d.provider_repo.update_lt (w ∷ ws)) >>= λ _. pure tt

pub wallets_result :
    List Provider → Dict StorageContract × List Provider → List ℕ → ScanWalletsResult
wallets_result wallets found order =
    let contracts = map (λ e. e.1) (arrange order found.0) in
    record {
      contracts = contracts;
      relations = all_relations (addr_to_pubkey wallets []) contracts;
      updated_wallets = found.1;
    }

publish_contracts :
    Discovery → Ctx → List Provider → Dict StorageContract × List Provider → Act (Unit {0})
unfolding ◌>>=◌ update_wallets wallets_result
publish_contracts d ctx wallets found = do
  order ← ask (λ t. ok (d.range_order t))
  publish_result d.publisher d.cfg.scan_wallets_stream (job_id_from ctx) cycle_scan_wallets
      (scan_wallets (wallets_result wallets found order))
  update_wallets d found.1

collect_from : Discovery → Ctx → List Provider → Act (Unit {0})
unfolding ◌>>=◌ publish_contracts
collect_from d ctx [] =
    publish_result d.publisher d.cfg.scan_wallets_stream (job_id_from ctx) cycle_scan_wallets
      (scan_wallets (record { contracts = []; relations = []; updated_wallets = [] }))
collect_from d ctx (w ∷ ws) = do
  found ← scan_wallets_from d ctx (w ∷ ws) [] []
  publish_contracts d ctx (w ∷ ws) found

unfoldable pub collect_storage_contracts : Discovery → Ctx → Act (Unit {0})
unfolding ◌>>=◌ collect_from
collect_storage_contracts d ctx = do
  wallets ← d.provider_repo.get_all_wallets
  collect_from d ctx wallets
