-- ===== src/Tests/Discovery.antt =====
-- Runs of the discovery cycles, of the endpoint search and of the IP lookups.
use Prim.Native.Nat.{max}
use mytonprovider_agent.Common.{
  ◌+◌, ◌≡◌, refl, List, [], ◌∷◌, ◌++◌, Text, codes, All, length, arith,
}
use mytonprovider_agent.Common.Dict.{Dict}
use mytonprovider_agent.Domain.{Provider, StorageContract}
use mytonprovider_agent.Jobs.{IpInfoUpdate}
use mytonprovider_agent.World.{ok}
use mytonprovider_agent.Checkpoints.{IsCheckpointed}
use mytonprovider_agent.Discovery.NewProviders.{collect_new_providers}
use mytonprovider_agent.Discovery.NewProviders.Checkpoint.{collect_new_providers-IsCheckpointed}
use mytonprovider_agent.Discovery.StorageContracts.{
  collect_storage_contracts, merge_contracts, wallets_result,
}
use mytonprovider_agent.Discovery.StorageContracts.Checkpoint.{
  collect_storage_contracts-IsCheckpointed,
}
use mytonprovider_agent.Discovery.StorageContracts.Merging.{
  providers_at, providers_of, last_lt_at, last_lt_of, merge_contracts_lem,
}
use mytonprovider_agent.Discovery.StorageContracts.Relations.{ArePaired, wallets_result-ArePaired}
use mytonprovider_agent.Discovery.Endpoints.{Progress, no_progress, resolve_from}
use mytonprovider_agent.Discovery.Endpoints.Counting.{HasProviderIp}
use mytonprovider_agent.Discovery.Endpoints.Total.{resolve_from_lem}
use mytonprovider_agent.Update.{look_up_from}
use mytonprovider_agent.Update.Items.{LookedUp, look_up_from_lem}
use mytonprovider_agent.Postgres.System.{
  get_master_wallet_lt, set_master_wallet_lt, get_master_wallet_lt-set_master_wallet_lt,
}
use mytonprovider_agent.Tests.Samples.{
  key_a, ctx, world, server, contract, resolved, discovery, update,
}

collect_new_providers-IsCheckpointed_example :
    IsCheckpointed (collect_new_providers discovery ctx world).1.log
collect_new_providers-IsCheckpointed_example =
    collect_new_providers-IsCheckpointed discovery ctx world tt

collect_storage_contracts-IsCheckpointed_example :
    IsCheckpointed (collect_storage_contracts discovery ctx world).1.log
collect_storage_contracts-IsCheckpointed_example =
    collect_storage_contracts-IsCheckpointed discovery ctx world tt

abbrev pending : Dict Text
pending = (key_a, codes "C") ∷ (codes "zz", codes "D") ∷ []

resolve_from_lem_example :
    (q : Progress) × ((resolve_from discovery ctx 300 [] [] pending no_progress world).0 ≡ ok q)
    × (length q.resolved + q.skipped + q.failed ≡ length pending)
    × All HasProviderIp q.resolved
    × All (λ ep. ep.updated_at ≡ 300) q.resolved
resolve_from_lem_example = resolve_from_lem discovery ctx 300 [] [] pending world refl

abbrev scanned : List StorageContract
scanned =
    contract (codes "C") (codes "A" ∷ []) 60
    ∷ contract (codes "D") (codes "A" ∷ []) 61
    ∷ contract (codes "C") (codes "B" ∷ []) 62
    ∷ []

merge_contracts_lem_example :
    (providers_at (codes "C") (merge_contracts scanned [])
      ≡ providers_at (codes "C") [] ++ providers_of (codes "C") scanned)
    × (last_lt_at (codes "C") (merge_contracts scanned [])
        ≡ max (last_lt_at (codes "C") []) (last_lt_of (codes "C") scanned))
merge_contracts_lem_example = merge_contracts_lem (codes "C") scanned []

abbrev wallet_a : Provider
wallet_a = record { public_key = key_a; address = codes "A"; lt = 7; registered_at = 1 }

wallets_result-ArePaired_example :
    ArePaired
      (wallet_a ∷ [])
      (wallets_result (wallet_a ∷ []) (merge_contracts scanned [], []) (1 ∷ []))
wallets_result-ArePaired_example =
    wallets_result-ArePaired (wallet_a ∷ []) (merge_contracts scanned [], []) (1 ∷ [])

look_up_from_lem_example :
    (out : List IpInfoUpdate) × ((look_up_from update ctx 0 (resolved ∷ []) [] world).0 ≡ ok out)
    × LookedUp update (resolved ∷ []) out
look_up_from_lem_example = look_up_from_lem update ctx (resolved ∷ []) world refl

get_master_wallet_lt-set_master_wallet_lt_example :
    (get_master_wallet_lt server (set_master_wallet_lt server 46098 world).1).0 ≡ ok 46098
get_master_wallet_lt-set_master_wallet_lt_example =
    get_master_wallet_lt-set_master_wallet_lt server 46098 world (omega arith) refl refl
