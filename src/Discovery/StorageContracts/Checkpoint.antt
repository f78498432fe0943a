-- ===== src/Discovery/StorageContracts/Checkpoint.antt =====
-- The wallets' checkpoints move only behind a published result.
use mytonprovider_agent.Common.{◌≡◌, refl, some, List, [], ◌∷◌, ◌++◌}
use mytonprovider_agent.Strings.{is_user_friendly}
use mytonprovider_agent.Common.Dict.{Dict}
use mytonprovider_agent.Domain.{Provider, StorageContract}
use mytonprovider_agent.Jobs.{Ctx, Payload, scan_wallets, job_id_from, cycle_scan_wallets}
use mytonprovider_agent.World.{World, ok, ask, pure, attempt, ◌>>=◌}
use mytonprovider_agent.World.Actions.Keeps.{
  IsReadOnly, pure-IsReadOnly, ask-IsReadOnly, if-IsReadOnly, attempt_or-IsReadOnly,
  unless_done-IsReadOnly,
}
use mytonprovider_agent.World.Actions.KeepsStore.{
  Rule, OfLog, IsReadOnly-KeepsStore, bind-KeepsStore, attempt-KeepsStore, KeepsStore,
  read-bind-KeepsStore,
}
use mytonprovider_agent.Publisher.Keeps.{AllowsResult, AllowsXadd-AllowsResult, publish-KeepsStore}
use mytonprovider_agent.Checkpoints.{IsCheckpointed, last_accepted, wallet_lts}
use mytonprovider_agent.Checkpoints.Publishing.{xadd-IsCheckpointed, publish-bind-KeepsStore}
use mytonprovider_agent.Ports.{lt_updates}
use mytonprovider_agent.Discovery.{Discovery}
use mytonprovider_agent.Discovery.StorageContracts.{
  merge_contracts, advanced, scan_wallets_from, update_wallets, wallets_result, publish_contracts,
  collect_from, collect_storage_contracts,
}

scan_wallets_from-IsReadOnly :
    (d : Discovery) (ctx : Ctx) (ws : List Provider) (merged : Dict StorageContract)
    (updated : List Provider)
    → IsReadOnly (scan_wallets_from d ctx ws merged updated)
unfolding scan_wallets_from
scan_wallets_from-IsReadOnly d ctx [] merged updated = pure-IsReadOnly _
scan_wallets_from-IsReadOnly d ctx (w ∷ ws) merged updated = unless_done-IsReadOnly ctx _ (
    if-IsReadOnly (is_user_friendly w.address) _ _
      (attempt_or-IsReadOnly (d.wallet_scanner.scan w.address w.lt)
        (scan_wallets_from d ctx ws merged updated) _ (d.wallet_scanner.scan_reads w.address w.lt)
        (scan_wallets_from-IsReadOnly d ctx ws merged updated)
        (λ found.
          scan_wallets_from-IsReadOnly d ctx ws (merge_contracts found.0 merged)
            (updated ++ advanced w found.1)))
      (scan_wallets_from-IsReadOnly d ctx ws merged updated))

update-IsCheckpointed :
    (d : Discovery) (updated : List Provider) (w : World)
    → (p : Payload) → last_accepted w.log ≡ some p
    → wallet_lts p ≡ some (lt_updates updated)
    → IsCheckpointed w.log
    → IsCheckpointed (update_wallets d updated w).1.log
unfolding update_wallets attempt pure ◌>>=◌
update-IsCheckpointed d [] w p taken lts h = h
update-IsCheckpointed d (u ∷ us) w p taken lts h =
    let (a, e) = d.provider_repo.update_writes u us w in rw e (p, taken, lts, h)

publish_contracts-KeepsStore :
    (d : Discovery) (ctx : Ctx) (wallets : List Provider)
    (found : Dict StorageContract × List Provider)
    → KeepsStore (OfLog IsCheckpointed) (publish_contracts d ctx wallets found)
unfolding publish_contracts wallets_result
publish_contracts-KeepsStore d ctx wallets found =
    read-bind-KeepsStore (OfLog IsCheckpointed) (ask (λ t. ok (d.range_order t))) _
      (ask-IsReadOnly _)
      λ order.
        publish-bind-KeepsStore (scan_wallets (wallets_result wallets found order))
          (λ _. update_wallets d found.1)
          (λ w' s. update-IsCheckpointed d found.1 w' _ s.0 refl s.1) d.publisher
          d.cfg.scan_wallets_stream (job_id_from ctx) cycle_scan_wallets

collect_from-KeepsStore :
    (d : Discovery) (ctx : Ctx) (wallets : List Provider)
    → KeepsStore (OfLog IsCheckpointed) (collect_from d ctx wallets)
unfolding collect_from
collect_from-KeepsStore d ctx [] =
    publish-KeepsStore (OfLog IsCheckpointed) _ _ _ _ _
      (AllowsXadd-AllowsResult (OfLog IsCheckpointed) xadd-IsCheckpointed _ _ _ _)
collect_from-KeepsStore d ctx (u ∷ us) =
    read-bind-KeepsStore (OfLog IsCheckpointed) (scan_wallets_from d ctx (u ∷ us) [] []) _
      (scan_wallets_from-IsReadOnly d ctx (u ∷ us) [] [])
      (publish_contracts-KeepsStore d ctx (u ∷ us))

-- Whatever the environment answers, a run of `CollectStorageContracts` keeps the rule: the wallet
-- LTs it stores are those of the wallets that it has just published.
pub collect_storage_contracts-IsCheckpointed :
    (d : Discovery) (ctx : Ctx) (w : World)
    → IsCheckpointed w.log
    → IsCheckpointed (collect_storage_contracts d ctx w).1.log
unfolding collect_storage_contracts
collect_storage_contracts-IsCheckpointed d ctx w h =
    (read-bind-KeepsStore (OfLog IsCheckpointed) d.provider_repo.get_all_wallets _
        d.provider_repo.wallets_reads (collect_from-KeepsStore d ctx)).at
      w h

-- What messages and updates of LTs do not break.
module _ (Q : Rule) (d : Discovery) (ctx : Ctx)
    (allowed : AllowsResult Q d.publisher.agent_id d.cfg.scan_wallets_stream
      (job_id_from ctx)
      cycle_scan_wallets)
    (updates : (us : List Provider) → KeepsStore Q (d.provider_repo.update_lt us)) where
  update_wallets-KeepsStore : (us : List Provider) → KeepsStore Q (update_wallets d us)
  unfolding update_wallets
  update_wallets-KeepsStore [] = IsReadOnly-KeepsStore Q _ (pure-IsReadOnly tt)
  update_wallets-KeepsStore (u ∷ us) =
      bind-KeepsStore Q (attempt (d.provider_repo.update_lt (u ∷ us))) (λ _. pure tt)
        (attempt-KeepsStore Q _ (updates (u ∷ us)))
        (λ _. IsReadOnly-KeepsStore Q _ (pure-IsReadOnly tt))

  published-KeepsStore :
      (wallets : List Provider) (found : Dict StorageContract × List Provider)
      → KeepsStore Q (publish_contracts d ctx wallets found)
  unfolding publish_contracts
  published-KeepsStore wallets found =
      read-bind-KeepsStore Q (ask (λ t. ok (d.range_order t))) _ (ask-IsReadOnly _) λ order.
        bind-KeepsStore Q _ (λ _. update_wallets d found.1)
          (publish-KeepsStore Q d.publisher d.cfg.scan_wallets_stream (job_id_from ctx)
            cycle_scan_wallets (scan_wallets (wallets_result wallets found order)) allowed)
          (λ _. update_wallets-KeepsStore found.1)

  collected-KeepsStore : (wallets : List Provider) → KeepsStore Q (collect_from d ctx wallets)
  unfolding collect_from
  collected-KeepsStore [] = publish-KeepsStore Q _ _ _ _ _ allowed
  collected-KeepsStore (u ∷ us) =
      read-bind-KeepsStore Q (scan_wallets_from d ctx (u ∷ us) [] []) _
        (scan_wallets_from-IsReadOnly d ctx (u ∷ us) [] []) (published-KeepsStore (u ∷ us))

  pub collect_storage_contracts-KeepsStore : KeepsStore Q (collect_storage_contracts d ctx)
  unfolding collect_storage_contracts
  collect_storage_contracts-KeepsStore =
      read-bind-KeepsStore Q d.provider_repo.get_all_wallets _ d.provider_repo.wallets_reads
        (collected-KeepsStore)
