-- ===== src/Poll/Rejected/Checkpoint.antt =====
-- `UpdateRejectedContracts` and what it keeps of the database and the log.
use mytonprovider_agent.Common.{ℕ, List, [], ◌∷◌, arrange, if◌then◌else◌}
use mytonprovider_agent.Common.Dict.{Dict, get_or, insert, keys}
use mytonprovider_agent.Domain.{ContractProviderRelation, ContractOnChainState, OnChainProvider}
use mytonprovider_agent.Jobs.{job_id_from, cycle_inspect_contracts, Ctx, InspectContractsResult}
use mytonprovider_agent.Strings.Hex.{encode_hex}
use mytonprovider_agent.World.{ok, ask, now}
use mytonprovider_agent.World.Actions.Keeps.{
  IsReadOnly, pure-IsReadOnly, now-IsReadOnly, ask-IsReadOnly, bind-IsReadOnly,
}
use mytonprovider_agent.World.Actions.KeepsStore.{
  Rule, KeepsStore, read-bind-KeepsStore, wrapping-KeepsStore,
}
use mytonprovider_agent.Publisher.Keeps.{AllowsResult, publish-KeepsStore}
use mytonprovider_agent.Poll.{Poll}
use mytonprovider_agent.Poll.Rejected.{
  ContractInfo, provider_set, state_infos, publish_inspection, inspect_relations, bag_sizes,
  rejected_relations, skipped_addrs, update_rejected_contracts, is_removed_by_low_balance,
}

module _ (p : Poll) where
  provider_set-IsReadOnly :
      (size : ℕ) (s : ContractOnChainState) (provs : List OnChainProvider) (set : Dict (Unit {0}))
      → IsReadOnly (provider_set p size s provs set)
  unfolding provider_set
  provider_set-IsReadOnly size s [] set = pure-IsReadOnly set
  provider_set-IsReadOnly size s (prov ∷ provs) set =
      bind-IsReadOnly (now p.clock) _ (now-IsReadOnly p.clock) (λ time.
        provider_set-IsReadOnly size s provs (
          if is_removed_by_low_balance time size prov s
          then set
          else insert (encode_hex prov.key) tt set))

  pub state_infos-IsReadOnly :
      (sizes : Dict ℕ) (ss : List ContractOnChainState) (infos : Dict ContractInfo)
      → IsReadOnly (state_infos p sizes ss infos)
  unfolding state_infos
  state_infos-IsReadOnly sizes [] infos = pure-IsReadOnly infos
  state_infos-IsReadOnly sizes (s ∷ ss) infos =
      bind-IsReadOnly (provider_set p (get_or s.address 0 sizes) s s.providers []) _
        (provider_set-IsReadOnly (get_or s.address 0 sizes) s s.providers [])
        (λ set. state_infos-IsReadOnly sizes ss _)

module _ (Q : Rule) (p : Poll) (ctx : Ctx)
    (allowed : AllowsResult Q p.publisher.agent_id p.cfg.inspect_contracts_stream
      (job_id_from ctx)
      cycle_inspect_contracts) where
  publish_inspection-KeepsStore :
      (result : InspectContractsResult) → KeepsStore Q (publish_inspection p ctx result)
  unfolding publish_inspection
  publish_inspection-KeepsStore result = publish-KeepsStore Q _ _ _ _ _ allowed

  inspect_relations-KeepsStore :
      (rs : List ContractProviderRelation) → KeepsStore Q (inspect_relations p ctx rs)
  unfolding inspect_relations
  inspect_relations-KeepsStore [] = publish_inspection-KeepsStore _
  inspect_relations-KeepsStore (r ∷ rs) =
      let sizes = bag_sizes (r ∷ rs) [] in
      read-bind-KeepsStore Q (ask (λ t. ok (p.range_order t))) _ (ask-IsReadOnly _) λ order.
        read-bind-KeepsStore Q (p.inspector.inspect_providers (arrange order (keys sizes))) _
          (p.inspector.inspect_reads (arrange order (keys sizes)))
          λ states.
            read-bind-KeepsStore Q (state_infos p sizes states []) _
              (state_infos-IsReadOnly p sizes states [])
              λ infos.
                wrapping-KeepsStore Q "usecase.poll.UpdateRejectedContracts"
                  (publish_inspection p ctx _)
                  (publish_inspection-KeepsStore (record {
                    rejected = rejected_relations infos (r ∷ rs);
                    skipped = skipped_addrs states;
                  }))

  -- `UpdateRejectedContracts` keeps what messages do not break.
  pub update_rejected_contracts-KeepsStore : KeepsStore Q (update_rejected_contracts p ctx)
  unfolding update_rejected_contracts
  update_rejected_contracts-KeepsStore =
      read-bind-KeepsStore Q p.contract_repo.get_active_relations _ p.contract_repo.relations_reads
        (inspect_relations-KeepsStore)
