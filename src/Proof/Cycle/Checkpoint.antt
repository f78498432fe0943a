-- ===== src/Proof/Cycle/Checkpoint.antt =====
-- `CheckStorageProofs` and what it keeps of the database and the log.
use mytonprovider_agent.Common.{List, [], ◌∷◌, arrange}
use mytonprovider_agent.Domain.{ContractProviderRelation}
use mytonprovider_agent.Jobs.{job_id_from, cycle_check_proofs, Ctx}
use mytonprovider_agent.World.{ok, ask}
use mytonprovider_agent.World.Actions.Keeps.{ask-IsReadOnly}
use mytonprovider_agent.World.Actions.KeepsStore.{
  Rule, KeepsStore, bind-KeepsStore, read-bind-KeepsStore, wrapping-KeepsStore,
  unless_done-KeepsStore,
}
use mytonprovider_agent.Proof.Cycle.Keeps.{check_all-KeepsStore}
use mytonprovider_agent.Publisher.Keeps.{AllowsResult, publish-KeepsStore}
use mytonprovider_agent.Proof.{Proof}
use mytonprovider_agent.Proof.Cycle.{
  publish_proofs, check_all, check_relations, check_storage_proofs, all_results, by_provider,
}

module _ (Q : Rule) (p : Proof) (ctx : Ctx)
    (allowed : AllowsResult Q p.publisher.agent_id p.cfg.check_proofs_stream
      (job_id_from ctx)
      cycle_check_proofs) where
  check_relations-KeepsStore :
      (rs : List ContractProviderRelation) → KeepsStore Q (check_relations p ctx rs)
  unfolding check_relations publish_proofs
  check_relations-KeepsStore [] = publish-KeepsStore Q _ _ _ _ _ allowed
  check_relations-KeepsStore (r ∷ rs) =
      read-bind-KeepsStore Q (ask (λ t. ok (p.range_order t))) _ (ask-IsReadOnly _) λ order.
        bind-KeepsStore Q (check_all p ctx (arrange order (by_provider (r ∷ rs) []))) _
          (check_all-KeepsStore p ctx Q (arrange order (by_provider (r ∷ rs) [])))
          λ out. unless_done-KeepsStore Q ctx _ (
            wrapping-KeepsStore Q "usecase.proof.CheckStorageProofs"
              (publish_proofs p ctx (all_results out)) (publish-KeepsStore Q _ _ _ _ _ allowed))

  -- `CheckStorageProofs` keeps what messages do not break.
  pub check_storage_proofs-KeepsStore : KeepsStore Q (check_storage_proofs p ctx)
  unfolding check_storage_proofs
  check_storage_proofs-KeepsStore =
      read-bind-KeepsStore Q p.contract_repo.get_active_relations _ p.contract_repo.relations_reads
        check_relations-KeepsStore
