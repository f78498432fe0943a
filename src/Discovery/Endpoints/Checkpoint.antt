-- ===== src/Discovery/Endpoints/Checkpoint.antt =====
-- The endpoint cycle and what it keeps of the database and the log.
use mytonprovider_agent.Common.{ℕ, List, [], ◌∷◌, Text, Option, none, some, is_empty, arrange}
use mytonprovider_agent.Common.Dict.{Dict, lookup, get_or}
use mytonprovider_agent.Domain.{ProviderEndpoint, ContractProviderRelation}
use mytonprovider_agent.Jobs.{job_id_from, cycle_resolve_endpoints, Ctx}
use mytonprovider_agent.World.{ok, ask, now, pure}
use mytonprovider_agent.World.Actions.Keeps.{
  IsReadOnly, pure-IsReadOnly, ask-IsReadOnly, now-IsReadOnly, if-IsReadOnly, bind-IsReadOnly,
  attempt_or-IsReadOnly, unless_done-IsReadOnly,
}
use mytonprovider_agent.World.Actions.KeepsStore.{Rule, KeepsStore, read-bind-KeepsStore}
use mytonprovider_agent.Publisher.Keeps.{AllowsResult, publish-KeepsStore}
use mytonprovider_agent.Discovery.{Discovery}
use mytonprovider_agent.Discovery.Endpoints.{
  Progress, no_progress, is_fresh, decode_pubkey, complete_storage, stamped, keep_found,
  resolve_one, count_outcome, bags_by_pubkey, contract_by_pubkey, resolve_from, publish_progress,
  resolve_relations, resolve_endpoints_cycle,
}

complete_storage-IsReadOnly :
    (d : Discovery) (ep : ProviderEndpoint) (bags : List Text)
    → IsReadOnly (complete_storage d ep bags)
unfolding complete_storage
complete_storage-IsReadOnly d ep bags =
    if-IsReadOnly (is_empty ep.storage.ip) _ _
      (attempt_or-IsReadOnly (d.resolver.resolve_storage_with_overlay ep.provider.ip bags) (pure ep)
        _ (d.resolver.overlay_reads ep.provider.ip bags) (pure-IsReadOnly ep)
        (λ storage. pure-IsReadOnly (record ep { storage = storage })))
      (pure-IsReadOnly ep)

keep_found-IsReadOnly :
    (d : Discovery) (time : ℕ) (pubkey : Text) (bags : List Text) (ep : ProviderEndpoint)
    → IsReadOnly (keep_found d time pubkey bags ep)
unfolding keep_found
keep_found-IsReadOnly d time pubkey bags ep =
    if-IsReadOnly (is_empty ep.provider.ip) (pure none) _ (pure-IsReadOnly none) (
      bind-IsReadOnly (complete_storage d ep bags) _ (complete_storage-IsReadOnly d ep bags)
        (λ full. pure-IsReadOnly (some (stamped pubkey time full))))

resolve_one-IsReadOnly :
    (d : Discovery) (time : ℕ) (pubkey addr : Text) (bags : List Text) (pk : Option (List ℕ))
    → IsReadOnly (resolve_one d time pubkey addr bags pk)
unfolding resolve_one
resolve_one-IsReadOnly d time pubkey addr bags none = pure-IsReadOnly none
resolve_one-IsReadOnly d time pubkey addr bags (some pk) =
    attempt_or-IsReadOnly (d.resolver.resolve pk addr) (pure none) (keep_found d time pubkey bags)
      (d.resolver.resolve_reads pk addr) (pure-IsReadOnly none)
      (keep_found-IsReadOnly d time pubkey bags)

resolve_from-IsReadOnly :
    (d : Discovery) (ctx : Ctx) (time : ℕ) (existing : Dict ProviderEndpoint)
    (bags : Dict (List Text)) (pending : Dict Text) (p : Progress)
    → IsReadOnly (resolve_from d ctx time existing bags pending p)
unfolding resolve_from
resolve_from-IsReadOnly d ctx time existing bags [] p = pure-IsReadOnly p
resolve_from-IsReadOnly d ctx time existing bags ((pubkey, addr) ∷ rest) p =
    unless_done-IsReadOnly ctx _ (
      if-IsReadOnly (is_fresh d time (lookup pubkey existing)) _ _
        (resolve_from-IsReadOnly d ctx time existing bags rest _)
        (bind-IsReadOnly
          (resolve_one d time pubkey addr (get_or pubkey [] bags) (decode_pubkey pubkey)) _
          (resolve_one-IsReadOnly d time pubkey addr (get_or pubkey [] bags) (decode_pubkey pubkey))
          (λ o. resolve_from-IsReadOnly d ctx time existing bags rest (count_outcome o p))))

module _ (Q : Rule) (d : Discovery) (ctx : Ctx)
    (allowed : AllowsResult Q d.publisher.agent_id d.cfg.resolve_endpoints_stream
      (job_id_from ctx)
      cycle_resolve_endpoints) where
  publish_progress-KeepsStore : (p : Progress) → KeepsStore Q (publish_progress d ctx p)
  unfolding publish_progress
  publish_progress-KeepsStore p = publish-KeepsStore Q _ _ _ _ _ allowed

  resolve_relations-KeepsStore :
      (relations : List ContractProviderRelation) → KeepsStore Q (resolve_relations d ctx relations)
  unfolding resolve_relations
  resolve_relations-KeepsStore [] = publish_progress-KeepsStore no_progress
  resolve_relations-KeepsStore (r ∷ rs) =
      read-bind-KeepsStore Q d.endpoint_repo.load_all _ d.endpoint_repo.all_reads λ existing.
        read-bind-KeepsStore Q (now d.clock) _ (now-IsReadOnly d.clock) λ time.
          read-bind-KeepsStore Q (ask (λ t. ok (d.range_order t))) _ (ask-IsReadOnly _) λ order.
            read-bind-KeepsStore Q
              (resolve_from d ctx time existing (bags_by_pubkey (r ∷ rs) [])
                (arrange order (contract_by_pubkey (r ∷ rs) [])) no_progress)
              _ (resolve_from-IsReadOnly d ctx time existing _ _ no_progress)
              (publish_progress-KeepsStore)

  -- `ResolveEndpoints` keeps what messages do not break.
  pub resolve_endpoints_cycle-KeepsStore : KeepsStore Q (resolve_endpoints_cycle d ctx)
  unfolding resolve_endpoints_cycle
  resolve_endpoints_cycle-KeepsStore =
      read-bind-KeepsStore Q d.contract_repo.get_active_relations _ d.contract_repo.relations_reads
        (resolve_relations-KeepsStore)
