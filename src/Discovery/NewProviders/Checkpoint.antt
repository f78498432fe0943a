-- ===== src/Discovery/NewProviders/Checkpoint.antt =====
-- The master wallet's checkpoint moves only behind a published result.
use mytonprovider_agent.Common.{ℕ, ◌≡◌, refl, some, ltb, inl, inr, Bool-cases}
use mytonprovider_agent.Jobs.{Ctx, Payload, job_id_from, cycle_scan_master}
use mytonprovider_agent.Strings.Decimal.{format_uint}
use mytonprovider_agent.World.{World, pure, attempt, ◌>>=◌}
use mytonprovider_agent.World.Actions.Keeps.{pure-IsReadOnly}
use mytonprovider_agent.World.Actions.KeepsStore.{
  Rule, OfLog, KeepsStore, IsReadOnly-KeepsStore, if-KeepsStore, attempt-KeepsStore,
  bind-KeepsStore, read-bind-KeepsStore,
}
use mytonprovider_agent.Publisher.Keeps.{AllowsResult, publish-KeepsStore}
use mytonprovider_agent.Checkpoints.{IsCheckpointed, last_accepted, master_lt}
use mytonprovider_agent.Checkpoints.Publishing.{publish-bind-KeepsStore}
use mytonprovider_agent.Discovery.{Discovery}
use mytonprovider_agent.Discovery.NewProviders.{advance_master_lt, collect_new_providers}

-- Storing an LT right behind the accepted message that announces it keeps the rule.
advance-IsCheckpointed :
    (d : Discovery) (from_lt last_lt : ℕ) (w : World) (p : Payload)
    → last_accepted w.log ≡ some p
    → master_lt p ≡ some (format_uint last_lt)
    → IsCheckpointed w.log
    → IsCheckpointed (advance_master_lt d from_lt last_lt w).1.log
unfolding advance_master_lt attempt ◌>>=◌ pure
advance-IsCheckpointed d from_lt last_lt w p taken lt h =
    let (a, e) = d.system_repo.set_writes last_lt w in
    elim (Bool-cases (ltb from_lt last_lt)) [
      | inl more ↦ rw more (rw e (p, taken, lt, h))
      | inr same ↦ rw same h
    ]

-- Whatever the environment answers, a run of `CollectNewProviders` keeps the rule: the LT it stores
-- is the one that it has just published.
pub collect_new_providers-IsCheckpointed :
    (d : Discovery) (ctx : Ctx) (w : World)
    → IsCheckpointed w.log
    → IsCheckpointed (collect_new_providers d ctx w).1.log
unfolding collect_new_providers
collect_new_providers-IsCheckpointed d ctx w h =
    (read-bind-KeepsStore (OfLog IsCheckpointed) _ _ d.system_repo.get_reads λ from_lt.
        read-bind-KeepsStore (OfLog IsCheckpointed) _ _ d.provider_repo.pubkeys_reads λ known.
          read-bind-KeepsStore (OfLog IsCheckpointed) _ _ (d.master_scanner.scan_reads _ _) λ found.
            publish-bind-KeepsStore _ _
              (λ w' s. advance-IsCheckpointed d from_lt found.1 w' _ s.0 refl s.1) d.publisher _ _
              _).at
      w h

-- What the cycle's message and the storing of an LT do not break.
module _ (Q : Rule) (d : Discovery) (ctx : Ctx)
    (allowed : AllowsResult Q d.publisher.agent_id d.cfg.scan_master_stream
      (job_id_from ctx)
      cycle_scan_master)
    (sets : (lt : ℕ) → KeepsStore Q (d.system_repo.set_master_wallet_lt lt)) where
  advance_master_lt-KeepsStore :
      (from_lt last_lt : ℕ) → KeepsStore Q (advance_master_lt d from_lt last_lt)
  unfolding advance_master_lt
  advance_master_lt-KeepsStore from_lt last_lt =
      if-KeepsStore Q (ltb from_lt last_lt) _ _
        (bind-KeepsStore Q (attempt (d.system_repo.set_master_wallet_lt last_lt)) (λ _. pure tt)
          (attempt-KeepsStore Q _ (sets last_lt))
          (λ _. IsReadOnly-KeepsStore Q _ (pure-IsReadOnly tt)))
        (IsReadOnly-KeepsStore Q _ (pure-IsReadOnly tt))

  pub collect_new_providers-KeepsStore : KeepsStore Q (collect_new_providers d ctx)
  unfolding collect_new_providers
  collect_new_providers-KeepsStore =
      read-bind-KeepsStore Q d.system_repo.get_master_wallet_lt _ d.system_repo.get_reads λ from_lt.
        read-bind-KeepsStore Q d.provider_repo.get_all_pubkeys _ d.provider_repo.pubkeys_reads
          λ known.
            read-bind-KeepsStore Q (d.master_scanner.scan d.cfg.master_addr from_lt) _
              (d.master_scanner.scan_reads d.cfg.master_addr from_lt)
              λ found.
                bind-KeepsStore Q _ (λ _. advance_master_lt d from_lt found.1)
                  (publish-KeepsStore Q _ _ _ _ _ allowed)
                  (λ _. advance_master_lt-KeepsStore from_lt found.1)
