-- ===== src/Proof/Cycle/Keeps.antt =====
-- What the checks keep of the database and the log: they write nothing.
use mytonprovider_agent.Common.{
  ℕ, ◌+◌, ◌&&◌, Option, none, some, List, [], ◌∷◌, ◌++◌, ltb, length, is_empty, Bool-cases, inl,
  inr,
}
use mytonprovider_agent.Domain.{ContractProviderRelation, ProviderEndpoint, ProofResult, ReasonCode}
use mytonprovider_agent.Jobs.{Ctx}
use mytonprovider_agent.World.{World, Result, ok, err, is_done}
use mytonprovider_agent.World.Actions.KeepsStore.{Rule, KeepsStore}
use mytonprovider_agent.Workers.Worlds.{fan_out_keeps}
use mytonprovider_agent.Proof.{Proof}
use mytonprovider_agent.Proof.Provider.{
  max_failure_threshold, sample_contracts, proof_result, next_fails, is_tripped, check_sample,
  check_endpoint, check_provider,
}
use mytonprovider_agent.Proof.Cycle.{Batch, check_batch, checks, check_all}

module _ (p : Proof) (ctx : Ctx) (Q : Rule) where
  check_sample_keeps :
      (ep : ProviderEndpoint) (time threshold fails : ℕ) (sample : List ContractProviderRelation)
      (results : List ProofResult) (w : World)
      → Q w.db w.log
      → Q
          (check_sample p ctx ep time threshold fails sample results w).1.db
          (check_sample p ctx ep time threshold fails sample results w).1.log
  unfolding check_sample
  check_sample_keeps ep time threshold fails [] results w h = h
  check_sample_keeps ep time threshold fails (sc ∷ rest) results w h =
      let w1 = record w { tick = w.tick + 1 } in
      let a = p.prover.verify ep sc.bag_id w1 in
      let kept : Q a.1.db a.1.log =
        rw (p.prover.verify_db ep sc.bag_id w1, p.prover.verify_log ep sc.bag_id w1) h in
      elim (Bool-cases (is_done ctx w.tick)) [
        | inl done ↦ rw done h
        | inr runs ↦ elim (Bool-cases (is_tripped threshold fails)) [
          | inl trips ↦
              rw (runs, trips)
                (check_sample_keeps ep time threshold fails rest
                  (results ++ proof_result ReasonCode.unavailable_provider time sc ∷ []) w1 h)
          | inr closed ↦
              elim (Bool-cases (ltb 0 p.cfg.between_bags_cooldown && is_done ctx (a.1.tick + 1))) [
                | inl late ↦ rw (runs, closed, late) kept
                | inr on ↦
                    rw (runs, closed, on)
                      (check_sample_keeps ep time threshold (next_fails a.0 fails) rest
                        (results ++ proof_result a.0 (p.clock a.1.tick) sc ∷ [])
                        (record (a.1) { tick = a.1.tick + 1 + 1 }) kept)
              ]
        ]
      ]

  check_endpoint_keeps :
      (contracts : List ContractProviderRelation) (r : Result (Option ProviderEndpoint)) (w : World)
      → Q w.db w.log
      → Q (check_endpoint p ctx contracts r w).1.db (check_endpoint p ctx contracts r w).1.log
  unfolding check_endpoint
  check_endpoint_keeps contracts (ok (some ep)) w h = elim (Bool-cases (is_empty ep.storage.ip)) [
    | inl unset ↦ rw unset h
    | inr set ↦ rw set (
        check_sample_keeps ep (p.clock (w.tick + 1))
          (max_failure_threshold (length (sample_contracts p.cfg (p.shuffle w.tick) contracts))) 0
          (sample_contracts p.cfg (p.shuffle w.tick) contracts) []
          (record w { tick = w.tick + 1 + 1 }) h)
  ]
  check_endpoint_keeps contracts (ok none) w h = h
  check_endpoint_keeps contracts (err e) w h = h

  check_batch_keeps :
      (b : Batch) (w : World)
      → Q w.db w.log
      → Q (check_batch p ctx b w).1.db (check_batch p ctx b w).1.log
  unfolding check_batch check_provider
  check_batch_keeps (pubkey, contracts) w h =
      check_endpoint_keeps contracts _
        (p.endpoint_repo.load_fresh pubkey p.cfg.endpoint_max_age w).1
        (rw
          (
            (p.endpoint_repo.fresh_reads pubkey p.cfg.endpoint_max_age).same_db w,
            (p.endpoint_repo.fresh_reads pubkey p.cfg.endpoint_max_age).same_log w,
          )
          h)

  pub check_all-KeepsStore : (batches : List Batch) → KeepsStore Q (check_all p ctx batches)
  unfolding check_all checks
  check_all-KeepsStore batches = record {
    at = fan_out_keeps (checks p ctx) (λ w. Q w.db w.log) (λ w t h. h) check_batch_keeps batches;
  }
