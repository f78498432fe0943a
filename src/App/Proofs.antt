-- ===== src/App/Proofs.antt =====
-- What the agent's check of the storage proofs publishes.
use mytonprovider_agent.Common.{refl, List, [], ◌∷◌, All, All-append, arrange}
use mytonprovider_agent.Domain.{ContractProviderRelation, ProofResult}
use mytonprovider_agent.Jobs.{Ctx, Payload, check_proofs}
use mytonprovider_agent.World.{World, ok, Write, xadd, xack, set_param, set_last_tx_lt, ask}
use mytonprovider_agent.World.Actions.Keeps.{ask-IsReadOnly}
use mytonprovider_agent.World.Actions.Ensures.{Ensures, ok-injective}
use mytonprovider_agent.World.Actions.KeepsStore.{
  OfLog, KeepsStore, read-bind-KeepsStore, ensure-bind-KeepsStore, wrapping-KeepsStore,
  unless_done-KeepsStore,
}
use mytonprovider_agent.Workers.Results.{fan_out-All}
use mytonprovider_agent.Publisher.Laws.{publish_result_lem}
use mytonprovider_agent.Proof.Cycle.{
  Batch, Checked, check_batch, checks, all_results, publish_proofs, check_all, by_provider,
  check_relations, check_storage_proofs,
}
use mytonprovider_agent.Proof.Cycle.Keeps.{check_all-KeepsStore}
use mytonprovider_agent.Direct.Prover.{IsUnproved, check_provider-IsUnproved}
use mytonprovider_agent.Config.{Config}
use mytonprovider_agent.App.{Outside, new_proof}

-- a message that reports no valid storage proof
abbrev pub IsProofless : Payload → Type 0
IsProofless (check_proofs r) = All IsUnproved r.results
IsProofless _ = Unit {0}

-- every message of the log, taken or not
abbrev pub AreProofless : List Write → Type 0
AreProofless [] = Unit {0}
AreProofless (xadd stream m max_len taken ∷ log) = IsProofless m.payload × AreProofless log
AreProofless (xack stream group id taken ∷ log) = AreProofless log
AreProofless (set_param key value taken ∷ log) = AreProofless log
AreProofless (set_last_tx_lt updates taken ∷ log) = AreProofless log

all_results-IsUnproved :
    (cs : List Checked) → All (λ c. All IsUnproved c.1) cs → All IsUnproved (all_results cs)
unfolding all_results
all_results-IsUnproved [] h = tt
all_results-IsUnproved (c ∷ cs) h =
    All-append IsUnproved c.1 (all_results cs) h.0 (all_results-IsUnproved cs h.1)

module _ (cfg : Config) (out : Outside) (ctx : Ctx) where
  batch-IsUnproved :
      (b : Batch) (w : World) → All IsUnproved (check_batch (new_proof cfg out) ctx b w).0.1
  unfolding check_batch new_proof
  batch-IsUnproved (pubkey, contracts) w =
      check_provider-IsUnproved (new_proof cfg out) out.server out.network (λ ep bag v. refl)
        (λ k age v. refl) ctx pubkey contracts w

  check_all-Ensures :
      (batches : List Batch)
      → Ensures (λ cs. All (λ c. All IsUnproved c.1) cs) (check_all (new_proof cfg out) ctx batches)
  unfolding check_all checks
  check_all-Ensures batches = record {
    at = λ w cs e. rw (← ok-injective e) (
        fan_out-All (checks (new_proof cfg out) ctx) (λ c. All IsUnproved c.1) batch-IsUnproved
          batches w);
  }

  publish_proofs-KeepsStore :
      (rs : List ProofResult)
      → All IsUnproved rs
      → KeepsStore (OfLog AreProofless) (publish_proofs (new_proof cfg out) ctx rs)
  unfolding publish_proofs
  publish_proofs-KeepsStore rs u = record {
    at = λ w h. rw (publish_result_lem (new_proof cfg out).publisher _ _ _ _ w) (u, h);
  }

  check_relations-AreProofless :
      (rs : List ContractProviderRelation)
      → KeepsStore (OfLog AreProofless) (check_relations (new_proof cfg out) ctx rs)
  unfolding check_relations
  check_relations-AreProofless [] = publish_proofs-KeepsStore [] tt
  check_relations-AreProofless (r ∷ rs) =
      let p = new_proof cfg out in
      read-bind-KeepsStore (OfLog AreProofless) (ask (λ t. ok (p.range_order t))) _
        (ask-IsReadOnly _)
        λ order.
          ensure-bind-KeepsStore (OfLog AreProofless) (λ cs. All (λ c. All IsUnproved c.1) cs)
            (check_all p ctx (arrange order (by_provider (r ∷ rs) []))) _
            (check_all-KeepsStore p ctx (OfLog AreProofless)
              (arrange order (by_provider (r ∷ rs) [])))
            (check_all-Ensures (arrange order (by_provider (r ∷ rs) [])))
            λ cs u. unless_done-KeepsStore (OfLog AreProofless) ctx _ (
              wrapping-KeepsStore (OfLog AreProofless) "usecase.proof.CheckStorageProofs"
                (publish_proofs p ctx (all_results cs))
                (publish_proofs-KeepsStore (all_results cs) (all_results-IsUnproved cs u)))

  -- In the agent that `New` builds, no message of CheckStorageProofs reports a valid storage proof,
  -- whatever the database, the network and the nodes answer: `LoadFresh` reads no public key of the
  -- storage node, and without one `Verify` stops at once.
  pub check_storage_proofs-AreProofless :
      (w : World)
      → AreProofless w.log
      → AreProofless (check_storage_proofs (new_proof cfg out) ctx w).1.log
  unfolding check_storage_proofs
  check_storage_proofs-AreProofless w h =
      let p = new_proof cfg out in
      (read-bind-KeepsStore (OfLog AreProofless) p.contract_repo.get_active_relations _
          p.contract_repo.relations_reads check_relations-AreProofless).at
        w h
