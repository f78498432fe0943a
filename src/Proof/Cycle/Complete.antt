-- ===== src/Proof/Cycle/Complete.antt =====
-- What a whole cycle of the proof checks reports, against the relations of the database.
use mathlib.Core.List.{Perm, map-append}
use mathlib.Core.List.Perm
use mytonprovider_agent.Common.{
  ℕ, ◌+◌, ◌≡◌, refl, ap, ◌∙◌, Option, none, some, List, [], ◌∷◌, map, arith, arrange, All,
  Bool-cases, inl, inr, is_empty, length,
}
use mytonprovider_agent.Domain.{ContractProviderRelation, ProofResult, ProviderEndpoint, ReasonCode}
use mytonprovider_agent.Jobs.{Ctx, job_id_from, check_proofs, cycle_check_proofs}
use mytonprovider_agent.World.{World, Result, ok, err, wrapping, unless_done}
use mytonprovider_agent.World.Actions.Ensures.{bind_ok}
use mytonprovider_agent.Publisher.Laws.{after_publish, publish_result_lem}
use mytonprovider_agent.Proof.{Proof}
use mytonprovider_agent.Workers.{fan_out}
use mytonprovider_agent.Workers.Results.{fan_out-All}
use mytonprovider_agent.Proof.Provider.{
  fill_reason, sample_contracts, max_failure_threshold, check_endpoint, check_provider,
}
use mytonprovider_agent.Proof.Provider.Breaker.{checked_pair, relation_pair, check_sample_complete}
use mytonprovider_agent.Proof.Cycle.Grouping.{flatten, flatten_grouped, flatten-perm}
use mytonprovider_agent.Proof.Cycle.Checks.{checks-perm}
use mytonprovider_agent.Proof.Cycle.{
  Batch, Checked, by_provider, check_batch, checks, all_results, publish_proofs, check_all,
  check_relations, check_storage_proofs,
}
use mytonprovider_agent.World.Actions.KeepsStore.{OfLog}
use mytonprovider_agent.Proof.Cycle.Keeps.{check_all-KeepsStore}

-- The results are for the relations of the batch, one for each, in order.
abbrev pub Covers : Batch → List ProofResult → Type 0
Covers b rs = map checked_pair rs ≡ map relation_pair b.1

fill_reason-pairs :
    (cs : List ContractProviderRelation) (reason : ReasonCode) (time : ℕ)
    → map checked_pair (fill_reason cs reason time) ≡ map relation_pair cs
unfolding fill_reason
fill_reason-pairs [] reason time = refl
fill_reason-pairs (c ∷ cs) reason time =
    ap (λ ps. relation_pair c ∷ ps) (unfold fill_reason in fill_reason-pairs cs reason time)

all_results-pairs :
    (cs : List Checked)
    → All (λ c. Covers c.0 c.1) cs
    → map checked_pair (all_results cs) ≡ map relation_pair (flatten (map (λ c. c.0) cs))
unfolding all_results flatten
all_results-pairs [] h = refl
all_results-pairs (c ∷ cs) h =
    rw
      (
        map-append checked_pair c.1 (all_results cs),
        map-append relation_pair c.0.1 (flatten (map (λ c. c.0) cs)),
        h.0,
        all_results-pairs cs h.1,
      )
      refl

-- The context is never done, and nothing bounds the bags of a provider.
module _ (p : Proof) (ctx : Ctx) (runs : ctx.done_at ≡ none)
    (unbounded : p.cfg.max_bags_per_provider ≡ 0) where
  sample_is_all :
      (choice : List ℕ) (cs : List ContractProviderRelation) → sample_contracts p.cfg choice cs ≡ cs
  unfolding sample_contracts
  sample_is_all choice cs = ground (arith, unbounded)

  check_endpoint-pairs :
      (cs : List ContractProviderRelation) (r : Result (Option ProviderEndpoint)) (w : World)
      → map checked_pair (check_endpoint p ctx cs r w).0 ≡ map relation_pair cs
  unfolding check_endpoint
  check_endpoint-pairs cs (ok (some ep)) w = elim (Bool-cases (is_empty ep.storage.ip)) [
    | inl unset ↦ rw unset (fill_reason-pairs cs ReasonCode.ip_not_found (p.clock w.tick))
    | inr set ↦
        let sample = sample_contracts p.cfg (p.shuffle w.tick) cs in
        rw set (
          check_sample_complete p ctx ep (p.clock (w.tick + 1))
            (max_failure_threshold (length sample)) 0 sample [] (record w { tick = w.tick + 1 + 1 })
            runs
          ∙ ap (map relation_pair) (sample_is_all (p.shuffle w.tick) cs))
  ]
  check_endpoint-pairs cs (ok none) w =
      fill_reason-pairs cs ReasonCode.ip_not_found (p.clock w.tick)
  check_endpoint-pairs cs (err e) w = fill_reason-pairs cs ReasonCode.ip_not_found (p.clock w.tick)

  check_batch-Covers :
      (b : Batch) (w : World) → Covers (check_batch p ctx b w).0.0 (check_batch p ctx b w).0.1
  unfolding check_batch check_provider
  check_batch-Covers (pubkey, cs) w =
      check_endpoint-pairs cs _ (p.endpoint_repo.load_fresh pubkey p.cfg.endpoint_max_age w).1

  -- the results of the fan-out, against the relations
  checks-pairs :
      (order : List ℕ) (relations : List ContractProviderRelation) (w : World)
      → (let out = (fan_out (checks p ctx) (arrange order (by_provider relations [])) w).0 in
          Perm (map checked_pair (all_results out)) (map relation_pair relations))
  checks-pairs order relations w =
      let batches : List Batch = arrange order (by_provider relations []) in
      let out = (fan_out (checks p ctx) batches w).0 in
      rw
        (all_results-pairs out (
          fan_out-All (checks p ctx) (λ c. Covers c.0 c.1) (unfold checks in check_batch-Covers)
            batches w))
        (Perm.map relation_pair (
          Perm.trans (flatten-perm (checks-perm p ctx order relations w runs))
            (flatten_grouped relations)))

  -- what a run of the cycle, or of a part of it, comes to
  abbrev Reports : List ContractProviderRelation → World → World → Type 0
  Reports relations w end =
      (results : List ProofResult) × (w' : World) × (w'.log ≡ w.log)
      × (end
          ≡ after_publish p.publisher p.cfg.check_proofs_stream (job_id_from ctx) cycle_check_proofs
              (check_proofs (record { results = results })) w')
      × Perm (map checked_pair results) (map relation_pair relations)

  published :
      (results : List ProofResult) (w : World)
      → (unless_done ctx
          (wrapping "usecase.proof.CheckStorageProofs" (publish_proofs p ctx results))
          w).1
        ≡ after_publish p.publisher p.cfg.check_proofs_stream
            (job_id_from ctx)
            cycle_check_proofs
            (check_proofs (record { results = results }))
            (record w { tick = w.tick + 1 })
  unfolding unless_done wrapping publish_proofs
  published results w = rw runs (
      ap (λ o. o.1)
        (publish_result_lem p.publisher p.cfg.check_proofs_stream (job_id_from ctx)
          cycle_check_proofs (check_proofs (record { results = results }))
          (record w { tick = w.tick + 1 })))

  relations-Reports :
      (relations : List ContractProviderRelation) (w : World)
      → Reports relations w (check_relations p ctx relations w).1
  unfolding check_relations publish_proofs check_all
  relations-Reports [] w = (
    [],
    w,
    refl,
    ap (λ o. o.1)
        (publish_result_lem p.publisher p.cfg.check_proofs_stream (job_id_from ctx)
          cycle_check_proofs (check_proofs (record { results = [] })) w),
    Perm.refl _,
  )
  relations-Reports (r ∷ rs) w =
      let w1 : World = record w { tick = w.tick + 1 } in
      let batches : List Batch = arrange (p.range_order w.tick) (by_provider (r ∷ rs) []) in
      let w2 = (check_all p ctx batches w1).1 in
      let results = all_results (fan_out (checks p ctx) batches w1).0 in
      (
        results,
        record w2 { tick = w2.tick + 1 },
        (check_all-KeepsStore p ctx (OfLog (λ log. log ≡ w.log)) batches).at w1 refl,
        published results w2,
        checks-pairs (p.range_order w.tick) (r ∷ rs) w1,
      )

  -- If the context is never done, no bound on the bags of a provider is set, and the database gives
  -- these relations, then CheckStorageProofs makes one write, the message with its results, and
  -- these are for exactly the relations: one for each contract with its provider, for every order
  -- of the map and every schedule of the goroutines.
  pub check_storage_proofs_complete :
      (relations : List ContractProviderRelation) (w : World)
      → (p.contract_repo.get_active_relations w).0 ≡ ok relations
      → (results : List ProofResult) × (w' : World) × (w'.log ≡ w.log)
        × ((check_storage_proofs p ctx w).1
            ≡ after_publish p.publisher p.cfg.check_proofs_stream
                (job_id_from ctx)
                cycle_check_proofs
                (check_proofs (record { results = results }))
                w')
        × Perm (map checked_pair results) (map relation_pair relations)
  unfolding check_storage_proofs
  check_storage_proofs_complete relations w loaded =
      let w1 = (p.contract_repo.get_active_relations w).1 in
      let (results, w', same_log, done, covered) = relations-Reports relations w1 in
      (
        results,
        w',
        same_log ∙ p.contract_repo.relations_reads.same_log w,
        ap (λ o. o.1)
              (bind_ok p.contract_repo.get_active_relations (check_relations p ctx) relations w
                loaded)
            ∙ done,
        covered,
      )
