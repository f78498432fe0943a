-- ===== src/Proof/Provider/Breaker.antt =====
-- The circuit breaker of a provider's checks.
use mathlib.Core.List.{append_assoc, append-nil, map-append}
use mytonprovider_agent.Common.{ℕ, ◌+◌, ◌<◌, ◌≡◌, none, List, [], ◌∷◌, ◌++◌, map, arith, Text}
use mytonprovider_agent.Domain.{ContractProviderRelation, ProviderEndpoint, ProofResult, ReasonCode}
use mytonprovider_agent.Jobs.{Ctx}
use mytonprovider_agent.World.{World}
use mytonprovider_agent.Proof.{Proof}
use mytonprovider_agent.Proof.Provider.{proof_result, next_fails, check_sample}

-- which contract and provider a result is about, and a relation
abbrev pub checked_pair : ProofResult → Text × Text
checked_pair r = (r.contract_addr, r.provider_addr)

abbrev pub relation_pair : ContractProviderRelation → Text × Text
relation_pair c = (c.contract_addr, c.provider_address)

-- If the context is never done, the loop gives one result for each sampled contract and its
-- provider, in order.
pub check_sample_complete :
    (p : Proof) (ctx : Ctx) (ep : ProviderEndpoint) (time threshold fails : ℕ)
    (sample : List ContractProviderRelation) (results : List ProofResult) (w : World)
    → ctx.done_at ≡ none
    → map checked_pair (check_sample p ctx ep time threshold fails sample results w).0
      ≡ map checked_pair results ++ map relation_pair sample
unfolding check_sample
check_sample_complete p ctx ep time threshold fails [] results w runs = rw append-nil
check_sample_complete p ctx ep time threshold fails (sc ∷ rest) results w runs =
    let w1 : World = record w { tick = w.tick + 1 } in
    let a = p.prover.verify ep sc.bag_id w1 in
    let skipped = results ++ proof_result ReasonCode.unavailable_provider time sc ∷ [] in
    let verified = results ++ proof_result a.0 (p.clock a.1.tick) sc ∷ [] in
    ground (
      arith,
      runs,
      check_sample_complete p ctx ep time threshold fails rest skipped w1 runs,
      check_sample_complete p ctx ep time threshold (next_fails a.0 fails) rest verified
          (record a.1 { tick = a.1.tick + 1 + 1 }) runs,
      map-append checked_pair results (proof_result ReasonCode.unavailable_provider time sc ∷ []),
      map-append checked_pair results (proof_result a.0 (p.clock a.1.tick) sc ∷ []),
      append_assoc (map checked_pair results) (relation_pair sc ∷ []) (map relation_pair rest),
    )

-- Once more checks in a row have failed than the threshold allows, the prover is not asked again:
-- every contract that is left is reported as unavailable.
pub check_sample_tripped :
    (p : Proof) (ctx : Ctx) (ep : ProviderEndpoint) (time threshold fails : ℕ)
    (sample : List ContractProviderRelation) (results : List ProofResult) (w : World)
    → ctx.done_at ≡ none
    → 0 < threshold
    → threshold < fails
    → (check_sample p ctx ep time threshold fails sample results w).0
      ≡ results ++ map (proof_result ReasonCode.unavailable_provider time) sample
unfolding check_sample
check_sample_tripped p ctx ep time threshold fails [] results w runs pos over = rw append-nil
check_sample_tripped p ctx ep time threshold fails (sc ∷ rest) results w runs pos over = ground (
  arith,
  runs,
  check_sample_tripped p ctx ep time threshold fails rest
      (results ++ proof_result ReasonCode.unavailable_provider time sc ∷ [])
      (record w { tick = w.tick + 1 }) runs pos over,
  append_assoc results (proof_result ReasonCode.unavailable_provider time sc ∷ [])
      (map (proof_result ReasonCode.unavailable_provider time) rest),
)
