-- ===== src/Proof/Cycle.antt =====
-- `CheckStorageProofs` of internal/usecase/proof/proof.go.
pub mod Keeps
pub mod Checkpoint
pub mod Checks
pub mod Grouping
pub mod Complete
use mytonprovider_agent.Common.{
  ℕ, ◌+◌, Bool, true, List, [], ◌∷◌, ◌++◌, map, arrange, Text, none, some,
}
use mathlib.Core.List.{flat_map}
use mytonprovider_agent.Common.Dict.{Dict, insert, get_or}
use mytonprovider_agent.Domain.{ContractProviderRelation, ProofResult}
use mytonprovider_agent.Jobs.{Ctx, job_id_from, CheckProofsResult, check_proofs, cycle_check_proofs}
use mytonprovider_agent.World.{World, Act, ok, ask, wrapping, unless_done, ◌>>=◌, ◌>>◌}
use mytonprovider_agent.Publisher.{publish_result}
use mytonprovider_agent.Workers.{Fanout, fan_out}
use mytonprovider_agent.Proof.{Proof}
use mytonprovider_agent.Proof.Provider.{check_provider}

-- a provider with its relations: what one goroutine gets
abbrev pub Batch : Type 0
Batch = Text × List ContractProviderRelation

-- a goroutine's results, beside the batch that they are for
abbrev pub Checked : Type 0
Checked = Batch × List ProofResult

-- `byProvider[rel.ProviderPubkey] = append(…, rel)`
unfoldable pub by_provider :
    List ContractProviderRelation
    → Dict (List ContractProviderRelation)
    → Dict (List ContractProviderRelation)
by_provider [] m = m
by_provider (r ∷ rs) m =
    by_provider rs (insert r.provider_pubkey (get_or r.provider_pubkey [] m ++ r ∷ []) m)

unfoldable pub check_batch : Proof → Ctx → Batch → World → Checked × World
unfolding check_provider
check_batch p ctx (pubkey, contracts) w =
    let (rs, w') = check_provider p ctx pubkey contracts w in (((pubkey, contracts), rs), w')

unfoldable pub checks : Proof → Ctx → Fanout Batch Checked
unfolding check_batch
checks p ctx = record {
  ctx = ctx;
  cap = p.cfg.max_concurrent_bags;
  schedule = p.schedule;
  admits = λ batch. true;
  work = check_batch p ctx;
}

-- `appendResults` for each goroutine, in the order in which they complete
unfoldable pub all_results : List Checked → List ProofResult
all_results [] = []
all_results (c ∷ cs) = c.1 ++ all_results cs

unfoldable pub publish_proofs : Proof → Ctx → List ProofResult → Act (Unit {0})
publish_proofs p ctx results =
    publish_result p.publisher p.cfg.check_proofs_stream (job_id_from ctx) cycle_check_proofs
      (check_proofs (record { results = results }))

unfoldable pub check_all : Proof → Ctx → List Batch → Act (List Checked)
unfolding fan_out checks
check_all p ctx batches w = let (out, w') = fan_out (checks p ctx) batches w in (ok out, w')

unfoldable pub check_relations : Proof → Ctx → List ContractProviderRelation → Act (Unit {0})
unfolding ◌>>=◌ unless_done wrapping check_all publish_proofs all_results by_provider
check_relations p ctx [] = publish_proofs p ctx []
check_relations p ctx (r ∷ rs) = do
  order ← ask (λ t. ok (p.range_order t))
  out ← check_all p ctx (arrange order (by_provider (r ∷ rs) []))
  unless_done ctx
      (wrapping "usecase.proof.CheckStorageProofs" (publish_proofs p ctx (all_results out)))

unfoldable pub check_storage_proofs : Proof → Ctx → Act (Unit {0})
unfolding ◌>>=◌ check_relations
check_storage_proofs p ctx = do
  relations ← p.contract_repo.get_active_relations
  check_relations p ctx relations
