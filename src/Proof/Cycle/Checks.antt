-- ===== src/Proof/Cycle/Checks.antt =====
-- Each provider's batch is checked once.
use mathlib.Core.List.{Perm, append-nil, append_assoc}
use mathlib.Core.List.Perm
use mytonprovider_agent.Common.{
  ℕ, ◌≡◌, refl, true, none, List, [], ◌∷◌, ◌++◌, map, arith, arrange, arrange-perm, select, Text,
  text_eq, text_eq_iff, if◌then◌else◌,
}
use mytonprovider_agent.Common.Dict.{Dict, lookup, insert, get_or, lookup-insert}
use mytonprovider_agent.Domain.{ContractProviderRelation}
use mytonprovider_agent.Jobs.{Ctx}
use mytonprovider_agent.World.{World}
use mytonprovider_agent.Workers.{fan_out}
use mytonprovider_agent.Workers.Results.{fan_out-perm}
use mytonprovider_agent.Proof.{Proof}
use mytonprovider_agent.Proof.Cycle.{Batch, by_provider, check_batch, checks}

batch_of : (p : Proof) (ctx : Ctx) (b : Batch) (w : World) → (check_batch p ctx b w).0.0 ≡ b
unfolding check_batch
batch_of p ctx (pubkey, contracts) w = refl

select_all : (bs : List Batch) → select (λ b. true) bs ≡ bs
select_all [] = refl
select_all (b ∷ bs) = rw (select_all bs)

-- If the context is never done, each provider's batch of relations is checked exactly once, in
-- whatever order the map is ranged over and the goroutines complete.
pub checks-perm :
    (p : Proof) (ctx : Ctx) (order : List ℕ) (relations : List ContractProviderRelation) (w : World)
    → ctx.done_at ≡ none
    → Perm
        (map (λ c. c.0) (fan_out (checks p ctx) (arrange order (by_provider relations [])) w).0)
        (by_provider relations [])
unfolding checks
checks-perm p ctx order relations w runs =
    let batches : List Batch = arrange order (by_provider relations []) in
    Perm.trans
      (rw select_all at (fan_out-perm (checks p ctx) (λ c. c.0) (batch_of p ctx) runs batches w))
      (arrange-perm order (by_provider relations []))

-- the relations of a provider, in order
abbrev pub relations_of : Text → List ContractProviderRelation → List ContractProviderRelation
relations_of k [] = []
relations_of k (r ∷ rs) =
    let rest = relations_of k rs in if text_eq r.provider_pubkey k then r ∷ rest else rest

by_provider-append :
    (k : Text) (rs : List ContractProviderRelation) (m : Dict (List ContractProviderRelation))
    → get_or k [] (by_provider rs m) ≡ get_or k [] m ++ relations_of k rs
unfolding by_provider
by_provider-append k [] m = rw append-nil
by_provider-append k (r ∷ rs) m =
    let batch = get_or r.provider_pubkey [] m ++ r ∷ [] in
    ground (
      arith,
      text_eq_iff r.provider_pubkey k,
      lookup-insert r.provider_pubkey k batch m,
      by_provider-append k rs (insert r.provider_pubkey batch m),
      append_assoc (get_or k [] m) (r ∷ []) (relations_of k rs),
    )

-- The batch of a provider holds exactly its relations, in their order.
by_provider_lem :
    (k : Text) (rs : List ContractProviderRelation)
    → get_or k [] (by_provider rs []) ≡ relations_of k rs
unfolding lookup
by_provider_lem k rs = by_provider-append k rs []
