-- ===== src/Proof/Provider/Sample.antt =====
-- What is sampled of a provider's contracts.
use mathlib.Core.List.{Perm, append-nil}
use mathlib.Core.List.Perm
use Prim.Native.Nat.{min}
use mytonprovider_agent.Common.{
  ℕ, zero, suc, ◌≤◌, ◌<◌, ◌≡◌, refl, Bool, true, false, List, [], ◌∷◌, ◌++◌, arith, if◌then◌else◌,
  arrange, arrange-perm, length-arrange, length, take, length-take,
}
use mytonprovider_agent.Domain.{ContractProviderRelation}
use mytonprovider_agent.Proof.{Config}
use mytonprovider_agent.Proof.Provider.{sample_limit, sample_contracts}

abbrev drop : {A : Type 0} → ℕ → List A → List A
drop zero xs = xs
drop (suc n) [] = []
drop (suc n) (x ∷ xs) = drop n xs

take-append-drop : {A : Type 0} (n : ℕ) (xs : List A) → take n xs ++ drop n xs ≡ xs
take-append-drop zero xs = refl
take-append-drop (suc n) [] = refl
take-append-drop (suc n) (x ∷ xs) = rw (take-append-drop n xs)

sample_limit_bounds :
    (cfg : Config) (n : ℕ)
    → 0 < cfg.max_bags_per_provider
    → (0 < sample_limit cfg n) × (sample_limit cfg n ≤ cfg.max_bags_per_provider)
unfolding sample_limit
sample_limit_bounds cfg n h = ground arith

-- With a bound on the bags, the sample holds at most that many and at most all contracts, and it
-- is not empty unless there are none.
length-sample_contracts :
    (cfg : Config) (choice : List ℕ) (contracts : List ContractProviderRelation)
    → 0 < cfg.max_bags_per_provider
    → (length (sample_contracts cfg choice contracts) ≤ cfg.max_bags_per_provider)
      × (length (sample_contracts cfg choice contracts) ≤ length contracts)
      × (min 1 (length contracts) ≤ length (sample_contracts cfg choice contracts))
unfolding sample_contracts
length-sample_contracts cfg choice contracts h = ground (
  arith,
  sample_limit_bounds cfg (length contracts) h,
  length-take {0} (sample_limit cfg (length contracts)) (arrange choice contracts),
  length-arrange {0} choice contracts,
)

Sampled : List ContractProviderRelation → List ContractProviderRelation → Type 0
Sampled sample contracts = (rest : List ContractProviderRelation) × Perm (sample ++ rest) contracts

sample_all : (contracts : List ContractProviderRelation) → Sampled contracts contracts
unfolding Sampled
sample_all contracts = ([], rw append-nil (Perm.refl contracts))

sample_some :
    (n : ℕ) (choice : List ℕ) (contracts : List ContractProviderRelation)
    → Sampled (take n (arrange choice contracts)) contracts
unfolding Sampled
sample_some n choice contracts = (
  drop n (arrange choice contracts),
  rw (take-append-drop n (arrange choice contracts)) (arrange-perm choice contracts),
)

sample_cases :
    (b : Bool) (n : ℕ) (choice : List ℕ) (contracts : List ContractProviderRelation)
    → Sampled (if b then contracts else take n (arrange choice contracts)) contracts
sample_cases true n choice contracts = sample_all contracts
sample_cases false n choice contracts = sample_some n choice contracts

-- Whatever the shuffle, the sample and the contracts left out are together the provider's
-- contracts: none is made up, lost, or checked twice.
sample_contracts-perm :
    (cfg : Config) (choice : List ℕ) (contracts : List ContractProviderRelation)
    → (rest : List ContractProviderRelation) × Perm
        (sample_contracts cfg choice contracts ++ rest)
        contracts
unfolding sample_contracts Sampled
sample_contracts-perm cfg choice contracts = sample_cases _ _ choice contracts
