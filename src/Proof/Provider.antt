-- ===== src/Proof/Provider.antt =====
-- `checkProvider`, `sampleContracts` and `fillReason` of internal/usecase/proof/proof.go.
pub mod Sample
pub mod Breaker
use mytonprovider_agent.Common.{
  ℕ, ◌+◌, ◌*◌, ◌/◌, Bool, true, false, ◌&&◌, ◌||◌, Option, none, some, List, [], ◌∷◌, ◌++◌, map,
  arrange, ltb, leb, ◌==◌, if◌then◌else◌, Text, is_empty, length, take,
}
use mytonprovider_agent.Domain.{ContractProviderRelation, ProviderEndpoint, ProofResult, ReasonCode}
use mytonprovider_agent.Jobs.{Ctx}
use mytonprovider_agent.World.{World, Result, ok, err, is_done}
use mytonprovider_agent.Proof.{Config, Proof}

abbrev pub proof_result : ReasonCode → ℕ → ContractProviderRelation → ProofResult
proof_result reason time c = record {
  contract_addr = c.contract_addr;
  provider_addr = c.provider_address;
  reason = reason;
  checked_at = time;
}

-- fillReason
unfoldable pub fill_reason : List ContractProviderRelation → ReasonCode → ℕ → List ProofResult
fill_reason contracts reason time = map (proof_result reason time) contracts

-- how many of `n` contracts are checked at most
unfoldable pub sample_limit : Config → ℕ → ℕ
sample_limit cfg n =
    let calc = n * cfg.bags_sample_percent / 100 in
    if ltb 0 cfg.bags_sample_percent
      && ltb cfg.bags_sample_percent 100
      && ltb 0 calc
      && ltb calc cfg.max_bags_per_provider
    then calc
    else cfg.max_bags_per_provider

-- sampleContracts; `choice` is what `rand.Shuffle` does
unfoldable pub sample_contracts :
    Config → List ℕ → List ContractProviderRelation → List ContractProviderRelation
unfolding sample_limit
sample_contracts cfg choice contracts =
    if cfg.max_bags_per_provider == 0 || leb (length contracts) cfg.max_bags_per_provider
    then contracts
    else take (sample_limit cfg (length contracts)) (arrange choice contracts)

-- `uint32(float32(len(sample)) * 0.20)`: below 2^22 the float32 product, rounded to the nearest,
-- has the integer part of the exact fifth.
unfoldable pub max_failure_threshold : ℕ → ℕ
max_failure_threshold n = n / 5

-- the circuit breaker is open
unfoldable pub is_tripped : ℕ → ℕ → Bool
is_tripped threshold fails = ltb 0 threshold && ltb threshold fails

abbrev pub next_fails : ReasonCode → ℕ → ℕ
next_fails ReasonCode.valid_storage_proof fails = 0
next_fails _ fails = fails + 1

-- the loop over the sample. A wait of `BetweenBagsCooldown` ends early if the context is done.
unfoldable pub check_sample :
    Proof
    → Ctx
    → ProviderEndpoint
    → ℕ
    → ℕ
    → ℕ
    → List ContractProviderRelation
    → List ProofResult
    → World
    → List ProofResult × World
unfolding is_tripped
check_sample p ctx ep time threshold fails [] results w = (results, w)
check_sample p ctx ep time threshold fails (sc ∷ rest) results w =
    let w1 = record w { tick = w.tick + 1 } in
    let skip =
      check_sample p ctx ep time threshold fails rest
        (results ++ proof_result ReasonCode.unavailable_provider time sc ∷ []) w1 in
    let (reason, w2) = p.prover.verify ep sc.bag_id w1 in
    let w3 = record w2 { tick = w2.tick + 1 } in
    let results' = results ++ proof_result reason (p.clock w2.tick) sc ∷ [] in
    let waited = record w3 { tick = w3.tick + 1 } in
    let go_on =
      check_sample p ctx ep time threshold (next_fails reason fails) rest results' waited in
    if is_done ctx w.tick
    then (results, w1)
    else if is_tripped threshold fails
    then skip
    else if ltb 0 p.cfg.between_bags_cooldown && is_done ctx w3.tick
    then (results', waited)
    else go_on

-- checkProvider after the endpoint is loaded
unfoldable pub check_endpoint :
    Proof
    → Ctx
    → List ContractProviderRelation
    → Result (Option ProviderEndpoint)
    → World
    → List ProofResult × World
unfolding fill_reason sample_contracts max_failure_threshold check_sample
check_endpoint p ctx contracts (ok (some ep)) w =
    if is_empty ep.storage.ip
    then (
      fill_reason contracts ReasonCode.ip_not_found (p.clock w.tick),
      record w { tick = w.tick + 1 },
    )
    else let sample = sample_contracts p.cfg (p.shuffle w.tick) contracts in
      check_sample p ctx ep (p.clock (w.tick + 1)) (max_failure_threshold (length sample)) 0 sample
        [] (record w { tick = w.tick + 1 + 1 })
check_endpoint p ctx contracts _ w =
    (fill_reason contracts ReasonCode.ip_not_found (p.clock w.tick), record w { tick = w.tick + 1 })

unfoldable pub check_provider :
    Proof → Ctx → Text → List ContractProviderRelation → World → List ProofResult × World
unfolding check_endpoint
check_provider p ctx pubkey contracts w =
    let (r, w') = p.endpoint_repo.load_fresh pubkey p.cfg.endpoint_max_age w in
    check_endpoint p ctx contracts r w'
