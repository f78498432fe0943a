-- ===== src/Tests/Checks.antt =====
-- Runs of the proof checks, of the polls and of the inspection.
use mathlib.Core.List.{Perm}
use mytonprovider_agent.Common.{
  ◌+◌, ℕ, ◌*◌, ◌≤◌, ◌≡◌, refl, true, false, List, [], ◌∷◌, map, Text, codes, length, text_eq,
  select, arrange,
}
use mytonprovider_agent.Common.Dict.{Dict}
use mytonprovider_agent.Domain.{
  ProviderEndpoint, OnChainProvider, ContractOnChainState, ReasonCode, no_provider_endpoint,
}
use mytonprovider_agent.Strings.Hex.{encode_hex, decode_hex}
use mytonprovider_agent.World.{ok}
use mytonprovider_agent.Workers.{fan_out, run_rounds}
use mytonprovider_agent.Poll.{with_defaults}
use mytonprovider_agent.Poll.Rates.{probes, is_decodable, rates_result}
use mytonprovider_agent.Poll.Rates.Statuses.{statuses-perm, rates-online, probes_bounded, is_online}
use mytonprovider_agent.Poll.Rejected.Skipped.{verdict-skipped}
use mytonprovider_agent.Poll.Rejected.{
  ContractInfo, state_infos, Verdict, verdict, bounty, is_removed_by_low_balance,
}
use mytonprovider_agent.Proof.Provider.Breaker.{checked_pair, relation_pair}
use mytonprovider_agent.Proof.Cycle.{by_provider, checks, check_storage_proofs}
use mytonprovider_agent.Proof.Cycle.Complete.{check_storage_proofs_complete}
use mytonprovider_agent.Proof.{Proof}
use mytonprovider_agent.Domain.{ProofResult}
use mytonprovider_agent.Jobs.{check_proofs, cycle_check_proofs}
use mytonprovider_agent.Proof.Cycle.Checks.{checks-perm}
use mytonprovider_agent.Direct.{verify}
use mytonprovider_agent.Direct.Soundness.{IsProven, verify-IsProven}
use mytonprovider_agent.Poll.{Poll}
use mytonprovider_agent.Jobs.{cycle_inspect_contracts, inspect_contracts}
use mytonprovider_agent.World.{World, ask}
use mytonprovider_agent.World.Actions.Keeps.{ask-IsReadOnly}
use mytonprovider_agent.Publisher.Laws.{after_publish}
use mytonprovider_agent.Poll.Rejected.{update_rejected_contracts}
use mytonprovider_agent.Poll.Rejected.Standing.{standing}
use mytonprovider_agent.Poll.Rejected.Published.{described, update_rejected_contracts_refines}
use mytonprovider_agent.Tests.Samples.{
  fill, relation, key_a, key_b, ctx, world, relations, network, poll, proof,
}

checks-perm_example :
    Perm
      (map
        (λ c. c.0)
        (fan_out (checks proof ctx) (arrange (1 ∷ []) (by_provider relations [])) world).0)
      (by_provider relations [])
checks-perm_example = checks-perm proof ctx (1 ∷ []) relations world refl

abbrev keyed : ProviderEndpoint
keyed = record no_provider_endpoint {
  storage = record { public_key = 1 ∷ []; ip = codes "10.0.0.2"; port = 4444 };
}

keyed_verified : (verify network keyed (codes "00ff") world).0 ≡ ReasonCode.valid_storage_proof
unfolding verify decode_hex text_eq
keyed_verified = refl

verify-IsProven_example : IsProven network (codes "00ff")
verify-IsProven_example = verify-IsProven network keyed (codes "00ff") world keyed_verified

abbrev pubkeys : List Text
pubkeys = key_a ∷ codes "zz" ∷ key_b ∷ []

statuses-perm_example :
    Perm
      (map (λ s. s.public_key) (rates_result (fan_out (probes poll ctx) pubkeys world).0).statuses)
      (select is_decodable pubkeys)
statuses-perm_example = statuses-perm poll ctx pubkeys world refl

rates-online_example :
    map (λ u. u.public_key) (rates_result (fan_out (probes poll ctx) pubkeys world).0).rates
    ≡ map
        (λ s. s.public_key)
        (select is_online (rates_result (fan_out (probes poll ctx) pubkeys world).0).statuses)
rates-online_example = rates-online poll ctx pubkeys world

probes_bounded_example :
    length
      (run_rounds
        (probes poll ctx)
        3
        (record { todo = pubkeys; running = []; out = []; world = world })).running
    ≤ (with_defaults poll.cfg).max_concurrent_probe
probes_bounded_example = probes_bounded poll ctx pubkeys world 3

abbrev on_chain : ℕ → OnChainProvider
on_chain proved = record {
  key = 10 ∷ 11 ∷ [];
  last_proof_time = proved * 1000000000;
  rate_per_mb_day = 1000;
  max_span = 3600;
}

abbrev funded : ℕ → ContractOnChainState
funded balance = record {
  address = codes "C";
  balance = balance;
  providers = [];
  lite_server_error = false;
}

removed : is_removed_by_low_balance 9000000000000 1048576 (on_chain 1000) (funded 5) ≡ true
unfolding is_removed_by_low_balance
removed = refl

abbrev unreachable : ContractOnChainState
unreachable = record (funded 0) { lite_server_error = true }

verdict-skipped_example :
    (infos : Dict ContractInfo) × ((state_infos poll [] (funded 5 ∷ unreachable ∷ []) [] world).0
      ≡ ok infos)
    × (verdict infos (relation (codes "C") key_a) ≡ Verdict.skipped)
verdict-skipped_example =
    verdict-skipped poll [] unreachable (funded 5 ∷ []) [] (relation (codes "C") key_a) world refl
      refl tt

-- one provider that serves its contract, one that has run out of balance, one failed inspection
abbrev states : List ContractOnChainState
states =
    record (funded 60000000) { providers = record (on_chain 1000) { key = fill 32 10 } ∷ [] }
    ∷ record (funded 5) {
      address = codes "D";
      providers = record (on_chain 1000) { key = fill 32 11 } ∷ [];
    }
    ∷ record (funded 0) { address = codes "E"; lite_server_error = true }
    ∷ []

abbrev ticking : ℕ → ℕ
ticking t = (9000 + t) * 1000000000

abbrev inspecting : Poll
inspecting = record poll {
  clock = ticking;
  inspector = record {
    inspect_providers = λ addrs. ask (λ t. ok states);
    inspect_reads = λ addrs. ask-IsReadOnly _;
  };
}

update_rejected_contracts_refines_example :
    (w' : World) × (w'.log ≡ world.log)
    × ((update_rejected_contracts inspecting ctx world).1
        ≡ after_publish poll.publisher "results:inspect_contracts" "job-1" cycle_inspect_contracts
            (inspect_contracts (described ticking (world.tick + 3) relations states))
            w')
unfolding ask
update_rejected_contracts_refines_example =
    update_rejected_contracts_refines inspecting ctx (relation (codes "C") key_a)
      (relation (codes "D") key_b ∷ relation (codes "E") key_a ∷ []) states world refl refl

one_rejected : (described ticking 3 relations states).rejected ≡ relation (codes "D") key_b ∷ []
unfolding standing is_removed_by_low_balance bounty encode_hex text_eq
one_rejected = refl

abbrev unbounded : Proof
unbounded = record proof { cfg = record (proof.cfg) { max_bags_per_provider = 0 } }

check_storage_proofs_complete_example :
    (results : List ProofResult) × (w' : World) × (w'.log ≡ world.log)
    × ((check_storage_proofs unbounded ctx world).1
        ≡ after_publish proof.publisher proof.cfg.check_proofs_stream "job-1" cycle_check_proofs
            (check_proofs (record { results = results }))
            w')
    × Perm (map checked_pair results) (map relation_pair relations)
unfolding ask
check_storage_proofs_complete_example =
    check_storage_proofs_complete unbounded ctx refl refl relations world refl
