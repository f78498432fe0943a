-- ===== src/Tests/Agent.antt =====
-- Runs of the adapters of TON and of the DHT, and of the agent that is built from all adapters.
use mathlib.Core.List.{Memᴰ, Perm}
use mytonprovider_agent.Common.{
  text_eq, ◌⊎◌, inl, inr, true, none, ℕ, ◌≡◌, refl, ◌++◌, List, [], ◌∷◌, map, All, Text, codes,
  select, arith,
}
use mytonprovider_agent.Common.Dict.{lookup}
use mytonprovider_agent.Strings.Hex.{encode_hex}
use mytonprovider_agent.World.{ok}
use mytonprovider_agent.World.Actions.Ensures.{Ensures}
use mytonprovider_agent.Checkpoints.{IsCheckpointed}
use mytonprovider_agent.Lite.{Transaction, LiteContract, LiteState}
use mytonprovider_agent.Lite.Transactions.{cut, parse_all, get_transactions}
use mytonprovider_agent.Lite.Transactions.History.{Pages, flatten, IsHistory, Serves}
use mytonprovider_agent.Lite.Transactions.Complete.{IsServed, newer_parsed, get_transactions_lem}
use mytonprovider_agent.Lite.States.{get_providers_info}
use mytonprovider_agent.Lite.States.Inspected.{get_providers_info-perm}
use mytonprovider_agent.Ton.Master.{registration, scan_registrations}
use mytonprovider_agent.Ton.Registrations.{first_listed}
use mytonprovider_agent.Ton.History.{first_by_page, scan_refines}
use mytonprovider_agent.Ton.Continuity.{IsOldOrNewer, is_found, Collected, scans_lose_nothing}
use mytonprovider_agent.Ton.Gap.{IsCutShort, cut_short_loses}
use mytonprovider_agent.Ton.Wallet.{scan_withdrawals, enrich}
use mytonprovider_agent.Ton.Withdrawals.{IsEnriched, enrich-IsEnriched}
use mytonprovider_agent.Dht.Overlay.{resolve_storage_with_overlay}
use mytonprovider_agent.Dht.Overlay.Found.{overlay-Ensures}
use mytonprovider_agent.Discovery.NewProviders.{collect_new_providers}
use mytonprovider_agent.Consumer.Worker.{worker_turn}
use mytonprovider_agent.App.{Binding, bindings, new_discovery, new_proof}
use mytonprovider_agent.App.Streams.{AreApart, trigger_streams, result_streams, streams-AreApart}
use mytonprovider_agent.App.Start.{new_consumer}
use mytonprovider_agent.App.Findings.{AreSound, collect_new_providers-AreSound}
use mytonprovider_agent.App.Proofs.{AreProofless, check_storage_proofs-AreProofless}
use mytonprovider_agent.Proof.Cycle.{check_storage_proofs}
use mytonprovider_agent.App.Agent.{Step, Runs, run-IsCheckpointed}
use mytonprovider_agent.Tests.Samples.{key_a, ctx, world}
use mytonprovider_agent.Tests.Outside.{
  raw, slow_api, newest_page, mixed_page, middle_page, later_page, later_api, oldest_page, api, dht,
  config, outside, queue,
}

abbrev pages : Pages
pages = newest_page ∷ oldest_page ∷ []

served : IsServed api (codes "M") pages
unfolding Serves IsHistory
served = record {
  valid = refl;
  block = 7;
  at_block = λ t. refl;
  last_lt = 60;
  last_hash = codes "h";
  at_account = λ t. refl;
  not_empty = omega arith;
  serves = ((λ t. refl), omega arith, ((λ t. refl), omega arith, (λ t. refl)));
  history = (
    ((omega arith, tt), (tt, tt)),
    ((omega arith, (omega arith, tt)), ((omega arith, (omega arith, tt)), tt)),
    (((omega arith, tt), (tt, tt)), (tt, (tt, tt)), tt),
  );
}

abbrev later_pages : Pages
later_pages = mixed_page ∷ middle_page ∷ (raw 30 20 ∷ []) ∷ []

served_later : IsServed later_api (codes "M") later_pages
unfolding Serves IsHistory
served_later = record {
  valid = refl;
  block = 7;
  at_block = λ t. refl;
  last_lt = 80;
  last_hash = codes "h";
  at_account = λ t. refl;
  not_empty = omega arith;
  serves = (
    (λ t. refl),
    omega arith,
    ((λ t. refl), omega arith, ((λ t. refl), omega arith, (λ t. refl))),
  );
  history = (
    ((omega arith, (omega arith, tt)), ((omega arith, tt), (tt, tt))),
    (
      (omega arith, (omega arith, (omega arith, tt))),
      (
        (omega arith, (omega arith, (omega arith, tt))),
        ((omega arith, (omega arith, (omega arith, tt))), tt),
      ),
    ),
    (
      ((omega arith, tt), (tt, tt)),
      ((omega arith, tt), ((omega arith, tt), tt)),
      ((tt, tt), (tt, tt), tt),
    ),
  );
}

grown : All (IsOldOrNewer (parse_all (flatten pages))) (parse_all (flatten later_pages))
unfolding parse_all flatten
grown = (
  inl (Memᴰ.tail (Memᴰ.head refl)),
  (
    inr (omega arith, (omega arith, (omega arith, (omega arith, tt)))),
    (
      inr (omega arith, (omega arith, (omega arith, (omega arith, tt)))),
      (
        inl (Memᴰ.tail (Memᴰ.tail (Memᴰ.tail (Memᴰ.head refl)))),
        (inl (Memᴰ.head refl), (inl (Memᴰ.tail (Memᴰ.tail (Memᴰ.head refl))), tt)),
      ),
    ),
  ),
)

key_a_is_registered : is_found (first_listed 35 key_a (parse_all (flatten later_pages))) ≡ true
unfolding parse_all flatten first_listed registration encode_hex text_eq
key_a_is_registered = refl

scans_lose_nothing_example :
    (txs : List Transaction) × ((get_transactions api (codes "M") 35 world).0 ≡ ok txs)
    × (let n : ℕ = (scan_registrations 35 txs [] 35).1 in
        (txs' : List Transaction) × ((get_transactions later_api (codes "M") n world).0 ≡ ok txs')
        × (Collected key_a 35 txs ⊎ Collected key_a n txs'))
scans_lose_nothing_example =
    scans_lose_nothing api later_api (codes "M") 35 pages later_pages world world key_a served
      served_later grown key_a_is_registered

abbrev withdrawal : ℕ → Transaction
withdrawal lt = record {
  hash = codes "h";
  lt = lt;
  op = 0xa91baf56;
  from = codes "C";
  to = codes "W";
  message = [];
  created_at = 0;
}

slow : IsCutShort slow_api (codes "M") (raw 50 40) (raw 60 50 ∷ [])
slow = record {
  valid = refl;
  block = 7;
  at_block = λ t. refl;
  last_lt = 60;
  last_hash = codes "h";
  at_account = λ t. refl;
  at_page = λ t. refl;
  at_deadline = λ t. refl;
}

nothing_cut : cut 35 newest_page ≡ none
unfolding cut
nothing_cut = refl

abbrev first_parsed : Transaction
unfolding parse_all
first_parsed = elim (parse_all newest_page) [ [] ↦ withdrawal 0 | t ∷ ts ↦ t ]

cut_short_loses_example :
    ((get_transactions slow_api (codes "M") 35 world).0 ≡ ok (parse_all newest_page))
    × (let n : ℕ = (scan_registrations 35 (parse_all newest_page) [] 35).1 in
        lookup key_a (scan_registrations n (parse_all later_page ++ parse_all oldest_page) [] n).0
        ≡ lookup key_a (scan_registrations n (parse_all later_page) [] n).0)
unfolding parse_all
cut_short_loses_example =
    cut_short_loses slow_api (codes "M") 35 (raw 50 40) (raw 60 50 ∷ []) first_parsed
      (parse_all (raw 60 50 ∷ [])) (parse_all later_page) (parse_all oldest_page) key_a world slow
      nothing_cut refl (omega arith, (omega arith, tt))

get_transactions_lem_example :
    (txs : List Transaction) × ((get_transactions api (codes "M") 35 world).0 ≡ ok txs)
    × (newer_parsed 35 txs ≡ newer_parsed 35 (parse_all (flatten pages)))
get_transactions_lem_example = get_transactions_lem api (codes "M") 35 pages world served

-- `key_a` is registered at 40, 50 and 60, and the scan takes 50: the first of the newest page
takes_newest_page : first_by_page 35 key_a pages ≡ first_listed 35 key_a (parse_all newest_page)
unfolding first_by_page first_listed parse_all registration encode_hex text_eq
takes_newest_page = refl

scan_refines_example :
    (txs : List Transaction) × ((get_transactions api (codes "M") 35 world).0 ≡ ok txs)
    × ((k : Text) → lookup k (scan_registrations 35 txs [] 35).0 ≡ first_by_page 35 k pages)
scan_refines_example = scan_refines api (codes "M") 35 pages world served

abbrev withdrawals : List Transaction
withdrawals = withdrawal 70 ∷ withdrawal 90 ∷ withdrawal 80 ∷ []

abbrev info : Text → LiteContract
info a = record {
  address = a;
  bag_id = codes "00ff";
  owner_addr = codes "O";
  size = 1;
  chunk_size = 1;
}

enrich-IsEnriched_example : All (IsEnriched (codes "W") 60 withdrawals) (
    enrich
      (codes "W")
      (scan_withdrawals withdrawals [] 60).0
      (info (codes "C") ∷ info (codes "D") ∷ []))
enrich-IsEnriched_example =
    enrich-IsEnriched (codes "W") 60 withdrawals (info (codes "C") ∷ info (codes "D") ∷ [])

get_providers_info-perm_example :
    (out : List LiteState) × ((get_providers_info api (codes "C" ∷ codes "D" ∷ []) world).0
      ≡ ok out)
    × Perm (map (λ s. s.address) out) (select api.parse_addr (codes "C" ∷ codes "D" ∷ []))
get_providers_info-perm_example =
    get_providers_info-perm api (codes "C" ∷ codes "D" ∷ []) world 7 refl

overlay-Ensures_example :
    Ensures
      (λ ep. ep.ip ≡ codes "10.0.0.1")
      (resolve_storage_with_overlay dht (codes "10.0.0.1") (codes "00ff" ∷ []))
overlay-Ensures_example = overlay-Ensures dht (codes "10.0.0.1") (codes "00ff" ∷ [])

streams-AreApart_example :
    AreApart (trigger_streams config outside ++ result_streams config outside)
streams-AreApart_example = streams-AreApart config outside

abbrev pub scan_binding : Binding
scan_binding = record {
  cycle_type = "scan_master";
  usecase = config.workers.discovery;
  handler = collect_new_providers (new_discovery config outside);
}

pub scan_is_bound : Memᴰ scan_binding (bindings config outside)
unfolding bindings
scan_is_bound = Memᴰ.head refl

run-IsCheckpointed_example :
    IsCheckpointed (worker_turn (new_consumer config queue scan_binding) ctx world).1.log
run-IsCheckpointed_example =
    run-IsCheckpointed config outside queue world _
      (Runs.goes_on world _ Runs.starts (Step.works scan_binding scan_is_bound ctx world)) tt

collect_new_providers-AreSound_example :
    AreSound (collect_new_providers (new_discovery config outside) ctx world).1.log
collect_new_providers-AreSound_example = collect_new_providers-AreSound config outside ctx world tt

check_storage_proofs-AreProofless_example :
    AreProofless (check_storage_proofs (new_proof config outside) ctx world).1.log
check_storage_proofs-AreProofless_example =
    check_storage_proofs-AreProofless config outside ctx world tt
