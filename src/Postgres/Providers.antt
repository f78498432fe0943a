-- ===== src/Postgres/Providers.antt =====
-- internal/adapters/outbound/postgres/provider.go, as far as it is not commented out.
use mytonprovider_agent.Common.{
  ◌^◌, ◌&&◌, ltb, ℕ, ◌+◌, ◌≡◌, ◌≢◌, refl, Bool, true, false, Option, none, some, List, [], ◌∷◌, map,
  Text, text_eq, text_eq_iff, if◌then◌else◌, arith, All,
}
use mytonprovider_agent.Domain.{Provider}
use mytonprovider_agent.Strings.{to_lower, to_lower_idem}
use mytonprovider_agent.World.{
  World, ProviderRow, Act, Result, ok, err, Error, wrap, failed, set_last_tx_lt,
}
use mytonprovider_agent.World.Actions.Keeps.{IsReadOnly}
use mytonprovider_agent.Ports.{ProviderRepo, lt_updates}
use mytonprovider_agent.Postgres.{Server, query_rows}

unfoldable pub get_all_pubkeys : Server → Act (List Text)
unfolding query_rows
get_all_pubkeys s =
    query_rows s "postgres.ProviderRepo.GetAllPubkeys" (λ db. map (λ r. r.public_key) db.providers)

-- the columns that `GetAllWallets` reads; `registered_at` stays the zero time
abbrev pub wallet_of : ProviderRow → Provider
wallet_of r = record {
  public_key = r.public_key;
  address = r.address;
  lt = r.last_tx_lt;
  registered_at = 0;
}

unfoldable pub get_all_wallets : Server → Act (List Provider)
unfolding query_rows
get_all_wallets s =
    query_rows s "postgres.ProviderRepo.GetAllWallets" (λ db. map wallet_of db.providers)

-- The row's match among the updates, whose keys the statement lowers. Postgres does not say which
-- of several matches it takes: the first one here.
unfoldable pub new_lt : List (Text × ℕ) → Text → Option ℕ
new_lt [] key = none
new_lt ((k, lt) ∷ us) key =
    let rest = new_lt us key in if text_eq key (to_lower k) then some lt else rest

unfoldable pub updated_row : List (Text × ℕ) → ProviderRow → ProviderRow
unfolding new_lt
updated_row us r = elim (new_lt us r.public_key) [
  | none ↦ r
  | some lt ↦ record r { last_tx_lt = lt }
]

-- the statement, and what it gives
update_answer : Option Error → List (Text × ℕ) → World → Result (Unit {0}) × World
unfolding updated_row
update_answer none us w = (
  ok tt,
  record w {
    tick = w.tick + 1;
    db = record (w.db) { providers = map (updated_row us) w.db.providers };
    log = set_last_tx_lt us true ∷ w.log;
  },
)
update_answer (some e) us w = (
  err (wrap "postgres.ProviderRepo.UpdateLT" e),
  record w { tick = w.tick + 1; log = set_last_tx_lt us false ∷ w.log },
)

-- `::bigint` takes LTs below 2^63
unfoldable are_bigints : List (Text × ℕ) → Bool
are_bigints [] = true
are_bigints ((k, lt) ∷ us) = ltb lt (2 ^ 63) && are_bigints us

-- what the statement fails with: the server's fault, or an LT that is out of range
unfoldable statement_fault : Option Error → List (Text × ℕ) → Option Error
unfolding are_bigints
statement_fault (some e) us = some e
statement_fault none us = if are_bigints us then none else some (failed "bigint out of range")

unfoldable pub update_lt : Server → List Provider → Act (Unit {0})
unfolding update_answer statement_fault
update_lt s [] w = (ok tt, w)
update_lt s (p ∷ ps) w =
    let us = lt_updates (p ∷ ps) in update_answer (statement_fault (s.fault w.tick) us) us w

pub get_all_pubkeys-IsReadOnly : (s : Server) → IsReadOnly (get_all_pubkeys s)
unfolding get_all_pubkeys query_rows
get_all_pubkeys-IsReadOnly s = record { same_db = λ w. refl; same_log = λ w. refl }

pub get_all_wallets-IsReadOnly : (s : Server) → IsReadOnly (get_all_wallets s)
unfolding get_all_wallets query_rows
get_all_wallets-IsReadOnly s = record { same_db = λ w. refl; same_log = λ w. refl }

answer-logs :
    (f : Option Error) (us : List (Text × ℕ)) (w : World)
    → (accepted : Bool) × ((update_answer f us w).1.log ≡ set_last_tx_lt us accepted ∷ w.log)
unfolding update_answer
answer-logs none us w = (true, refl)
answer-logs (some e) us w = (false, refl)

pub update_lt-writes :
    (s : Server) (p : Provider) (ps : List Provider) (w : World)
    → (accepted : Bool) × ((update_lt s (p ∷ ps) w).1.log
        ≡ set_last_tx_lt (lt_updates (p ∷ ps)) accepted ∷ w.log)
unfolding update_lt
update_lt-writes s p ps w =
    let us = lt_updates (p ∷ ps) in answer-logs (statement_fault (s.fault w.tick) us) us w

-- `ProviderRepo`, as the use cases take it
abbrev pub provider_repo : Server → ProviderRepo
provider_repo s = record {
  get_all_pubkeys = get_all_pubkeys s;
  get_all_wallets = get_all_wallets s;
  update_lt = update_lt s;
  pubkeys_reads = get_all_pubkeys-IsReadOnly s;
  wallets_reads = get_all_wallets-IsReadOnly s;
  update_writes = update_lt-writes s;
}

abbrev pub HasCapital : ProviderRow → Type 0
HasCapital r = to_lower r.public_key ≢ r.public_key

new_lt-HasCapital : (us : List (Text × ℕ)) (key : Text) → to_lower key ≢ key → new_lt us key ≡ none
unfolding new_lt
new_lt-HasCapital [] key h = refl
new_lt-HasCapital ((k, lt) ∷ us) key h =
    ground (arith, h, new_lt-HasCapital us key h, text_eq_iff key (to_lower k), to_lower_idem k)

updated_row-HasCapital :
    (us : List (Text × ℕ)) (r : ProviderRow) → HasCapital r → updated_row us r ≡ r
unfolding updated_row
updated_row-HasCapital us r h = ground (arith, new_lt-HasCapital us r.public_key h)

updated_rows-HasCapital :
    (us : List (Text × ℕ)) (rows : List ProviderRow)
    → All HasCapital rows
    → map (updated_row us) rows ≡ rows
updated_rows-HasCapital us [] h = refl
updated_rows-HasCapital us (r ∷ rs) h =
    rw (updated_row-HasCapital us r h.0, updated_rows-HasCapital us rs h.1) refl

answer-HasCapital :
    (f : Option Error) (us : List (Text × ℕ)) (w : World)
    → All HasCapital w.db.providers
    → (update_answer f us w).1.db.providers ≡ w.db.providers
unfolding update_answer
answer-HasCapital none us w h = updated_rows-HasCapital us w.db.providers h
answer-HasCapital (some e) us w h = refl

-- `UpdateLT` changes no row whose stored key has a capital letter: if all keys have one, it leaves
-- the table as it is, whatever it is given and whether or not it succeeds.
pub update_lt-HasCapital :
    (s : Server) (ps : List Provider) (w : World)
    → All HasCapital w.db.providers
    → (update_lt s ps w).1.db.providers ≡ w.db.providers
unfolding update_lt
update_lt-HasCapital s [] w h = refl
update_lt-HasCapital s (p ∷ ps) w h =
    let us = lt_updates (p ∷ ps) in answer-HasCapital (statement_fault (s.fault w.tick) us) us w h

-- the LT of the wallet with this key
unfoldable pub lt_of : Text → List Provider → Option ℕ
lt_of k [] = none
lt_of k (p ∷ ps) = let rest = lt_of k ps in if text_eq p.public_key k then some p.lt else rest

-- the LT that a wallet has after the update of `p`
abbrev pub lt_after : Text → Provider → Option ℕ → Option ℕ
lt_after k p none = none
lt_after k p (some lt) = if text_eq k (to_lower p.public_key) then some p.lt else some lt
