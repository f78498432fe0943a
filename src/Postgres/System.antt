-- ===== src/Postgres/System.antt =====
-- internal/adapters/outbound/postgres/system.go.
pub mod Stored
use text.Mathlib.Text.{◌==◌ as str_eq}
use mytonprovider_agent.Common.{
  ℕ, ◌+◌, ◌^◌, ◌<◌, ◌≡◌, refl, ap, ◌∙◌, String, Bool, true, false, Option, none, some, List, [],
  ◌∷◌, Text, inl, inr, Bool-cases, if◌then◌else◌, arith,
}
use mytonprovider_agent.Strings.Decimal.{
  format_uint, parse_uint, parse_uint-format_uint, format_uint-not_empty,
}
use mytonprovider_agent.World.{World, Act, Result, ok, err, Error, wrap, failed, set_param}
use mytonprovider_agent.World.Actions.Keeps.{IsReadOnly}
use mytonprovider_agent.Ports.{SystemRepo, last_lt_key}
use mytonprovider_agent.Postgres.{Server, query}

-- `INSERT … ON CONFLICT (key) DO UPDATE SET value = EXCLUDED.value`
upsert : Text → List (String × Text) → List (String × Text)
upsert value [] = (last_lt_key, value) ∷ []
upsert value ((k, v) ∷ ps) =
    let rest = upsert value ps in if str_eq k last_lt_key then (k, value) ∷ ps else (k, v) ∷ rest

-- `SELECT value FROM system.params WHERE key = $1 LIMIT 1`
find_value : List (String × Text) → Option Text
find_value [] = none
find_value ((k, v) ∷ ps) = let rest = find_value ps in if str_eq k last_lt_key then some v else rest

-- the statement, and what it gives
store_answer : Option Error → ℕ → World → Result (Unit {0}) × World
unfolding upsert
store_answer none lt w = (
  ok tt,
  record w {
    tick = w.tick + 1;
    db = record (w.db) { params = upsert (format_uint lt) w.db.params };
    log = set_param last_lt_key (format_uint lt) true ∷ w.log;
  },
)
store_answer (some e) lt w = (
  err (wrap "postgres.SystemRepo.SetMasterWalletLT" e),
  record w { tick = w.tick + 1; log = set_param last_lt_key (format_uint lt) false ∷ w.log },
)

unfoldable pub set_master_wallet_lt : Server → ℕ → Act (Unit {0})
unfolding store_answer
set_master_wallet_lt s lt w = store_answer (s.fault w.tick) lt w

-- no row and the empty value are 0
read_lt : Option Text → Result ℕ
read_lt none = ok 0
read_lt (some []) = ok 0
read_lt (some (c ∷ val)) = elim (parse_uint (c ∷ val)) [
  | none ↦ err (wrap "postgres.SystemRepo.GetMasterWalletLT" (failed "strconv.ParseUint"))
  | some lt ↦ ok lt
]

unfoldable pub get_master_wallet_lt : Server → Act ℕ
unfolding query read_lt find_value
get_master_wallet_lt s =
    query s "postgres.SystemRepo.GetMasterWalletLT" (λ db. read_lt (find_value db.params))

find_value-upsert :
    (value : Text) (ps : List (String × Text)) → find_value (upsert value ps) ≡ some value
unfolding upsert find_value
find_value-upsert value [] = refl
find_value-upsert value ((k, v) ∷ ps) = elim (Bool-cases (str_eq k last_lt_key)) [
  | inl same ↦ rw (same, same) refl
  | inr other ↦ rw (other, other) (find_value-upsert value ps)
]

read_lt-format_uint : (lt : ℕ) → lt < 2 ^ 64 → read_lt (some (format_uint lt)) ≡ ok lt
unfolding read_lt
read_lt-format_uint lt h = grind (arith, parse_uint-format_uint lt h, format_uint-not_empty lt)

read_back :
    (s : Server) (w : World)
    → s.fault w.tick ≡ none
    → (get_master_wallet_lt s w).0 ≡ read_lt (find_value w.db.params)
unfolding get_master_wallet_lt query
read_back s w e =
    ap
      (λ f. (elim f [
        | none ↦ read_lt (find_value w.db.params)
        | some e ↦ err (wrap "postgres.SystemRepo.GetMasterWalletLT" e)
      ]))
      e

abbrev stored : ℕ → World → World
stored lt w = record w {
  tick = w.tick + 1;
  db = record (w.db) { params = upsert (format_uint lt) w.db.params };
  log = set_param last_lt_key (format_uint lt) true ∷ w.log;
}

write_back :
    (s : Server) (lt : ℕ) (w : World)
    → s.fault w.tick ≡ none
    → (set_master_wallet_lt s lt w).1 ≡ stored lt w
unfolding set_master_wallet_lt
write_back s lt w e = rw (e, set_master_wallet_lt) refl

-- What `SetMasterWalletLT` has stored without an error, `GetMasterWalletLT` reads back, for every
-- uint64 and whatever was stored before, if no fault comes between.
pub get_master_wallet_lt-set_master_wallet_lt :
    (s : Server) (lt : ℕ) (w : World)
    → lt < 2 ^ 64
    → s.fault w.tick ≡ none
    → s.fault (w.tick + 1) ≡ none
    → (get_master_wallet_lt s (set_master_wallet_lt s lt w).1).0 ≡ ok lt
get_master_wallet_lt-set_master_wallet_lt s lt w h written read = rw (write_back s lt w written) (
    read_back s (stored lt w) read
    ∙ ap read_lt (find_value-upsert (format_uint lt) w.db.params)
    ∙ read_lt-format_uint lt h)

pub set_master_wallet_lt-writes :
    (s : Server) (lt : ℕ) (w : World)
    → (accepted : Bool) × ((set_master_wallet_lt s lt w).1.log
        ≡ set_param last_lt_key (format_uint lt) accepted ∷ w.log)
unfolding set_master_wallet_lt
set_master_wallet_lt-writes s lt w =
    elim (s.fault w.tick)
      as (λ f.
        (accepted : Bool) × ((store_answer f lt w).1.log
          ≡ set_param last_lt_key (format_uint lt) accepted ∷ w.log)) [
            | none ↦ (true, refl)
            | some e ↦ (false, refl)
          ]

pub get_master_wallet_lt-IsReadOnly : (s : Server) → IsReadOnly (get_master_wallet_lt s)
unfolding get_master_wallet_lt query
get_master_wallet_lt-IsReadOnly s = record { same_db = λ w. refl; same_log = λ w. refl }

-- `SystemRepo`, as the use cases take it
abbrev pub system_repo : Server → SystemRepo
system_repo s = record {
  get_master_wallet_lt = get_master_wallet_lt s;
  set_master_wallet_lt = set_master_wallet_lt s;
  get_reads = get_master_wallet_lt-IsReadOnly s;
  set_writes = set_master_wallet_lt-writes s;
}
