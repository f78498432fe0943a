-- ===== src/Postgres/System/Stored.antt =====
-- The LT of the master wallet that is stored, and how `SetMasterWalletLT` changes it.
use mytonprovider_agent.Common.{
  arith, ℕ, ◌^◌, ◌<◌, ◌≡◌, refl, ◌∙◌, ap, none, some, Option, ◌⊎◌, inl, inr,
}
use mytonprovider_agent.Strings.Decimal.{format_uint}
use mytonprovider_agent.World.{World, Database, Result, ok, Error}
use mytonprovider_agent.Postgres.{Server, query}
use mytonprovider_agent.Postgres.System.{
  find_value, read_lt, store_answer, set_master_wallet_lt, get_master_wallet_lt, find_value-upsert,
  read_lt-format_uint,
}

-- what `GetMasterWalletLT` makes of the tables, if its statement does not fail
unfoldable pub stored_lt : Database → Result ℕ
unfolding read_lt find_value
stored_lt db = read_lt (find_value db.params)

answered :
    (f : Option Error) (lt : ℕ) (w : World)
    → lt < 2 ^ 64
    → (stored_lt (store_answer f lt w).1.db ≡ ok lt) ⊎ ((store_answer f lt w).1.db ≡ w.db)
unfolding store_answer stored_lt
answered none lt w h =
    inl (ap read_lt (find_value-upsert (format_uint lt) w.db.params) ∙ read_lt-format_uint lt h)
answered (some e) lt w h = inr refl

pub stored_lt-set_master_wallet_lt :
    (s : Server) (lt : ℕ) (w : World)
    → lt < 2 ^ 64
    → (stored_lt (set_master_wallet_lt s lt w).1.db ≡ ok lt)
      ⊎ ((set_master_wallet_lt s lt w).1.db ≡ w.db)
unfolding set_master_wallet_lt
stored_lt-set_master_wallet_lt s lt w h = answered (s.fault w.tick) lt w h

pub get_master_wallet_lt-stored_lt :
    (s : Server) (w : World) (a : ℕ) → (get_master_wallet_lt s w).0 ≡ ok a → stored_lt w.db ≡ ok a
unfolding get_master_wallet_lt query stored_lt
get_master_wallet_lt-stored_lt s w a e = ground arith
