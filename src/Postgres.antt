-- ===== src/Postgres.antt =====
-- internal/adapters/outbound/postgres: the repositories, over the tables of `Database`.
pub mod System
pub mod Endpoints
pub mod Providers
pub mod Relations
use mytonprovider_agent.Common.{ℕ, ◌+◌, String, Text, Option, none, some, List, []}
use mytonprovider_agent.Strings.{to_lower}
use mytonprovider_agent.World.{World, Database, Act, Result, ok, err, Error, wrap, no_rows}

-- What pgx and the server decide: whether the statement of a tick fails (on its way, or in a row
-- of its answer), and `NOW()`.
pub record Server : Type 0 where
  pub fault : ℕ → Option Error
  pub clock : ℕ → ℕ

-- the answer of a statement that only reads, or the wrapped error
unfoldable pub query {ℓ} : {A : Type ℓ} → Server → String → (Database → Result A) → Act A
query s op read w = (
  (elim (s.fault w.tick) [ none ↦ read w.db | some e ↦ err (wrap op e) ]),
  record w { tick = w.tick + 1 },
)

-- the rows of a `Query`, whose `pgx.ErrNoRows` means none
unfoldable pub query_rows {ℓ} : {A : Type ℓ} → Server → String → (Database → List A) → Act (List A)
query_rows s op read w = (
  (elim (s.fault w.tick) [
    | none ↦ ok (read w.db)
    | some no_rows ↦ ok []
    | some e ↦ err (wrap op e)
  ]),
  record w { tick = w.tick + 1 },
)
