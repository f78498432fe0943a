-- ===== src/Postgres/Endpoints.antt =====
-- internal/adapters/outbound/postgres/endpoint.go.
use mytonprovider_agent.Common.{
  ℕ, ◌+◌, ◌≡◌, refl, ap, sym, arith, ◌&&◌, not, Bool, true, false, Option, none, some, List, [],
  ◌∷◌, Text, text_eq, is_empty, ltb, select,
}
use mytonprovider_agent.Common.Dict.{Dict, insert}
use mytonprovider_agent.Strings.{to_lower}
use mytonprovider_agent.Domain.{ProviderEndpoint}
use mytonprovider_agent.World.{World, ProviderRow, Act, Result, ok, err, no_rows, wrap, Error}
use mytonprovider_agent.World.Actions.Keeps.{IsReadOnly}
use mytonprovider_agent.Ports.{EndpointRepo}
use mytonprovider_agent.Postgres.{Server, query_rows}

abbrev pub or_empty : Option Text → Text
or_empty none = []
or_empty (some s) = s

abbrev or_zero : Option ℕ → ℕ
or_zero none = 0
or_zero (some n) = n

-- What both methods make of a row. The keys of the two nodes are no columns of the table.
abbrev pub row_endpoint : ProviderRow → ℕ → ProviderEndpoint
row_endpoint r updated_at = record {
  public_key = r.public_key;
  provider = record { public_key = []; ip = or_empty r.ip; port = or_zero r.port };
  storage = record { public_key = []; ip = or_empty r.storage_ip; port = or_zero r.storage_port };
  updated_at = updated_at;
}

abbrev is_some {ℓ} : {A : Type ℓ} → Option A → Bool
is_some none = false
is_some (some a) = true

-- the `WHERE` of `LoadFresh` at the time `now`
abbrev is_match : Text → ℕ → ℕ → ProviderRow → Bool
is_match pubkey max_age now r =
    text_eq (to_lower r.public_key) (to_lower pubkey)
    && is_some r.ip
    && ltb now (r.updated_at + max_age)

-- `QueryRow`: the first row that comes, without its `updated_at`
first_row : List ProviderRow → Option ProviderEndpoint
first_row [] = none
first_row (r ∷ rs) = some (row_endpoint r 0)

-- the row that is scanned_row, or the error; `pgx.ErrNoRows` means none
scanned_row : Option Error → List ProviderRow → Result (Option ProviderEndpoint)
unfolding first_row
scanned_row none rows = ok (first_row rows)
scanned_row (some no_rows) rows = ok none
scanned_row (some e) rows = err (wrap "postgres.EndpointRepo.LoadFresh" e)

unfoldable pub load_fresh : Server → Text → ℕ → Act (Option ProviderEndpoint)
unfolding scanned_row
load_fresh s pubkey max_age w = (
  scanned_row (s.fault w.tick) (select (is_match pubkey max_age (s.clock w.tick)) w.db.providers),
  record w { tick = w.tick + 1 },
)

-- `WHERE ip IS NOT NULL AND length(ip) > 0`, by `public_key`
by_pubkey : List ProviderRow → Dict ProviderEndpoint → Dict ProviderEndpoint
by_pubkey [] m = m
by_pubkey (r ∷ rs) m = by_pubkey rs (insert r.public_key (row_endpoint r r.updated_at) m)

unfoldable pub load_all : Server → Act (Dict ProviderEndpoint)
unfolding query_rows by_pubkey
load_all s w =
    let (r, w') =
      query_rows s "postgres.EndpointRepo.LoadAll"
        (λ db. select (λ r. not (is_empty (or_empty r.ip))) db.providers) w in
    ((elim r [ ok rows ↦ ok (by_pubkey rows []) | err e ↦ err e ]), w')

pub load_fresh-IsReadOnly :
    (s : Server) (pubkey : Text) (max_age : ℕ) → IsReadOnly (load_fresh s pubkey max_age)
unfolding load_fresh
load_fresh-IsReadOnly s pubkey max_age = record { same_db = λ w. refl; same_log = λ w. refl }

pub load_all-IsReadOnly : (s : Server) → IsReadOnly (load_all s)
unfolding load_all query_rows
load_all-IsReadOnly s = record { same_db = λ w. refl; same_log = λ w. refl }

-- `EndpointRepo`, as the use cases take it
abbrev pub endpoint_repo : Server → EndpointRepo
endpoint_repo s = record {
  load_all = load_all s;
  load_fresh = load_fresh s;
  all_reads = load_all-IsReadOnly s;
  fresh_reads = load_fresh-IsReadOnly s;
}

first_row_keyless :
    (rows : List ProviderRow) (ep : ProviderEndpoint)
    → first_row rows ≡ some ep
    → ep.storage.public_key ≡ []
unfolding first_row
first_row_keyless [] ep e = absurd (cc e)
first_row_keyless (r ∷ rs) ep e =
    ap (λ o. (elim o [ none ↦ [] | some x ↦ x.storage.public_key ])) (sym e)

answered :
    (f : Option Error) (rows : List ProviderRow) (ep : ProviderEndpoint)
    → scanned_row f rows ≡ ok (some ep)
    → first_row rows ≡ some ep
unfolding scanned_row
answered none rows ep e = grind (arith, e)
answered (some f) rows ep e = ground (arith, e)

-- No endpoint that `LoadFresh` finds has the public key of its storage node.
pub load_fresh-keyless :
    (s : Server) (pubkey : Text) (max_age : ℕ) (w : World) (ep : ProviderEndpoint)
    → (load_fresh s pubkey max_age w).0 ≡ ok (some ep)
    → ep.storage.public_key ≡ []
unfolding load_fresh
load_fresh-keyless s pubkey max_age w ep e =
    first_row_keyless _ ep (answered (s.fault w.tick) _ ep e)
