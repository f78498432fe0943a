-- ===== src/Postgres/Relations.antt =====
-- internal/adapters/outbound/postgres: contract.go and ipinfo.go.
use mytonprovider_agent.Common.{
  ◌≡◌, refl, ◌&&◌, not, Bool, false, Option, none, some, List, [], ◌∷◌, ◌++◌, Text, text_eq,
  text_eq_iff, is_empty, if◌then◌else◌, arith, All, All-append, Bool-cases, inl, inr, ◌⊎◌, String,
}
use mytonprovider_agent.Domain.{
  ContractProviderRelation, ProviderEndpoint, no_endpoint, no_provider_endpoint,
}
use mytonprovider_agent.World.{World, ProviderRow, ContractRow, Act, ok, err, Error, wrap, no_rows}
use mytonprovider_agent.World.Actions.Keeps.{IsReadOnly}
use mytonprovider_agent.Ports.{ContractRepo, IpInfoRepo}
use mytonprovider_agent.Postgres.{Server, query_rows}
use mytonprovider_agent.Postgres.Endpoints.{or_empty}
use mathlib.Core.List.{Memᴰ}

abbrev relation_of : ContractRow → ProviderRow → ContractProviderRelation
relation_of c p = record {
  contract_addr = c.address;
  provider_pubkey = p.public_key;
  provider_address = c.provider_address;
  bag_id = c.bag_id;
  size = c.size;
}

-- `JOIN providers.providers p ON p.address = sc.provider_address`, for one contract
join_one : ContractRow → List ProviderRow → List ContractProviderRelation
join_one c [] = []
join_one c (p ∷ ps) =
    let rest = join_one c ps in
    if text_eq p.address c.provider_address then relation_of c p ∷ rest else rest

join : List ContractRow → List ProviderRow → List ContractProviderRelation
unfolding join_one
join [] ps = []
join (c ∷ cs) ps = join_one c ps ++ join cs ps

unfoldable pub get_active_relations : Server → Act (List ContractProviderRelation)
unfolding query_rows join
get_active_relations s =
    query_rows s "postgres.ContractRepo.GetActiveRelations"
      (λ db. join db.storage_contracts db.providers)

-- `length(ip) > 0 AND (ip_info = '{}'::jsonb OR ip_info->>'ip' <> ip)`; a null is no match
needs_info : Option Text → Option (Option Text) → Bool
needs_info none info = false
needs_info (some ip) none = false
needs_info (some ip) (some none) = not (is_empty ip)
needs_info (some ip) (some (some known)) = not (is_empty ip) && not (text_eq known ip)

-- the rows that match, with their IP
ips_of : List ProviderRow → List ProviderEndpoint
unfolding needs_info
ips_of [] = []
ips_of (r ∷ rs) =
    let rest = ips_of rs in
    if needs_info r.ip r.ip_info
    then record no_provider_endpoint {
      public_key = r.public_key;
      provider = record no_endpoint { ip = or_empty r.ip };
    }
      ∷ rest
    else rest

unfoldable pub get_providers_ips : Server → Act (List ProviderEndpoint)
unfolding query_rows ips_of
get_providers_ips s = query_rows s "postgres.IPInfoRepo.GetProvidersIPs" (λ db. ips_of db.providers)

pub get_active_relations-IsReadOnly : (s : Server) → IsReadOnly (get_active_relations s)
unfolding get_active_relations query_rows
get_active_relations-IsReadOnly s = record { same_db = λ w. refl; same_log = λ w. refl }

pub get_providers_ips-IsReadOnly : (s : Server) → IsReadOnly (get_providers_ips s)
unfolding get_providers_ips query_rows
get_providers_ips-IsReadOnly s = record { same_db = λ w. refl; same_log = λ w. refl }

-- `ContractRepo` and `IPInfoRepo`, as the use cases take them
abbrev pub contract_repo : Server → ContractRepo
contract_repo s = record {
  get_active_relations = get_active_relations s;
  relations_reads = get_active_relations-IsReadOnly s;
}

abbrev pub ip_info_repo : Server → IpInfoRepo
ip_info_repo s = record {
  get_providers_ips = get_providers_ips s;
  ips_reads = get_providers_ips-IsReadOnly s;
}

-- the relation comes from a row of each table, and the two name the same provider
pub record IsJoined (cs : List ContractRow) (ps : List ProviderRow) (r : ContractProviderRelation)
    : Type 0 where
  pub contract : ContractRow
  pub provider : ProviderRow
  pub is_contract : Memᴰ contract cs
  pub is_provider : Memᴰ provider ps
  pub same_address : provider.address ≡ contract.provider_address
  pub is_relation : r ≡ relation_of contract provider

join_one-IsJoined :
    (cs : List ContractRow) (ps qs : List ProviderRow) (c : ContractRow)
    → Memᴰ c cs
    → ((q : ProviderRow) → Memᴰ q qs → Memᴰ q ps)
    → All (IsJoined cs ps) (join_one c qs)
unfolding join_one
join_one-IsJoined cs ps [] c hc up = tt
join_one-IsJoined cs ps (q ∷ qs) c hc up =
    let rest = join_one-IsJoined cs ps qs c hc (λ x m. up x (Memᴰ.tail m)) in
    elim (Bool-cases (text_eq q.address c.provider_address)) [
      | inl same ↦ rw same (
        record {
          contract = c;
          provider = q;
          is_contract = hc;
          is_provider = up q (Memᴰ.head refl);
          same_address = (text_eq_iff q.address c.provider_address).0 same;
          is_relation = refl;
        },
        rest,
      )
      | inr other ↦ rw other rest
    ]

join-IsJoined :
    (cs ds : List ContractRow) (ps : List ProviderRow)
    → ((d : ContractRow) → Memᴰ d ds → Memᴰ d cs)
    → All (IsJoined cs ps) (join ds ps)
unfolding join
join-IsJoined cs [] ps up = tt
join-IsJoined cs (d ∷ ds) ps up =
    All-append (IsJoined cs ps) _ _
      (join_one-IsJoined cs ps ps d (up d (Memᴰ.head refl)) (λ q m. m))
      (join-IsJoined cs ds ps (λ x m. up x (Memᴰ.tail m)))

rows_of :
    (f : Option Error) (op : String) (rows out : List ContractProviderRelation)
    → (elim f [ none ↦ ok rows | some no_rows ↦ ok [] | some e ↦ err (wrap op e) ]) ≡ ok out
    → (out ≡ rows) ⊎ (out ≡ [])
rows_of none op rows out e = inl (grind (arith, e))
rows_of (some x) op rows out e = ground (arith, e)

-- Whatever `GetActiveRelations` returns, each relation joins a stored contract with a stored
-- provider of the same address, and carries that provider's key and that contract's bag and size.
pub get_active_relations-IsJoined :
    (s : Server) (w : World) (out : List ContractProviderRelation)
    → (get_active_relations s w).0 ≡ ok out
    → All (IsJoined w.db.storage_contracts w.db.providers) out
unfolding get_active_relations query_rows
get_active_relations-IsJoined s w out e = elim (rows_of (s.fault w.tick) _ _ out e) [
  | inl all ↦
      rw all (join-IsJoined w.db.storage_contracts w.db.storage_contracts w.db.providers (λ d m. m))
  | inr none_at_all ↦ rw none_at_all tt
]
