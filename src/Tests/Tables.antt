-- ===== src/Tests/Tables.antt =====
-- Runs of the repositories over small tables.
use mytonprovider_agent.Common.{◌≡◌, refl, [], ◌∷◌, codes, text_eq, All, arith}
use mytonprovider_agent.Domain.{Provider, ContractProviderRelation}
use mytonprovider_agent.Strings.{to_lower}
use mytonprovider_agent.World.{World, ProviderRow, ContractRow, ok}
use mytonprovider_agent.Postgres.Providers.{update_lt, HasCapital, update_lt-HasCapital}
use mytonprovider_agent.Postgres.Relations.{
  get_active_relations, IsJoined, get_active_relations-IsJoined,
}
use mytonprovider_agent.Tests.Samples.{key_a, world, server, row, provider}

abbrev advanced : Provider
advanced = provider key_a (codes "A") 90

abbrev capital_row : ProviderRow
capital_row = row (codes "AB") (codes "A")

capital_row-HasCapital : HasCapital capital_row
unfolding to_lower
capital_row-HasCapital = λ e. ground (arith, e)

abbrev capital_world : World
capital_world = record world { db = record (world.db) { providers = capital_row ∷ [] } }

update_lt-HasCapital_example :
    (update_lt server (provider (codes "AB") (codes "A") 90 ∷ []) capital_world).1.db.providers
    ≡ capital_world.db.providers
update_lt-HasCapital_example =
    update_lt-HasCapital server (provider (codes "AB") (codes "A") 90 ∷ []) capital_world
      (capital_row-HasCapital, tt)

abbrev contract_row : ContractRow
contract_row = record {
  address = codes "C";
  provider_address = codes "A";
  bag_id = codes "00ff";
  size = 1048576;
}

abbrev stored_world : World
stored_world = record world { db = record (world.db) { storage_contracts = contract_row ∷ [] } }

abbrev stored_relation : ContractProviderRelation
stored_relation = record {
  contract_addr = codes "C";
  provider_pubkey = key_a;
  provider_address = codes "A";
  bag_id = codes "00ff";
  size = 1048576;
}

stored_read : (get_active_relations server stored_world).0 ≡ ok (stored_relation ∷ [])
unfolding get_active_relations text_eq
stored_read = refl

get_active_relations-IsJoined_example :
    All (IsJoined (contract_row ∷ []) stored_world.db.providers) (stored_relation ∷ [])
get_active_relations-IsJoined_example =
    get_active_relations-IsJoined server stored_world (stored_relation ∷ []) stored_read
