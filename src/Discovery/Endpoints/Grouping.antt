-- ===== src/Discovery/Endpoints/Grouping.antt =====
-- Which contract and which bags the endpoint cycle takes for a provider.
use mytonprovider_agent.Common.{
  ◌≡◌, refl, Option, none, some, List, [], ◌∷◌, ◌++◌, Text, text_eq, text_eq_iff, arith,
  if◌then◌else◌,
}
use mathlib.Core.List.{append-nil, append_assoc}
use mytonprovider_agent.Common.Dict.{Dict, lookup, insert, has, get_or, lookup-insert}
use mytonprovider_agent.Domain.{ContractProviderRelation}
use mytonprovider_agent.Discovery.Endpoints.{contract_by_pubkey, bags_by_pubkey}

-- the contract of the first relation of a key
abbrev pub first_contract : Text → List ContractProviderRelation → Option Text
first_contract k [] = none
first_contract k (r ∷ rs) =
    let rest = first_contract k rs in
    if text_eq r.provider_pubkey k then some r.contract_addr else rest

-- the bags of all relations of a key, in order
abbrev pub bags_of : Text → List ContractProviderRelation → List Text
bags_of k [] = []
bags_of k (r ∷ rs) =
    let rest = bags_of k rs in if text_eq r.provider_pubkey k then r.bag_id ∷ rest else rest

abbrev or_else : Option Text → Option Text → Option Text
or_else none o = o
or_else (some x) o = some x

contract_step :
    (k : Text) (r : ContractProviderRelation) (m : Dict Text) (o : Option Text)
    → lookup r.provider_pubkey m ≡ o
    → lookup k (if has r.provider_pubkey m then m else insert r.provider_pubkey r.contract_addr m)
      ≡ or_else (lookup k m) (if text_eq r.provider_pubkey k then some r.contract_addr else none)
contract_step k r m none e =
    ground
      (arith, text_eq_iff r.provider_pubkey k, lookup-insert r.provider_pubkey k r.contract_addr m)
contract_step k r m (some x) e = ground (arith, text_eq_iff r.provider_pubkey k)

contract_by_pubkey-or :
    (k : Text) (rs : List ContractProviderRelation) (m : Dict Text)
    → lookup k (contract_by_pubkey rs m) ≡ or_else (lookup k m) (first_contract k rs)
unfolding contract_by_pubkey
contract_by_pubkey-or k [] m = ground arith
contract_by_pubkey-or k (r ∷ rs) m = ground (
  arith,
  contract_step k r m (lookup r.provider_pubkey m) refl,
  contract_by_pubkey-or k rs
      (if has r.provider_pubkey m then m else insert r.provider_pubkey r.contract_addr m),
)

bags_by_pubkey-append :
    (k : Text) (rs : List ContractProviderRelation) (m : Dict (List Text))
    → get_or k [] (bags_by_pubkey rs m) ≡ get_or k [] m ++ bags_of k rs
unfolding bags_by_pubkey
bags_by_pubkey-append k [] m = rw append-nil
bags_by_pubkey-append k (r ∷ rs) m =
    let bags = get_or r.provider_pubkey [] m ++ r.bag_id ∷ [] in
    ground (
      arith,
      text_eq_iff r.provider_pubkey k,
      lookup-insert r.provider_pubkey k bags m,
      bags_by_pubkey-append k rs (insert r.provider_pubkey bags m),
      append_assoc (get_or k [] m) (r.bag_id ∷ []) (bags_of k rs),
    )

-- A provider's endpoint is asked for through the contract of its first relation, and its storage
-- is searched by the bags of all its relations, in their order.
pub grouping :
    (k : Text) (rs : List ContractProviderRelation)
    → (lookup k (contract_by_pubkey rs []) ≡ first_contract k rs)
      × (get_or k [] (bags_by_pubkey rs []) ≡ bags_of k rs)
unfolding lookup
grouping k rs = (contract_by_pubkey-or k rs [], bags_by_pubkey-append k rs [])
