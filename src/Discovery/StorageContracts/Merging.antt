-- ===== src/Discovery/StorageContracts/Merging.antt =====
-- What the merge of the wallets' contracts collects.
use mytonprovider_agent.Common.{
  ℕ, ◌≡◌, refl, Option, none, some, List, [], ◌∷◌, ◌++◌, arith, if◌then◌else◌, Text, text_eq,
  text_eq_iff,
}
use mathlib.Core.List.{append-nil, append_assoc}
use Prim.Native.Nat.{max}
use mytonprovider_agent.Common.Dict.{Dict, lookup, lookup-insert}
use mytonprovider_agent.Domain.{StorageContract}
use mytonprovider_agent.Discovery.StorageContracts.{join_contract, merge_contract, merge_contracts}

-- the providers and the last LT that a merged map holds for an address
abbrev pub providers_at : Text → Dict StorageContract → List Text
providers_at a m = elim (lookup a m) [ none ↦ [] | some c ↦ c.providers ]

abbrev pub last_lt_at : Text → Dict StorageContract → ℕ
last_lt_at a m = elim (lookup a m) [ none ↦ 0 | some c ↦ c.last_lt ]

-- the same, read off the list of scanned contracts
abbrev pub providers_of : Text → List StorageContract → List Text
providers_of a [] = []
providers_of a (c ∷ cs) =
    let rest = providers_of a cs in if text_eq c.address a then c.providers ++ rest else rest

abbrev pub last_lt_of : Text → List StorageContract → ℕ
last_lt_of a [] = 0
last_lt_of a (c ∷ cs) =
    let rest = last_lt_of a cs in if text_eq c.address a then max c.last_lt rest else rest

merge_one :
    (a : Text) (c : StorageContract) (m : Dict StorageContract) (o : Option StorageContract)
    → lookup c.address m ≡ o
    → (providers_at a (merge_contract c m)
        ≡ (if text_eq c.address a then providers_at a m ++ c.providers else providers_at a m))
      × (last_lt_at a (merge_contract c m)
          ≡ (if text_eq c.address a then max (last_lt_at a m) c.last_lt else last_lt_at a m))
unfolding merge_contract
merge_one a c m none e = ground (arith, text_eq_iff c.address a, lookup-insert c.address a c m)
merge_one a c m (some x) e =
    ground (arith, text_eq_iff c.address a, lookup-insert c.address a (join_contract x c) m)

-- After the merge an address has the providers of all its contracts, in the order of the scan, and
-- the largest of their LTs; nothing is lost, and nothing of another address is mixed in.
pub merge_contracts_lem :
    (a : Text) (cs : List StorageContract) (m : Dict StorageContract)
    → (providers_at a (merge_contracts cs m) ≡ providers_at a m ++ providers_of a cs)
      × (last_lt_at a (merge_contracts cs m) ≡ max (last_lt_at a m) (last_lt_of a cs))
unfolding merge_contracts
merge_contracts_lem a [] m = (rw append-nil, omega arith)
merge_contracts_lem a (c ∷ cs) m =
    let m' = merge_contract c m in
    ground (
      arith,
      merge_one a c m (lookup c.address m) refl,
      merge_contracts_lem a cs (merge_contract c m),
      append_assoc (providers_at a m) c.providers (providers_of a cs),
    )
