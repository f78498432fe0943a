-- ===== src/Discovery/StorageContracts/Relations.antt =====
-- Which relations come out of the scan of the wallets.
use mathlib.Core.List.{Memᴰ}
use mathlib.Core.List.Memᴰ
use mytonprovider_agent.Common.{
  sym, ◌∙◌, ◌⊎◌, ◌≢◌, inl, inr, Bool-cases, All-map, ℕ, ◌≡◌, refl, Option, none, some, List, [],
  ◌∷◌, ◌++◌, arith, Text, text_eq, text_eq_iff, All, All-append,
}
use mytonprovider_agent.Common.Dict.{Dict, insert, lookup, lookup-insert}
use mytonprovider_agent.Domain.{Provider, StorageContract, ContractProviderRelation}
use mytonprovider_agent.Jobs.{ScanWalletsResult}
use mytonprovider_agent.Discovery.StorageContracts.{
  addr_to_pubkey, wallets_result, add_relation, relations_of, all_relations,
}

-- a wallet has the relation's provider address and its public key
abbrev pub HasWallet : List Provider → ContractProviderRelation → Type 0
HasWallet ws r =
    (w : Provider) × Memᴰ w ws
    × (w.address ≡ r.provider_address)
    × (w.public_key ≡ r.provider_pubkey)

-- a contract that names the provider address has the relation's address, bag and size
abbrev pub HasContract : List StorageContract → ContractProviderRelation → Type 0
HasContract cs r =
    (c : StorageContract) × Memᴰ c cs
    × Memᴰ r.provider_address c.providers
    × (c.address ≡ r.contract_addr)
    × (c.bag_id ≡ r.bag_id)
    × (c.size ≡ r.size)

-- No wallet has the address, or a relation pairs it with the contract.
abbrev pub IsCovered :
    List Provider → List ContractProviderRelation → StorageContract → Text → Type 0
IsCovered ws rs c a =
    All (λ w. w.address ≢ a) ws
    ⊎ ((r : ContractProviderRelation) × Memᴰ r rs
        × (r.contract_addr ≡ c.address)
        × (r.provider_address ≡ a))

-- Each relation of a result stands on a wallet and on a contract of the same result, and no pair of
-- a contract and a wallet that it names is left out.
abbrev pub ArePaired : List Provider → ScanWalletsResult → Type 0
ArePaired ws res =
    All (λ r. HasWallet ws r × HasContract res.contracts r) res.relations
    × All (λ c. All (IsCovered ws res.relations c) c.providers) res.contracts

-- what the map of the wallets has for an address, a wallet has
addr_to_pubkey_lem :
    (a k : Text) (ws : List Provider) (m : Dict Text)
    → lookup a (addr_to_pubkey ws m) ≡ some k
    → ((w : Provider) × Memᴰ w ws × (w.address ≡ a) × (w.public_key ≡ k)) ⊎ (lookup a m ≡ some k)
unfolding addr_to_pubkey
addr_to_pubkey_lem a k [] m e = inr e
addr_to_pubkey_lem a k (w ∷ ws) m e =
    elim (addr_to_pubkey_lem a k ws (insert w.address w.public_key m) e) [
      | inl (v, member, here, its_key) ↦ inl (v, Memᴰ.tail member, here, its_key)
      | inr here ↦
          let put = sym (lookup-insert w.address a w.public_key m) ∙ here in
          elim (Bool-cases (text_eq w.address a)) [
            | inl same ↦
                inl (w, Memᴰ.head refl, (text_eq_iff w.address a).0 same, ground (arith, put, same))
            | inr other ↦ inr (ground (arith, put, other))
          ]
    ]

module _ (ws : List Provider) where
  abbrev IsFrom : StorageContract → ContractProviderRelation → Type 0
  IsFrom c r =
      HasWallet ws r
      × Memᴰ r.provider_address c.providers
      × (c.address ≡ r.contract_addr)
      × (c.bag_id ≡ r.bag_id)
      × (c.size ≡ r.size)

  wallet_at :
      (a k : Text)
      → lookup a (addr_to_pubkey ws []) ≡ some k
      → (w : Provider) × Memᴰ w ws × (w.address ≡ a) × (w.public_key ≡ k)
  unfolding lookup
  wallet_at a k e = elim (addr_to_pubkey_lem a k ws [] e) [
    | inl found ↦ found
    | inr none_there ↦ absurd (cc none_there)
  ]

  add_relation-All :
      (c : StorageContract) (a : Text) (o : Option Text) (rest : List ContractProviderRelation)
      → lookup a (addr_to_pubkey ws []) ≡ o
      → Memᴰ a c.providers
      → All (IsFrom c) rest
      → All (IsFrom c) (add_relation c a o rest)
  unfolding add_relation
  add_relation-All c a none rest e named h = h
  add_relation-All c a (some k) rest e named h = ((wallet_at a k e, named, refl, refl, refl), h)

  relations_of-All :
      (c : StorageContract) (addrs : List Text)
      → ((a : Text) → Memᴰ a addrs → Memᴰ a c.providers)
      → All (IsFrom c) (relations_of (addr_to_pubkey ws []) c addrs)
  unfolding relations_of
  relations_of-All c [] named = tt
  relations_of-All c (a ∷ addrs) named =
      add_relation-All c a (lookup a (addr_to_pubkey ws [])) _ refl (named a (Memᴰ.head refl))
        (relations_of-All c addrs (λ b m. named b (Memᴰ.tail m)))

  all_relations-All :
      (cs : List StorageContract)
      → All (λ r. HasWallet ws r × HasContract cs r) (all_relations (addr_to_pubkey ws []) cs)
  unfolding all_relations
  all_relations-All [] = tt
  all_relations-All (c ∷ cs) =
      All-append _ _ _
        (All-map (IsFrom c) _
          (λ r x.
            let (h, named, at, bag, size) = x in (h, (c, Memᴰ.head refl, named, at, bag, size)))
          (relations_of (addr_to_pubkey ws []) c c.providers)
          (relations_of-All c c.providers (λ a m. m)))
        (All-map (λ r. HasWallet ws r × HasContract cs r) _
          (λ r x.
            let (d, m, named, at, bag, size) = x.1 in (x.0, (d, Memᴰ.tail m, named, at, bag, size)))
          (all_relations (addr_to_pubkey ws []) cs) (all_relations-All cs))

-- an address that the map does not have, no wallet has
no_wallet :
    (a : Text) (ws : List Provider) (m : Dict Text)
    → lookup a (addr_to_pubkey ws m) ≡ none
    → All (λ w. w.address ≢ a) ws × (lookup a m ≡ none)
unfolding addr_to_pubkey
no_wallet a [] m e = (tt, e)
no_wallet a (w ∷ ws) m e =
    let (others, gone) = no_wallet a ws (insert w.address w.public_key m) e in
    let put = sym (lookup-insert w.address a w.public_key m) ∙ gone in
    elim (Bool-cases (text_eq w.address a)) [
      | inl same ↦ absurd (ground (arith, put, same))
      | inr other ↦ (
        ((λ e. ground (arith, text_eq_iff w.address a, e, other)), others),
        ground (arith, put, other),
      )
    ]

module _ (ws : List Provider) where
  more :
      (xs ys : List ContractProviderRelation) (c : StorageContract)
      → ((r : ContractProviderRelation) → Memᴰ r xs → Memᴰ r ys)
      → (a : Text) → IsCovered ws xs c a
      → IsCovered ws ys c a
  more xs ys c f a (inl none_there) = inl none_there
  more xs ys c f a (inr (r, m, same, at)) = inr (r, f r m, same, at)

  add_relation-Memᴰ :
      (c : StorageContract) (a : Text) (o : Option Text) (rest : List ContractProviderRelation)
      (r : ContractProviderRelation)
      → Memᴰ r rest
      → Memᴰ r (add_relation c a o rest)
  unfolding add_relation
  add_relation-Memᴰ c a none rest r m = m
  add_relation-Memᴰ c a (some k) rest r m = Memᴰ.tail m

  add_relation-IsCovered :
      (c : StorageContract) (a : Text) (o : Option Text) (rest : List ContractProviderRelation)
      → lookup a (addr_to_pubkey ws []) ≡ o
      → IsCovered ws (add_relation c a o rest) c a
  unfolding add_relation
  add_relation-IsCovered c a none rest e = inl (no_wallet a ws [] e).0
  add_relation-IsCovered c a (some k) rest e = inr (_, Memᴰ.head refl, refl, refl)

  relations_of-IsCovered :
      (c : StorageContract) (addrs : List Text)
      → All (IsCovered ws (relations_of (addr_to_pubkey ws []) c addrs) c) addrs
  unfolding relations_of
  relations_of-IsCovered c [] = tt
  relations_of-IsCovered c (a ∷ addrs) =
      let o = lookup a (addr_to_pubkey ws []) in
      let rest = relations_of (addr_to_pubkey ws []) c addrs in
      (
        add_relation-IsCovered c a o rest refl,
        All-map (IsCovered ws rest c) _
            (more rest (add_relation c a o rest) c (add_relation-Memᴰ c a o rest)) addrs
            (relations_of-IsCovered c addrs),
      )

  all_relations-IsCovered :
      (cs : List StorageContract)
      → All (λ c. All (IsCovered ws (all_relations (addr_to_pubkey ws []) cs) c) c.providers) cs
  unfolding all_relations
  all_relations-IsCovered [] = tt
  all_relations-IsCovered (c ∷ cs) =
      let own = relations_of (addr_to_pubkey ws []) c c.providers in
      let others = all_relations (addr_to_pubkey ws []) cs in
      (
        All-map (IsCovered ws own c) _
            (more own (own ++ others) c (λ r m. Memᴰ.append_left others m)) c.providers
            (relations_of-IsCovered c c.providers),
        All-map _ _
            (λ d.
              All-map (IsCovered ws others d) (IsCovered ws (own ++ others) d)
                (more others (own ++ others) d (λ r m. Memᴰ.append_right own m)) d.providers)
            cs (all_relations-IsCovered cs),
      )

-- In the result of the scan_wallets cycle each relation pairs a published contract with a wallet
-- of the database: the wallet has the relation's provider address and public key, and the contract
-- names that address and has the relation's contract address, bag and size. For each address that a
-- published contract names there is such a relation, unless no wallet has that address.
pub wallets_result-ArePaired :
    (wallets : List Provider) (found : Dict StorageContract × List Provider) (order : List ℕ)
    → ArePaired wallets (wallets_result wallets found order)
unfolding wallets_result
wallets_result-ArePaired wallets found order =
    (all_relations-All wallets _, all_relations-IsCovered wallets _)
