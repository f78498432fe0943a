-- ===== src/Dht/Reads.antt =====
-- The resolver writes nothing, and what the overlay gives has the address of the provider.
use mytonprovider_agent.Common.{
  ℕ, zero, suc, ◌+◌, ◌≡◌, refl, Option, none, some, List, [], ◌∷◌, Text,
}
use mytonprovider_agent.Domain.{Endpoint}
use mytonprovider_agent.Strings.Hex.{decode_hex}
use mytonprovider_agent.World.{World, Act, Result, ok, err, pure, lift, ask, wrapping}
use mytonprovider_agent.World.Actions.Keeps.{
  IsReadOnly, pure-IsReadOnly, raise-IsReadOnly, lift-IsReadOnly, ask-IsReadOnly,
  wrapping-IsReadOnly, if-IsReadOnly, bind-IsReadOnly, attempt_or-IsReadOnly,
}
use mytonprovider_agent.Ports.{EndpointResolver}
use mytonprovider_agent.Dht.{Address, NodeId, ed25519, other_key, Dht}
use mytonprovider_agent.Dht.Resolve.{
  first_provider_address, find_provider_endpoint, first_storage_address, try_proof,
  find_storage_endpoint, resolve, verify_storage_retries,
}
use mytonprovider_agent.Dht.Overlay.{
  drawn_bags, or_empty, node_addresses, try_node, or_else, try_nodes, try_bag, try_bags,
  found_or_fail, resolve_storage_with_overlay,
}

first_provider_address-IsReadOnly :
    (l : Option (List Address) × Text) → IsReadOnly (first_provider_address l)
unfolding first_provider_address
first_provider_address-IsReadOnly (none, key) = raise-IsReadOnly _
first_provider_address-IsReadOnly (some [], key) = raise-IsReadOnly _
first_provider_address-IsReadOnly (some (a ∷ as'), key) = pure-IsReadOnly _

first_storage_address-IsReadOnly :
    (l : Option (List Address) × Text) → IsReadOnly (first_storage_address l)
unfolding first_storage_address
first_storage_address-IsReadOnly (none, key) = raise-IsReadOnly _
first_storage_address-IsReadOnly (some [], key) = raise-IsReadOnly _
first_storage_address-IsReadOnly (some (a ∷ as'), key) = pure-IsReadOnly _

try_proof_unwritten :
    (d : Dht) (pubkey : List ℕ) (addr : Text) (n : ℕ) (last : Result (List ℕ)) (w : World)
    → ((try_proof d pubkey addr n last w).1.db ≡ w.db)
      × ((try_proof d pubkey addr n last w).1.log ≡ w.log)
unfolding try_proof
try_proof_unwritten d pubkey addr zero last w = (refl, refl)
try_proof_unwritten d pubkey addr (suc n) last w =
    elim (d.verify_storage_adnl_proof pubkey addr w.tick)
      as (λ r.
        let after : Result (List ℕ) × World = elim r [
          | ok proof ↦ (ok proof, record w { tick = w.tick + 1 })
          | err e ↦ try_proof d pubkey addr n (err e) (record w { tick = w.tick + 1 + 1 })
        ] in
        (after.1.db ≡ w.db) × (after.1.log ≡ w.log)) [
          | ok proof ↦ (refl, refl)
          | err e ↦ try_proof_unwritten d pubkey addr n (err e) (record w { tick = w.tick + 1 + 1 })
        ]

try_proof-IsReadOnly :
    (d : Dht) (pubkey : List ℕ) (addr : Text) (n : ℕ) (last : Result (List ℕ))
    → IsReadOnly (try_proof d pubkey addr n last)
try_proof-IsReadOnly d pubkey addr n last = record {
  same_db = λ w. (try_proof_unwritten d pubkey addr n last w).0;
  same_log = λ w. (try_proof_unwritten d pubkey addr n last w).1;
}

asked-IsReadOnly {ℓ} :
    {A : Type ℓ} (op : Prim.Native.String.String) (f : ℕ → Result A)
    → IsReadOnly (wrapping op (ask f))
asked-IsReadOnly op f = wrapping-IsReadOnly op (ask f) (ask-IsReadOnly f)

lifted-IsReadOnly {ℓ} :
    {A : Type ℓ} (op : Prim.Native.String.String) (r : Result A) → IsReadOnly (wrapping op (lift r))
lifted-IsReadOnly op r = wrapping-IsReadOnly op (lift r) (lift-IsReadOnly r)

find_provider_endpoint-IsReadOnly :
    (d : Dht) (pubkey : List ℕ) → IsReadOnly (find_provider_endpoint d pubkey)
unfolding find_provider_endpoint
find_provider_endpoint-IsReadOnly d pubkey =
    bind-IsReadOnly (wrapping _ (lift (d.hash_key pubkey))) _
      (lifted-IsReadOnly _ (d.hash_key pubkey))
      λ id.
        bind-IsReadOnly (wrapping _ (ask (d.find_value id))) _
          (asked-IsReadOnly _ (d.find_value id))
          λ value.
            bind-IsReadOnly (wrapping _ (lift (d.parse_record value))) _
              (lifted-IsReadOnly _ (d.parse_record value))
              λ addr.
                bind-IsReadOnly (wrapping _ (ask (d.find_addresses addr))) first_provider_address
                  (asked-IsReadOnly _ (d.find_addresses addr)) first_provider_address-IsReadOnly

find_storage_endpoint-IsReadOnly :
    (d : Dht) (pubkey : List ℕ) (addr : Text) → IsReadOnly (find_storage_endpoint d pubkey addr)
unfolding find_storage_endpoint
find_storage_endpoint-IsReadOnly d pubkey addr =
    if-IsReadOnly _ _ _
      (bind-IsReadOnly (wrapping _ (try_proof d pubkey addr verify_storage_retries (ok []))) _
        (wrapping-IsReadOnly _ (try_proof d pubkey addr verify_storage_retries (ok []))
          (try_proof-IsReadOnly d pubkey addr verify_storage_retries (ok [])))
        λ proof.
          bind-IsReadOnly (wrapping _ (ask (d.find_addresses proof))) first_storage_address
            (asked-IsReadOnly _ (d.find_addresses proof)) first_storage_address-IsReadOnly)
      (raise-IsReadOnly _)

pub resolve-IsReadOnly :
    (d : Dht) (pubkey : List ℕ) (addr : Text) → IsReadOnly (resolve d pubkey addr)
unfolding resolve
resolve-IsReadOnly d pubkey addr =
    bind-IsReadOnly (wrapping _ (find_provider_endpoint d pubkey)) _
      (wrapping-IsReadOnly _ (find_provider_endpoint d pubkey)
        (find_provider_endpoint-IsReadOnly d pubkey))
      λ provider.
        attempt_or-IsReadOnly (find_storage_endpoint d pubkey addr) (pure _) _
          (find_storage_endpoint-IsReadOnly d pubkey addr) (pure-IsReadOnly _)
          (λ s. pure-IsReadOnly _)

node_addresses-IsReadOnly :
    (d : Dht) (ip : Text) (r : Result (List ℕ)) → IsReadOnly (node_addresses d ip r)
unfolding node_addresses
node_addresses-IsReadOnly d ip (err e) = pure-IsReadOnly _
node_addresses-IsReadOnly d ip (ok id) =
    attempt_or-IsReadOnly (ask (d.find_addresses id)) (pure none) _ (ask-IsReadOnly _)
      (pure-IsReadOnly _) (λ found. pure-IsReadOnly _)

try_node-IsReadOnly : (d : Dht) (ip : Text) (n : NodeId) → IsReadOnly (try_node d ip n)
unfolding try_node
try_node-IsReadOnly d ip (ed25519 key) = node_addresses-IsReadOnly d ip (d.hash_key key)
try_node-IsReadOnly d ip other_key = pure-IsReadOnly _

or_else-IsReadOnly :
    (rest : Act (Option Endpoint))
    → IsReadOnly rest
    → (o : Option Endpoint) → IsReadOnly (or_else rest o)
unfolding or_else
or_else-IsReadOnly rest h none = h
or_else-IsReadOnly rest h (some ep) = pure-IsReadOnly _

try_nodes-IsReadOnly :
    (d : Dht) (ip : Text) (nodes : List NodeId) → IsReadOnly (try_nodes d ip nodes)
unfolding try_nodes
try_nodes-IsReadOnly d ip [] = pure-IsReadOnly _
try_nodes-IsReadOnly d ip (n ∷ nodes) =
    bind-IsReadOnly (try_node d ip n) (or_else (try_nodes d ip nodes)) (try_node-IsReadOnly d ip n)
      (or_else-IsReadOnly _ (try_nodes-IsReadOnly d ip nodes))

try_bag-IsReadOnly : (d : Dht) (ip : Text) (bag : Option (List ℕ)) → IsReadOnly (try_bag d ip bag)
unfolding try_bag
try_bag-IsReadOnly d ip none = pure-IsReadOnly _
try_bag-IsReadOnly d ip (some bag) =
    attempt_or-IsReadOnly (ask (d.find_overlay_nodes bag)) (pure none) _ (ask-IsReadOnly _)
      (pure-IsReadOnly _) (λ nodes. try_nodes-IsReadOnly d ip (or_empty nodes))

try_bags-IsReadOnly : (d : Dht) (ip : Text) (bags : List Text) → IsReadOnly (try_bags d ip bags)
unfolding try_bags
try_bags-IsReadOnly d ip [] = pure-IsReadOnly _
try_bags-IsReadOnly d ip (b ∷ bags) =
    bind-IsReadOnly (try_bag d ip (decode_hex b)) (or_else (try_bags d ip bags))
      (try_bag-IsReadOnly d ip (decode_hex b))
      (or_else-IsReadOnly _ (try_bags-IsReadOnly d ip bags))

found_or_fail-IsReadOnly : (o : Option Endpoint) → IsReadOnly (found_or_fail o)
unfolding found_or_fail
found_or_fail-IsReadOnly none = raise-IsReadOnly _
found_or_fail-IsReadOnly (some ep) = pure-IsReadOnly _

pub overlay-IsReadOnly :
    (d : Dht) (ip : Text) (bags : List Text) → IsReadOnly (resolve_storage_with_overlay d ip bags)
unfolding resolve_storage_with_overlay
overlay-IsReadOnly d ip [] = raise-IsReadOnly _
overlay-IsReadOnly d ip (b ∷ bags) =
    bind-IsReadOnly (ask (λ t. ok (d.shuffle t))) _ (ask-IsReadOnly _) λ order.
      bind-IsReadOnly (try_bags d ip (drawn_bags order (b ∷ bags))) found_or_fail
        (try_bags-IsReadOnly d ip (drawn_bags order (b ∷ bags))) found_or_fail-IsReadOnly

-- The resolver that the discovery use case gets.
abbrev pub endpoint_resolver : Dht → EndpointResolver
endpoint_resolver d = record {
  resolve = resolve d;
  resolve_storage_with_overlay = resolve_storage_with_overlay d;
  resolve_reads = resolve-IsReadOnly d;
  overlay_reads = overlay-IsReadOnly d;
}
