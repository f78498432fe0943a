-- ===== src/Dht/Overlay/Found.antt =====
-- What `ResolveStorageWithOverlay` finds, and how many bags it looks at.
use mytonprovider_agent.Common.{
  ℕ, ◌≤◌, ◌*◌, ◌≡◌, Option, none, some, List, [], ◌∷◌, Text, text_eq, text_eq_iff, arith,
  Bool-cases, inl, inr,
}
use mytonprovider_agent.Domain.{Endpoint}
use mytonprovider_agent.Strings.Hex.{decode_hex}
use mytonprovider_agent.World.{Act, Result, ok, err, pure, ask}
use mytonprovider_agent.World.Actions.Ensures.{
  Ensures, pure-Ensures, raise-Ensures, bind-Ensures, bind_any-Ensures, attempt_or-Ensures,
}
use mytonprovider_agent.Dht.{Address, NodeId, ed25519, other_key, Dht}
use mytonprovider_agent.Dht.Overlay.{
  drawn_bags, bags_to_check, address_of, or_empty, node_addresses, try_node, or_else, try_nodes,
  try_bag, try_bags, found_or_fail, resolve_storage_with_overlay,
}

-- nothing was found, or an endpoint at `ip`
abbrev pub IsAt : Text → Option Endpoint → Type 0
IsAt ip none = Unit {0}
IsAt ip (some ep) = ep.ip ≡ ip

address_of-IsAt : (ip key : Text) (addrs : List Address) → IsAt ip (address_of ip key addrs)
unfolding address_of
address_of-IsAt ip key [] = tt
address_of-IsAt ip key (a ∷ addrs) = elim (Bool-cases (text_eq a.ip ip)) [
  | inl same ↦ rw same ((text_eq_iff a.ip ip).0 same)
  | inr other ↦ rw other (address_of-IsAt ip key addrs)
]

module _ (d : Dht) (ip : Text) where
  node_addresses-IsAt : (r : Result (List ℕ)) → Ensures (IsAt ip) (node_addresses d ip r)
  unfolding node_addresses
  node_addresses-IsAt (err e) = pure-Ensures (IsAt ip) none tt
  node_addresses-IsAt (ok id) =
      attempt_or-Ensures (IsAt ip) (ask (d.find_addresses id)) (pure none) _
        (pure-Ensures (IsAt ip) none tt)
        (λ found. pure-Ensures (IsAt ip) _ (address_of-IsAt ip found.1 (or_empty found.0)))

  try_node-IsAt : (n : NodeId) → Ensures (IsAt ip) (try_node d ip n)
  unfolding try_node
  try_node-IsAt (ed25519 key) = node_addresses-IsAt (d.hash_key key)
  try_node-IsAt other_key = pure-Ensures (IsAt ip) none tt

  or_else-IsAt :
      (rest : Act (Option Endpoint))
      → Ensures (IsAt ip) rest
      → (o : Option Endpoint) → IsAt ip o
      → Ensures (IsAt ip) (or_else rest o)
  unfolding or_else
  or_else-IsAt rest h none e = h
  or_else-IsAt rest h (some ep) e = pure-Ensures (IsAt ip) (some ep) e

  try_nodes-IsAt : (nodes : List NodeId) → Ensures (IsAt ip) (try_nodes d ip nodes)
  unfolding try_nodes
  try_nodes-IsAt [] = pure-Ensures (IsAt ip) none tt
  try_nodes-IsAt (n ∷ nodes) =
      bind-Ensures (IsAt ip) (IsAt ip) (try_node d ip n) (or_else (try_nodes d ip nodes))
        (try_node-IsAt n) (or_else-IsAt (try_nodes d ip nodes) (try_nodes-IsAt nodes))

  try_bag-IsAt : (bag : Option (List ℕ)) → Ensures (IsAt ip) (try_bag d ip bag)
  unfolding try_bag
  try_bag-IsAt none = pure-Ensures (IsAt ip) none tt
  try_bag-IsAt (some bag) =
      attempt_or-Ensures (IsAt ip) (ask (d.find_overlay_nodes bag)) (pure none) _
        (pure-Ensures (IsAt ip) none tt) (λ nodes. try_nodes-IsAt (or_empty nodes))

  try_bags-IsAt : (bags : List Text) → Ensures (IsAt ip) (try_bags d ip bags)
  unfolding try_bags
  try_bags-IsAt [] = pure-Ensures (IsAt ip) none tt
  try_bags-IsAt (b ∷ bags) =
      bind-Ensures (IsAt ip) (IsAt ip) (try_bag d ip (decode_hex b)) (or_else (try_bags d ip bags))
        (try_bag-IsAt (decode_hex b)) (or_else-IsAt (try_bags d ip bags) (try_bags-IsAt bags))

  found_or_fail-IsAt :
      (o : Option Endpoint) → IsAt ip o → Ensures (λ ep. ep.ip ≡ ip) (found_or_fail o)
  unfolding found_or_fail
  found_or_fail-IsAt none e = raise-Ensures (λ ep. ep.ip ≡ ip) _
  found_or_fail-IsAt (some ep) e = pure-Ensures (λ ep. ep.ip ≡ ip) ep e

-- An endpoint that ResolveStorageWithOverlay returns has the IP of the provider it was asked for.
pub overlay-Ensures :
    (d : Dht) (ip : Text) (bags : List Text)
    → Ensures (λ ep. ep.ip ≡ ip) (resolve_storage_with_overlay d ip bags)
unfolding resolve_storage_with_overlay
overlay-Ensures d ip [] = raise-Ensures (λ ep. ep.ip ≡ ip) _
overlay-Ensures d ip (b ∷ bags) =
    bind_any-Ensures (λ ep. ep.ip ≡ ip) (ask (λ t. ok (d.shuffle t))) _
      λ order.
        bind-Ensures (λ ep. ep.ip ≡ ip) (IsAt ip) (try_bags d ip (drawn_bags order (b ∷ bags)))
          found_or_fail (try_bags-IsAt d ip (drawn_bags order (b ∷ bags))) (found_or_fail-IsAt d ip)

-- The overlay search of n bags looks at no more than n of them, at no more than a tenth if there
-- are more than 100, at no more than a fifth if there are more than 5, and at one at least.
bags_to_check_bounded :
    (n : ℕ)
    → (bags_to_check n ≤ n)
      × (1 ≤ n → 1 ≤ bags_to_check n)
      × (101 ≤ n → bags_to_check n * 10 ≤ n)
      × (6 ≤ n → bags_to_check n * 5 ≤ n)
unfolding bags_to_check
bags_to_check_bounded n = ground arith
