-- ===== src/Dht/Overlay.antt =====
-- `ResolveStorageWithOverlay` of dht.go.
pub mod Found
use mytonprovider_agent.Common.{
  ℕ, ◌*◌, ◌/◌, Option, none, some, List, [], ◌∷◌, ltb, leb, length, take, arrange, Text, text_eq,
  if◌then◌else◌,
}
use mytonprovider_agent.Domain.{Endpoint}
use mytonprovider_agent.Strings.Hex.{decode_hex}
use mytonprovider_agent.World.{Act, Result, ok, err, failed, pure, raise, ask, attempt_or, ◌>>=◌}
use mytonprovider_agent.Dht.{Address, NodeId, ed25519, other_key, Dht}

-- `max(1, n)`
abbrev at_least_one : ℕ → ℕ
at_least_one n = if leb 1 n then n else 1

unfoldable pub bags_to_check : ℕ → ℕ
bags_to_check n =
    if ltb 100 n
    then at_least_one (n * 10 / 100)
    else if ltb 5 n
    then at_least_one (n * 20 / 100)
    else n

-- `for _, addr := range addrList.Addresses`
unfoldable pub address_of : Text → Text → List Address → Option Endpoint
unfolding text_eq
address_of ip key [] = none
address_of ip key (a ∷ addrs) =
    let rest = address_of ip key addrs in
    if text_eq a.ip ip then some (record { public_key = key; ip = a.ip; port = a.port }) else rest

abbrev pub or_empty : {A : Type 0} → Option (List A) → List A
or_empty none = []
or_empty (some xs) = xs

-- the addresses of a node whose key could be hashed
unfoldable pub node_addresses : Dht → Text → Result (List ℕ) → Act (Option Endpoint)
unfolding attempt_or ask pure address_of
node_addresses d ip (err e) = pure none
node_addresses d ip (ok id) =
    attempt_or (ask (d.find_addresses id)) (pure none)
      (λ found. pure (address_of ip found.1 (or_empty found.0)))

unfoldable pub try_node : Dht → Text → NodeId → Act (Option Endpoint)
unfolding node_addresses pure
try_node d ip (ed25519 key) = node_addresses d ip (d.hash_key key)
try_node d ip other_key = pure none

-- an endpoint that was found ends the search
unfoldable pub or_else : Act (Option Endpoint) → Option Endpoint → Act (Option Endpoint)
unfolding pure
or_else rest (some ep) = pure (some ep)
or_else rest none = rest

-- `for _, node := range nodesList.List`
unfoldable pub try_nodes : Dht → Text → List NodeId → Act (Option Endpoint)
unfolding ◌>>=◌ pure try_node or_else
try_nodes d ip [] = pure none
try_nodes d ip (n ∷ nodes) = try_node d ip n >>= or_else (try_nodes d ip nodes)

unfoldable pub try_bag : Dht → Text → Option (List ℕ) → Act (Option Endpoint)
unfolding attempt_or ask pure try_nodes
try_bag d ip none = pure none
try_bag d ip (some bag) =
    attempt_or (ask (d.find_overlay_nodes bag)) (pure none)
      (λ nodes. try_nodes d ip (or_empty nodes))

-- the loop over the bags
unfoldable pub try_bags : Dht → Text → List Text → Act (Option Endpoint)
unfolding ◌>>=◌ pure try_bag or_else
try_bags d ip [] = pure none
try_bags d ip (b ∷ bags) = try_bag d ip (decode_hex b) >>= or_else (try_bags d ip bags)

-- the bags that are looked at, after the shuffle
abbrev pub drawn_bags : List ℕ → List Text → List Text
drawn_bags order bags = take (bags_to_check (length bags)) (arrange order bags)

unfoldable pub found_or_fail : Option Endpoint → Act Endpoint
unfolding pure raise
found_or_fail (some ep) = pure ep
found_or_fail none = raise (failed "storage not found via overlay")

unfoldable pub resolve_storage_with_overlay : Dht → Text → List Text → Act Endpoint
unfolding ◌>>=◌ ask raise try_bags found_or_fail bags_to_check
resolve_storage_with_overlay d ip [] = raise (failed "no bags provided")
resolve_storage_with_overlay d ip (b ∷ bags) = do
  order ← ask (λ t. ok (d.shuffle t))
  found ← try_bags d ip (drawn_bags order (b ∷ bags))
  found_or_fail found
