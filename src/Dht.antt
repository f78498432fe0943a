-- ===== src/Dht.antt =====
-- internal/adapters/outbound/dht/dht.go: the endpoints of a provider, over the DHT of tonutils-go.
pub mod Resolve
pub mod Overlay
pub mod Reads
use mytonprovider_agent.Common.{ℕ, List, Option, Text, Bool}
use mytonprovider_agent.World.{Result}

-- an address of an `address.List`: `addr.IP.String()` and the port
pub record Address : Type 0 where
  pub ip : Text
  pub port : ℕ  -- int32

-- the key of an overlay node: an Ed25519 key, or another one
pub data NodeId : Type 0 where
  ed25519 : List ℕ → NodeId
  other_key : NodeId

-- What tonutils-go answers, at a tick where a call leaves the process. `hash_key` is `tl.Hash` of
-- an Ed25519 key, `parse_record` the ADNL address of a `transport.ProviderDHTRecord`. A list that
-- is nil is `none`. `shuffle` is the draw of `rand.Shuffle`.
pub record Dht : Type 0 where
  pub hash_key : List ℕ → Result (List ℕ)
  pub find_value : List ℕ → ℕ → Result (List ℕ)
  pub parse_record : List ℕ → Result (List ℕ)
  -- the addresses, and the public key of the node
  pub find_addresses : List ℕ → ℕ → Result (Option (List Address) × Text)
  pub find_overlay_nodes : List ℕ → ℕ → Result (Option (List NodeId))
  pub parse_addr : Text → Bool
  pub verify_storage_adnl_proof : List ℕ → Text → ℕ → Result (List ℕ)
  pub shuffle : ℕ → List ℕ
