-- ===== src/Dht/Resolve.antt =====
-- `Resolve`, `findProviderEndpoint` and `findStorageEndpoint` of dht.go.
use mytonprovider_agent.Common.{
  ℕ, zero, suc, ◌+◌, Option, none, some, List, [], ◌∷◌, Text, if◌then◌else◌,
}
use mytonprovider_agent.Domain.{Endpoint, ProviderEndpoint, no_provider_endpoint}
use mytonprovider_agent.World.{
  Act, Result, ok, err, panicked, failed, pure, raise, lift, ask, attempt_or, wrapping, ◌>>=◌,
}
use mytonprovider_agent.Dht.{Address, Dht}

abbrev endpoint_at : Text → Address → Endpoint
endpoint_at pub_key a = record { public_key = pub_key; ip = a.ip; port = a.port }

-- `l.Addresses[0]`; a nil list with a nil error is a nil dereference
unfoldable pub first_provider_address : Option (List Address) × Text → Act Endpoint
unfolding pure raise
first_provider_address (none, key) = raise panicked
first_provider_address (some [], key) = raise (failed "find addresses")
first_provider_address (some (a ∷ as'), key) = pure (endpoint_at key a)

unfoldable pub find_provider_endpoint : Dht → List ℕ → Act Endpoint
unfolding ◌>>=◌ lift ask wrapping first_provider_address
find_provider_endpoint d pubkey = do
  id ← wrapping "hash provider key" (lift (d.hash_key pubkey))
  value ← wrapping "find value in dht" (ask (d.find_value id))
  addr ← wrapping "parse dht record" (lift (d.parse_record value))
  l ← wrapping "find addresses" (ask (d.find_addresses addr))
  first_provider_address l

unfoldable pub first_storage_address : Option (List Address) × Text → Act Endpoint
unfolding pure raise
first_storage_address (some (a ∷ as'), key) = pure (endpoint_at key a)
first_storage_address (_, key) = raise (failed "no storage addresses found")

abbrev pub verify_storage_retries : ℕ
verify_storage_retries = 3

-- `utils.TryNTimes` around the call, with what the call found; `last` is the last answer
unfoldable pub try_proof : Dht → List ℕ → Text → ℕ → Result (List ℕ) → Act (List ℕ)
try_proof d pubkey addr zero last w = (last, w)
try_proof d pubkey addr (suc n) last w = elim (d.verify_storage_adnl_proof pubkey addr w.tick) [
  | ok proof ↦ (ok proof, record w { tick = w.tick + 1 })
  | err e ↦ try_proof d pubkey addr n (err e) (record w { tick = w.tick + 1 + 1 })
]

unfoldable pub find_storage_endpoint : Dht → List ℕ → Text → Act Endpoint
unfolding ◌>>=◌ raise ask wrapping try_proof first_storage_address
find_storage_endpoint d pubkey addr =
    if d.parse_addr addr
    then (wrapping "verify storage adnl proof"
          (try_proof d pubkey addr verify_storage_retries (ok []))
        >>= λ proof.
            wrapping "find storage addresses" (ask (d.find_addresses proof))
            >>= first_storage_address)
    else raise (failed "parse contract address")

unfoldable pub resolve : Dht → List ℕ → Text → Act ProviderEndpoint
unfolding ◌>>=◌ wrapping attempt_or find_provider_endpoint find_storage_endpoint pure
resolve d pubkey addr =
    wrapping "adapters.dht.Resolve" (find_provider_endpoint d pubkey) >>= λ provider.
    attempt_or (find_storage_endpoint d pubkey addr)
      (pure (record no_provider_endpoint { provider = provider }))
      (λ storage. pure (record no_provider_endpoint { provider = provider; storage = storage }))
