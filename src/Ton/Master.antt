-- ===== src/Ton/Master.antt =====
-- `Scan` of internal/adapters/outbound/ton/master_scanner.go.
use mytonprovider_agent.Common.{
  ℕ, Bool, false, ◌==◌, Option, none, some, List, [], ◌∷◌, map, ltb, leb, length, Text, codes,
  is_empty, if◌then◌else◌, arrange,
}
use mytonprovider_agent.Common.Dict.{Dict, insert, has}
use mytonprovider_agent.Domain.{Provider}
use mytonprovider_agent.Strings.{to_lower, after_first, is_user_friendly}
use mytonprovider_agent.Strings.Hex.{decode_hex}
use mytonprovider_agent.World.{Act, ok, pure, ask, wrapping, ◌>>=◌}
use mytonprovider_agent.Lite.{Transaction}
use mytonprovider_agent.Lite.Transactions.{get_transactions}
use mytonprovider_agent.Ton.{Client}

abbrev pub tsp_registration_prefix : Text
tsp_registration_prefix = codes "tsp-"

-- `hex.DecodeString(pubkey)`, with the check of its length
unfoldable pub is_raw_key : Option (List ℕ) → Bool
is_raw_key none = false
is_raw_key (some raw) = length raw == 32

-- the key that stands after the prefix
unfoldable pub registered_key : Option Text → Option Text
unfolding to_lower decode_hex is_raw_key
registered_key none = none
registered_key (some tail) =
    let pubkey = to_lower tail in
    if is_empty tail
    then none
    else if length pubkey == 64
    then if is_raw_key (decode_hex pubkey) then some pubkey else none
    else none

-- the key that a transaction registers, if its source and its comment are as they must be
unfoldable pub registration : Transaction → Option Text
unfolding is_user_friendly after_first registered_key
registration tx =
    if is_user_friendly tx.from
    then registered_key (after_first tsp_registration_prefix tx.message)
    else none

abbrev pub registrant : Text → Transaction → Provider
registrant pubkey tx = record {
  public_key = pubkey;
  address = tx.from;
  lt = 0;
  registered_at = tx.created_at;
}

unfoldable pub add_registrant : Option Text → Transaction → Dict Provider → Dict Provider
add_registrant none tx unique = unique
add_registrant (some k) tx unique =
    if has k unique then unique else insert k (registrant k tx) unique

-- the loop over the transactions, with `unique` and `lastLT`
unfoldable pub scan_registrations : ℕ → List Transaction → Dict Provider → ℕ → Dict Provider × ℕ
unfolding registration add_registrant
scan_registrations from_lt [] unique last_lt = (unique, last_lt)
scan_registrations from_lt (tx ∷ txs) unique last_lt =
    scan_registrations from_lt txs
      (if leb tx.lt from_lt then unique else add_registrant (registration tx) tx unique)
      (if leb tx.lt from_lt then last_lt else if ltb last_lt tx.lt then tx.lt else last_lt)

-- `for _, p := range unique`
unfoldable pub list_providers : Client → ℕ → Dict Provider → Act (List Provider × ℕ)
unfolding ◌>>=◌ ask pure
list_providers c last_lt [] = pure ([], last_lt)
list_providers c last_lt (e ∷ unique) = ask (λ t. ok (c.range_order t)) >>= λ order.
    pure (map (λ x. x.1) (arrange order (e ∷ unique)), last_lt)

unfoldable pub scan_master_wallet : Client → Text → ℕ → Act (List Provider × ℕ)
unfolding ◌>>=◌ wrapping scan_registrations list_providers
scan_master_wallet c addr from_lt =
    wrapping "adapters.outbound.ton.MasterScanner.Scan: get transactions"
      (get_transactions c.api addr from_lt)
    >>= λ txs.
        let (unique, last_lt) = scan_registrations from_lt txs [] from_lt in
        list_providers c last_lt unique
