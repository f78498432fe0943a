-- ===== src/Utils.antt =====
-- internal/lib/utils/utils.go.
pub mod BagIds
pub mod Retries
use mytonprovider_agent.Common.{
  ℕ, zero, suc, ◌+◌, Bool, true, false, ◌&&◌, ◌||◌, ◌==◌, List, [], ◌∷◌, leb, length, Text,
  if◌then◌else◌,
}
use mytonprovider_agent.Strings.{to_lower}
use mytonprovider_agent.World.{World, Act, Result, ok, err}

-- one turn of the loop after another; `last` is `err`. A pause of a second follows each failure.
try_from : Act (Unit {0}) → ℕ → Result (Unit {0}) → Act (Unit {0})
try_from f zero last w = (last, w)
try_from f (suc n) last w = elim (f w).0 [
  | ok a ↦ (ok tt, (f w).1)
  | err e ↦ try_from f n (err e) (record ((f w).1) { tick = (f w).1.tick + 1 })
]

-- TryNTimes; a count that is not positive is 0 here
unfoldable pub try_n_times : Act (Unit {0}) → ℕ → Act (Unit {0})
unfolding try_from
try_n_times f n = try_from f n (ok tt)

is_hex_digit : ℕ → Bool
is_hex_digit c = (leb b'0' c && leb c b'9') || (leb b'a' c && leb c b'f')

-- the loop over the 64 bytes
all_hex : Text → Bool
unfolding is_hex_digit
all_hex [] = true
all_hex (c ∷ s) = let rest = all_hex s in if is_hex_digit c then rest else false

-- ValidateBagID
unfoldable pub validate_bag_id : Text → Bool
unfolding all_hex to_lower
validate_bag_id s = if length s == 64 then all_hex (to_lower s) else false
