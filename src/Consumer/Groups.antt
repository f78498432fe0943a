-- ===== src/Consumer/Groups.antt =====
-- `EnsureGroup` of internal/adapters/inbound/redisstream/groups.go.
use mytonprovider_agent.Common.{
  ℕ, Bool, true, false, Option, none, some, String, Text, codes, if◌then◌else◌,
}
use mytonprovider_agent.Strings.{after_first}
use mytonprovider_agent.World.{Act, ok, failed, wrap, pure, raise, ask, ◌>>=◌}

-- `strings.Contains(err.Error(), "BUSYGROUP")`
unfoldable pub is_busy_group : Text → Bool
unfolding after_first
is_busy_group message = elim (after_first (codes "BUSYGROUP") message) [
  | none ↦ false
  | some rest ↦ true
]

unfoldable pub judge_group : Option Text → Act (Unit {0})
unfolding pure raise is_busy_group
judge_group none = pure tt
judge_group (some message) =
    if is_busy_group message
    then pure tt
    else raise (wrap "redisstream.EnsureGroup" (failed "group not created"))

-- `create stream group t` is what XGROUP CREATE MKSTREAM answers at tick `t`: no error, or the
-- message of one
unfoldable pub ensure_group : (String → String → ℕ → Option Text) → String → String → Act (Unit {0})
unfolding ◌>>=◌ ask judge_group
ensure_group create stream group = ask (λ t. ok (create stream group t)) >>= judge_group
