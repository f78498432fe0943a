-- ===== src/Checkpoints.antt =====
-- The rule that both checkpoints of the agent follow. A scan's logical time is stored (the master
-- wallet's in system.params, a provider wallet's in providers.providers) only right after Redis
-- has taken the message that carries what was found up to it.
pub mod Publishing
use mytonprovider_agent.Common.{ℕ, ◌≡◌, true, false, Option, none, some, List, [], ◌∷◌, Text}
use mytonprovider_agent.Jobs.{Payload, scan_master, scan_wallets}
use mytonprovider_agent.Strings.Decimal.{format_uint}
use mytonprovider_agent.World.{Write, xadd, xack, set_param, set_last_tx_lt}
use mytonprovider_agent.Ports.{lt_updates}

-- what a payload allows to store
abbrev pub master_lt : Payload → Option Text
master_lt (scan_master r) = some (format_uint r.last_lt)
master_lt _ = none

abbrev pub wallet_lts : Payload → Option (List (Text × ℕ))
wallet_lts (scan_wallets r) = some (lt_updates r.updated_wallets)
wallet_lts _ = none

-- the payload of the last write, if that is a message that Redis took
abbrev pub last_accepted : List Write → Option Payload
last_accepted (xadd stream m max_len true ∷ log) = some m.payload
last_accepted _ = none

abbrev pub IsCheckpointed : List Write → Type 0
IsCheckpointed [] = Unit {0}
IsCheckpointed (xadd stream m max_len taken ∷ log) = IsCheckpointed log
IsCheckpointed (xack stream group id taken ∷ log) = IsCheckpointed log
IsCheckpointed (set_param key value taken ∷ log) =
    (p : Payload) × (last_accepted log ≡ some p) × (master_lt p ≡ some value) × IsCheckpointed log
IsCheckpointed (set_last_tx_lt updates taken ∷ log) =
    (p : Payload) × (last_accepted log ≡ some p)
    × (wallet_lts p ≡ some updates)
    × IsCheckpointed log
