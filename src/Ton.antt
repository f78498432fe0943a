-- ===== src/Ton.antt =====
-- internal/adapters/outbound/ton: the scanners and the inspector over the liteclient.
pub mod Master
pub mod Wallet
pub mod Inspector
pub mod Registrations
pub mod Registered
pub mod Ranges
pub mod History
pub mod Continuity
pub mod Gap
pub mod Withdrawals
pub mod Adapters
use mytonprovider_agent.Common.{ℕ, List}
use mytonprovider_agent.Lite.{Api}

-- `tonclient.Client`, with the order in which Go ranges over a map at a tick
pub record Client : Type 0 where
  pub api : Api
  pub range_order : ℕ → List ℕ
