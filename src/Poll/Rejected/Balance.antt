-- ===== src/Poll/Rejected/Balance.antt =====
-- When a provider counts as removed for want of balance.
use mytonprovider_agent.Common.{ℕ, ◌+◌, ◌≤◌, ◌<◌, ◌≡◌, ◌↔◌, true, arith}
use mytonprovider_agent.Domain.{OnChainProvider, ContractOnChainState}
use mytonprovider_agent.Poll.Rejected.{unix, bounty, is_removed_by_low_balance}

-- A provider is removed exactly if the contract cannot pay its next bounty, it has proved before,
-- and more than an hour has passed since its last proof fell due again.
pub removed_iff :
    (time bag_size : ℕ) (provider : OnChainProvider) (contract : ContractOnChainState)
    → (is_removed_by_low_balance time bag_size provider contract ≡ true) ↔ (
        (contract.balance < bounty bag_size provider)
        × (0 < unix provider.last_proof_time)
        × (unix provider.last_proof_time + provider.max_span + 3600 < unix time))
unfolding is_removed_by_low_balance
removed_iff time bag_size provider contract = (λ h. ground arith, λ h. ground arith)

-- A provider that is removed at one time is removed at every later time, and with every balance
-- that is not larger.
pub removed_mono :
    (time later bag_size : ℕ) (provider : OnChainProvider) (contract poorer : ContractOnChainState)
    → time ≤ later
    → poorer.balance ≤ contract.balance
    → is_removed_by_low_balance time bag_size provider contract ≡ true
    → is_removed_by_low_balance later bag_size provider poorer ≡ true
removed_mono time later bag_size provider contract poorer ht hb h =
    let (short, proved, late) = (removed_iff time bag_size provider contract).0 h in
    (removed_iff later bag_size provider poorer).1 (omega arith, proved, omega arith)
