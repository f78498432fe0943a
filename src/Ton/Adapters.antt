-- ===== src/Ton/Adapters.antt =====
-- The ports of the use cases that internal/adapters/outbound/ton fills.
use mytonprovider_agent.Common.{map, arrange, ℕ, List, [], ◌∷◌, Text, arrange}
use mytonprovider_agent.Common.Dict.{Dict, keys}
use mytonprovider_agent.Domain.{Provider}
use mytonprovider_agent.World.{pure, ask, ok, wrapping}
use mytonprovider_agent.World.Actions.Keeps.{
  IsReadOnly, pure-IsReadOnly, ask-IsReadOnly, wrapping-IsReadOnly, bind-IsReadOnly,
}
use mytonprovider_agent.Lite.Transactions.{get_transactions}
use mytonprovider_agent.Lite.Contracts.{get_storage_contracts_info}
use mytonprovider_agent.Lite.States.{get_providers_info}
use mytonprovider_agent.Lite.Reads.{
  get_transactions-IsReadOnly, get_storage_contracts_info-IsReadOnly, get_providers_info-IsReadOnly,
}
use mytonprovider_agent.Ports.{MasterScanner, WalletScanner, ContractInspector}
use mytonprovider_agent.Ton.{Client}
use mytonprovider_agent.Ton.Master.{list_providers, scan_master_wallet}
use mytonprovider_agent.Ton.Wallet.{enrich, list_contracts, scan_wallet}
use mytonprovider_agent.Ton.Inspector.{inspect_contracts}

list_providers-IsReadOnly :
    (c : Client) (lt : ℕ) (unique : Dict Provider) → IsReadOnly (list_providers c lt unique)
unfolding list_providers
list_providers-IsReadOnly c lt [] = pure-IsReadOnly _
list_providers-IsReadOnly c lt (e ∷ unique) =
    bind-IsReadOnly (ask (λ t. ok (c.range_order t)))
      (λ order. pure (map (λ x. x.1) (arrange order (e ∷ unique)), lt)) (ask-IsReadOnly _)
      (λ order. pure-IsReadOnly _)

pub scan_master_wallet-IsReadOnly :
    (c : Client) (addr : Text) (from_lt : ℕ) → IsReadOnly (scan_master_wallet c addr from_lt)
unfolding scan_master_wallet
scan_master_wallet-IsReadOnly c addr from_lt =
    bind-IsReadOnly (wrapping _ (get_transactions c.api addr from_lt)) _
      (wrapping-IsReadOnly _ (get_transactions c.api addr from_lt)
        (get_transactions-IsReadOnly c.api addr from_lt))
      (λ txs. list_providers-IsReadOnly c _ _)

abbrev pub master_scanner : Client → MasterScanner
master_scanner c = record {
  scan = scan_master_wallet c;
  scan_reads = scan_master_wallet-IsReadOnly c;
}

list_contracts-IsReadOnly :
    (c : Client) (wallet : Text) (lt : ℕ) (lts : Dict ℕ)
    → IsReadOnly (list_contracts c wallet lt lts)
unfolding list_contracts
list_contracts-IsReadOnly c wallet lt [] = pure-IsReadOnly _
list_contracts-IsReadOnly c wallet lt (e ∷ lts) =
    bind-IsReadOnly (ask (λ t. ok (c.range_order t))) _ (ask-IsReadOnly _) λ order.
      bind-IsReadOnly
        (wrapping "adapters.outbound.ton.Scanner.Scan: get storage contracts info"
          (get_storage_contracts_info c.api (keys (arrange order (e ∷ lts)))))
        (λ infos. pure (enrich wallet (e ∷ lts) infos, lt))
        (wrapping-IsReadOnly _ (get_storage_contracts_info c.api (keys (arrange order (e ∷ lts))))
          (get_storage_contracts_info-IsReadOnly c.api (keys (arrange order (e ∷ lts)))))
        (λ infos. pure-IsReadOnly _)

pub scan_wallet-IsReadOnly :
    (c : Client) (wallet : Text) (from_lt : ℕ) → IsReadOnly (scan_wallet c wallet from_lt)
unfolding scan_wallet
scan_wallet-IsReadOnly c wallet from_lt =
    bind-IsReadOnly (wrapping _ (get_transactions c.api wallet from_lt)) _
      (wrapping-IsReadOnly _ (get_transactions c.api wallet from_lt)
        (get_transactions-IsReadOnly c.api wallet from_lt))
      (λ txs. list_contracts-IsReadOnly c wallet _ _)

abbrev pub wallet_scanner : Client → WalletScanner
wallet_scanner c = record { scan = scan_wallet c; scan_reads = scan_wallet-IsReadOnly c }

pub inspect_contracts-IsReadOnly :
    (c : Client) (addrs : List Text) → IsReadOnly (inspect_contracts c addrs)
unfolding inspect_contracts
inspect_contracts-IsReadOnly c [] = pure-IsReadOnly _
inspect_contracts-IsReadOnly c (a ∷ addrs) =
    bind-IsReadOnly (wrapping _ (get_providers_info c.api (a ∷ addrs))) _
      (wrapping-IsReadOnly _ (get_providers_info c.api (a ∷ addrs))
        (get_providers_info-IsReadOnly c.api (a ∷ addrs)))
      (λ raw. pure-IsReadOnly _)

abbrev pub contract_inspector : Client → ContractInspector
contract_inspector c = record {
  inspect_providers = inspect_contracts c;
  inspect_reads = inspect_contracts-IsReadOnly c;
}
