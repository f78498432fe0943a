-- ===== src/Ton/Wallet.antt =====
-- `Scan` of internal/adapters/outbound/ton/scanner.go.
use mytonprovider_agent.Common.{
  ℕ, Bool, ◌==◌, none, some, List, [], ◌∷◌, ltb, Text, if◌then◌else◌, arrange,
}
use mytonprovider_agent.Common.Dict.{Dict, lookup, insert, get_or, keys}
use mytonprovider_agent.Domain.{StorageContract, storage_reward_withdrawal_op_code}
use mytonprovider_agent.World.{Act, ok, pure, ask, wrapping, ◌>>=◌}
use mytonprovider_agent.Lite.{Transaction, LiteContract}
use mytonprovider_agent.Lite.Transactions.{get_transactions}
use mytonprovider_agent.Lite.Contracts.{get_storage_contracts_info}
use mytonprovider_agent.Ton.{Client}

abbrev pub is_withdrawal : Transaction → Bool
is_withdrawal tx = tx.op == storage_reward_withdrawal_op_code

-- `if tx.LT > contractLT[tx.From]`
unfoldable pub note_lt : Transaction → Dict ℕ → Dict ℕ
unfolding lookup insert
note_lt tx lts = if ltb (get_or tx.from 0 lts) tx.lt then insert tx.from tx.lt lts else lts

-- the loop over the transactions, with `contractLT` and `lastLT`
unfoldable pub scan_withdrawals : List Transaction → Dict ℕ → ℕ → Dict ℕ × ℕ
unfolding note_lt
scan_withdrawals [] lts last_lt = (lts, last_lt)
scan_withdrawals (tx ∷ txs) lts last_lt =
    scan_withdrawals txs (if is_withdrawal tx then note_lt tx lts else lts)
      (if is_withdrawal tx then (if ltb last_lt tx.lt then tx.lt else last_lt) else last_lt)

abbrev pub storage_contract : Text → ℕ → LiteContract → StorageContract
storage_contract wallet lt info = record {
  address = info.address;
  bag_id = info.bag_id;
  owner_addr = info.owner_addr;
  size = info.size;
  chunk_size = info.chunk_size;
  last_lt = lt;
  providers = wallet ∷ [];
}

-- the loop over what the liteclient tells of the contracts
unfoldable pub enrich : Text → Dict ℕ → List LiteContract → List StorageContract
unfolding lookup
enrich wallet lts [] = []
enrich wallet lts (info ∷ infos) =
    let rest = enrich wallet lts infos in
    elim (lookup info.address lts) [
      | none ↦ rest
      | some lt ↦ storage_contract wallet lt info ∷ rest
    ]

unfoldable pub list_contracts : Client → Text → ℕ → Dict ℕ → Act (List StorageContract × ℕ)
unfolding ◌>>=◌ ask wrapping pure enrich
list_contracts c wallet last_lt [] = pure ([], last_lt)
list_contracts c wallet last_lt (e ∷ lts) = do
  order ← ask (λ t. ok (c.range_order t))
  infos ←
      wrapping "adapters.outbound.ton.Scanner.Scan: get storage contracts info"
        (get_storage_contracts_info c.api (keys (arrange order (e ∷ lts))))
  pure (enrich wallet (e ∷ lts) infos, last_lt)

unfoldable pub scan_wallet : Client → Text → ℕ → Act (List StorageContract × ℕ)
unfolding ◌>>=◌ wrapping scan_withdrawals list_contracts
scan_wallet c wallet from_lt =
    wrapping "adapters.outbound.ton.Scanner.Scan: get transactions"
      (get_transactions c.api wallet from_lt)
    >>= λ txs.
        let (lts, last_lt) = scan_withdrawals txs [] from_lt in list_contracts c wallet last_lt lts
