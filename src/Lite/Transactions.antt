-- ===== src/Lite/Transactions.antt =====
-- `GetTransactions` and `parseTx` of liteclient/client.go.
pub mod History
pub mod Complete
use mytonprovider_agent.Common.{
  ℕ, zero, suc, ◌+◌, ◌*◌, Option, none, some, List, [], ◌∷◌, ◌++◌, Text, leb, if◌then◌else◌,
}
use mytonprovider_agent.World.{Act, ok, failed, wrap, pure, raise, ask, wrapping, ◌>>=◌}
use mytonprovider_agent.Lite.{
  Transaction, Payload, Incoming, internal, mistyped, other, RawTransaction, ListError, none_found,
  deadline, lookup_failed, list_failed, Page, found, refused, Api,
}

abbrev comment_of : Option Payload → Text
comment_of none = []
comment_of (some p) = p.comment

abbrev op_of : Option Payload → ℕ
op_of none = 0
op_of (some p) = p.op

-- parseTx, for a transaction with an incoming message: the code reads `tx.IO.In` without a test for
-- nil, so that a transaction without one is a panic, which is not modelled
unfoldable pub parse_incoming : RawTransaction → Incoming → Option Transaction
parse_incoming tx (internal m) = some (record {
  hash = tx.hash;
  lt = tx.lt;
  op = op_of m.payload;
  from = m.src_addr;
  to = m.dst_addr;
  message = comment_of m.payload;
  created_at = m.created_at * 1000000000;
})
parse_incoming tx mistyped = none
parse_incoming tx other = none

abbrev pub parse_tx : RawTransaction → Option Transaction
parse_tx tx = parse_incoming tx tx.incoming

-- the loop over the transactions that were collected
unfoldable pub parse_all : List RawTransaction → List Transaction
unfolding parse_incoming
parse_all [] = []
parse_all (t ∷ ts) =
    let rest = parse_all ts in elim (parse_tx t) [ none ↦ rest | some tx ↦ tx ∷ rest ]

-- The scan of a page from its end: the part from the last transaction on that has been processed
-- before, if there is one.
unfoldable pub cut : ℕ → List RawTransaction → Option (List RawTransaction)
cut from_lt [] = none
cut from_lt (x ∷ xs) = elim (cut from_lt xs) [
  | some s ↦ some s
  | none ↦ if leb x.lt from_lt then some (x ∷ xs) else none
]

-- what an error means for what has been collected so far
unfoldable pub on_refusal : ListError → List RawTransaction → Act (List RawTransaction)
unfolding pure raise
on_refusal none_found [] = raise (wrap "list transactions" (failed "no transactions were found"))
on_refusal none_found (t ∷ ts) = pure (t ∷ ts)
on_refusal deadline got = pure got
on_refusal lookup_failed got = pure got
on_refusal (list_failed e) got = raise (wrap "list transactions" e)

-- the rest of a turn, with the loop's next turn
unfoldable pub on_page :
    ℕ
    → Page
    → List RawTransaction
    → (ℕ → Text → List RawTransaction → Act (List RawTransaction))
    → Act (List RawTransaction)
unfolding cut on_refusal pure
on_page from_lt (refused e) got next = on_refusal e got
on_page from_lt (found []) got next = pure got
on_page from_lt (found (r ∷ rs)) got next = elim (cut from_lt (r ∷ rs)) [
  | some s ↦ pure (got ++ s)
  | none ↦ next r.prev_lt r.prev_hash (got ++ r ∷ rs)
]

-- the loop `list:`, for `n` turns at most; the last error stands for a loop that goes on
unfoldable pub collect :
    Api → Text → ℕ → ℕ → ℕ → Text → List RawTransaction → Act (List RawTransaction)
unfolding ◌>>=◌ ask raise on_page
collect api addr from_lt zero lt hash got = raise (failed "still listing")
collect api addr from_lt (suc n) lt hash got =
    ask (λ t. ok (api.list_transactions addr lt hash t)) >>= λ page.
    on_page from_lt page got (collect api addr from_lt n)

-- The LT that is asked for falls from page to page, so it bounds the turns.
unfoldable pub list_account : Api → Text → ℕ → ℕ × Text → Act (List RawTransaction)
unfolding collect
list_account api addr from_lt (last_lt, last_hash) =
    collect api addr from_lt (last_lt + 2) last_lt last_hash []

unfoldable pub list_from : Api → Text → ℕ → Act (List RawTransaction)
unfolding ◌>>=◌ ask wrapping list_account
list_from api addr from_lt = do
  block ← wrapping "get masterchain info err" (ask api.masterchain_info)
  account ← wrapping "get account err" (ask (api.account block addr))
  list_account api addr from_lt account

unfoldable pub get_transactions : Api → Text → ℕ → Act (List Transaction)
unfolding ◌>>=◌ raise list_from parse_all pure
get_transactions api addr from_lt =
    if api.parse_addr addr
    then (list_from api addr from_lt >>= λ txs. pure (parse_all txs))
    else raise (wrap "failed to parse master address" (failed "invalid address"))
