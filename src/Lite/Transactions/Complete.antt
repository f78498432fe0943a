-- ===== src/Lite/Transactions/Complete.antt =====
-- `GetTransactions` on an account whose whole history the lite server serves.
use mytonprovider_agent.Common.{
  ℕ, ◌+◌, ◌≤◌, ◌<◌, ◌≡◌, ◌∙◌, refl, sym, ap, Bool, true, false, none, some, List, [], ◌∷◌, Text,
  ltb, length, select, if◌then◌else◌, arith,
}
use mytonprovider_agent.World.{World, ok, pure, ask, wrapping, ◌>>=◌}
use mytonprovider_agent.Lite.{Transaction, RawTransaction, Incoming, internal, mistyped, other, Api}
use mytonprovider_agent.Lite.Transactions.{
  parse_incoming, parse_tx, parse_all, list_account, list_from, get_transactions,
}
use mytonprovider_agent.Lite.Transactions.History.{
  Pages, flatten, newer, IsHistory, Serves, collect-IsComplete,
}

-- The lite server has an account with this history, and answers each request about it.
pub record IsServed (api : Api) (addr : Text) (pages : Pages) : Type 0 where
  pub valid : api.parse_addr addr ≡ true
  pub block : ℕ
  pub at_block : (t : ℕ) → api.masterchain_info t ≡ ok block
  pub last_lt : ℕ
  pub last_hash : Text
  pub at_account : (t : ℕ) → api.account block addr t ≡ ok (last_lt, last_hash)
  pub not_empty : 0 < length pages
  pub serves : Serves api addr last_lt last_hash pages
  pub history : IsHistory pages

-- The LT that is asked for falls, so there are no more pages than its first value.
length-Serves :
    (api : Api) (addr : Text) (lt : ℕ) (hash : Text) (pages : Pages)
    → Serves api addr lt hash pages
    → length pages ≤ lt
unfolding Serves
length-Serves api addr lt hash [] s = omega arith
length-Serves api addr lt hash ([] ∷ ps) s = absurd s
length-Serves api addr lt hash ((r ∷ rs) ∷ ps) s =
    omega (arith, s.1, length-Serves api addr r.prev_lt r.prev_hash ps s.2)

-- the parsed transactions after `from_lt`
abbrev pub newer_parsed : ℕ → List Transaction → List Transaction
newer_parsed from_lt = select (λ t. ltb from_lt t.lt)

newer-parse_one :
    (from_lt : ℕ) (t : RawTransaction) (m : Incoming) (rest : List Transaction)
    → newer_parsed from_lt (elim (parse_incoming t m) [ none ↦ rest | some tx ↦ tx ∷ rest ]) ≡ (
        if ltb from_lt t.lt
        then elim (parse_incoming t m) [
          | none ↦ newer_parsed from_lt rest
          | some tx ↦ tx ∷ newer_parsed from_lt rest
        ]
        else newer_parsed from_lt rest)
unfolding parse_incoming
newer-parse_one from_lt t (internal m) rest = refl
newer-parse_one from_lt t mistyped rest = ground arith
newer-parse_one from_lt t other rest = ground arith

kept_or_not :
    (b : Bool) (t : RawTransaction) (ts : List RawTransaction) (rest : List Transaction)
    → rest ≡ parse_all ts
    → (if b then elim (parse_tx t) [ none ↦ rest | some tx ↦ tx ∷ rest ] else rest)
      ≡ parse_all (if b then t ∷ ts else ts)
unfolding parse_all
kept_or_not true t ts rest e =
    ap (λ r. elim (parse_tx t) as (λ x. List Transaction) [ none ↦ r | some tx ↦ tx ∷ r ]) e
kept_or_not false t ts rest e = e

newer-parse_all :
    (from_lt : ℕ) (ts : List RawTransaction)
    → newer_parsed from_lt (parse_all ts) ≡ parse_all (newer from_lt ts)
unfolding parse_all
newer-parse_all from_lt [] = refl
newer-parse_all from_lt (t ∷ ts) =
    newer-parse_one from_lt t t.incoming (parse_all ts)
    ∙ kept_or_not (ltb from_lt t.lt) t (newer from_lt ts) (newer_parsed from_lt (parse_all ts))
        (newer-parse_all from_lt ts)

-- If the lite server serves the whole history of an account, GetTransactions succeeds, within the
-- turns that the model gives it, and its result has exactly the transactions of the history that
-- are newer than `from_lt`, beside older ones.
pub get_transactions_lem :
    (api : Api) (addr : Text) (from_lt : ℕ) (pages : Pages) (w : World)
    → IsServed api addr pages
    → (txs : List Transaction) × ((get_transactions api addr from_lt w).0 ≡ ok txs)
      × (newer_parsed from_lt txs ≡ newer_parsed from_lt (parse_all (flatten pages)))
unfolding get_transactions list_from list_account ◌>>=◌ ask wrapping pure
get_transactions_lem api addr from_lt pages w s =
    let w' = record w { tick = w.tick + 1 + 1 } in
    let c =
      collect-IsComplete api addr from_lt (s.last_lt + 2) s.last_lt s.last_hash pages [] w'
        (omega (arith, length-Serves api addr s.last_lt s.last_hash pages s.serves))
        (omega (arith, s.not_empty)) s.serves s.history in
    (
      parse_all c.0,
      rw (s.valid, s.at_block w.tick, s.at_account (w.tick + 1), c.1) refl,
      newer-parse_all from_lt c.0
          ∙ ap parse_all c.2
          ∙ sym (newer-parse_all from_lt (flatten pages)),
    )
