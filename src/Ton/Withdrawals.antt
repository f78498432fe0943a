-- ===== src/Ton/Withdrawals.antt =====
-- What the loop of the wallet scanner collects, and what its `Scan` returns.
use mytonprovider_agent.Common.{
  ℕ, ◌≤◌, ◌<◌, ◌≡◌, refl, Bool, true, false, ◌&&◌, Option, none, some, List, [], ◌∷◌, ltb, Text,
  text_eq, text_eq_iff, if◌then◌else◌, All, arith, Bool-cases, inl, inr,
}
use mytonprovider_agent.Common.Dict.{Dict, lookup, insert, get_or, lookup-insert}
use mytonprovider_agent.Domain.{StorageContract}
use mytonprovider_agent.Lite.{Transaction, LiteContract}
use mytonprovider_agent.Ton.Wallet.{
  is_withdrawal, note_lt, scan_withdrawals, storage_contract, enrich,
}

-- the larger of two LTs
abbrev pub later : ℕ → ℕ → ℕ
later a b = if ltb a b then b else a

-- the largest LT of a withdrawal from `a`, and `start` if there is none above it
unfoldable pub last_withdrawal : Text → ℕ → List Transaction → ℕ
last_withdrawal a start [] = start
last_withdrawal a start (tx ∷ txs) =
    last_withdrawal a (if is_withdrawal tx && text_eq tx.from a then later start tx.lt else start)
      txs

get_or-insert :
    (k a : Text) (v : ℕ) (m : Dict ℕ)
    → get_or a 0 (insert k v m) ≡ (if text_eq k a then v else get_or a 0 m)
get_or-insert k a v m = elim (Bool-cases (text_eq k a)) [
  | inl same ↦ ground (arith, lookup-insert k a v m, same)
  | inr other ↦ ground (arith, lookup-insert k a v m, other)
]

-- the read of `a` after a write of the larger LT under `k`
raised :
    (up same : Bool) (a k : Text) (lt : ℕ) (m : Dict ℕ)
    → ltb (get_or k 0 m) lt ≡ up
    → text_eq k a ≡ same
    → get_or a 0 (if up then insert k lt m else m)
      ≡ (if same then later (get_or a 0 m) lt else get_or a 0 m)
raised true true a k lt m eu es =
    let e : k ≡ a = (text_eq_iff k a).0 es in rw (get_or-insert k a lt m, es, ← e, eu) refl
raised true false a k lt m eu es = rw (get_or-insert k a lt m, es) refl
raised false true a k lt m eu es = let e : k ≡ a = (text_eq_iff k a).0 es in rw (← e, eu) refl
raised false false a k lt m eu es = refl

get_or-note_lt :
    (a : Text) (tx : Transaction) (lts : Dict ℕ)
    → get_or a 0 (note_lt tx lts)
      ≡ (if text_eq tx.from a then later (get_or a 0 lts) tx.lt else get_or a 0 lts)
unfolding note_lt
get_or-note_lt a tx lts =
    raised (ltb (get_or tx.from 0 lts) tx.lt) (text_eq tx.from a) a tx.from tx.lt lts refl refl

noted :
    (w : Bool) (a : Text) (tx : Transaction) (lts : Dict ℕ)
    → get_or a 0 (if w then note_lt tx lts else lts)
      ≡ (if w && text_eq tx.from a then later (get_or a 0 lts) tx.lt else get_or a 0 lts)
noted true a tx lts = get_or-note_lt a tx lts
noted false a tx lts = refl

get_or-scan_withdrawals :
    (a : Text) (txs : List Transaction) (lts : Dict ℕ) (last_lt : ℕ)
    → get_or a 0 (scan_withdrawals txs lts last_lt).0 ≡ last_withdrawal a (get_or a 0 lts) txs
unfolding scan_withdrawals last_withdrawal
get_or-scan_withdrawals a [] lts last_lt = refl
get_or-scan_withdrawals a (tx ∷ txs) lts last_lt =
    rw
      (
        get_or-scan_withdrawals a txs (if is_withdrawal tx then note_lt tx lts else lts) _,
        noted (is_withdrawal tx) a tx lts,
      )
      refl

last_withdrawal_bounded :
    (a : Text) (txs : List Transaction) (start last_lt : ℕ) (lts : Dict ℕ)
    → start ≤ last_lt
    → last_withdrawal a start txs ≤ (scan_withdrawals txs lts last_lt).1
unfolding scan_withdrawals last_withdrawal
last_withdrawal_bounded a [] start last_lt lts h = h
last_withdrawal_bounded a (tx ∷ txs) start last_lt lts h =
    last_withdrawal_bounded a txs _ _ _
      (kept_below (is_withdrawal tx) (text_eq tx.from a) start last_lt tx.lt h)
  where
    kept_below :
        (w same : Bool) (start last_lt lt : ℕ)
        → start ≤ last_lt
        → (if w && same then later start lt else start) ≤ (if w then later last_lt lt else last_lt)
    kept_below true true start last_lt lt h = ground arith
    kept_below true false start last_lt lt h = ground arith
    kept_below false same start last_lt lt h = h

-- each value of the map is positive
abbrev AllPositive : Dict ℕ → Type 0
AllPositive = All (λ e. 0 < e.1)

insert-AllPositive :
    (k : Text) (v : ℕ) (m : Dict ℕ) → 0 < v → AllPositive m → AllPositive (insert k v m)
unfolding insert
insert-AllPositive k v [] hv h = (hv, tt)
insert-AllPositive k v ((j, w) ∷ m) hv h = elim (Bool-cases (text_eq j k)) [
  | inl same ↦ rw same (hv, h.1)
  | inr other ↦ rw other (h.0, insert-AllPositive k v m hv h.1)
]

raised-AllPositive :
    (w up : Bool) (k : Text) (g lt : ℕ) (m : Dict ℕ)
    → ltb g lt ≡ up
    → AllPositive m
    → AllPositive (if w then (if up then insert k lt m else m) else m)
raised-AllPositive true true k g lt m e h = insert-AllPositive k lt m (ground arith) h
raised-AllPositive true false k g lt m e h = h
raised-AllPositive false up k g lt m e h = h

scan_withdrawals-AllPositive :
    (txs : List Transaction) (lts : Dict ℕ) (last_lt : ℕ)
    → AllPositive lts
    → AllPositive (scan_withdrawals txs lts last_lt).0
unfolding scan_withdrawals note_lt
scan_withdrawals-AllPositive [] lts last_lt h = h
scan_withdrawals-AllPositive (tx ∷ txs) lts last_lt h = scan_withdrawals-AllPositive txs _ _ (
    raised-AllPositive (is_withdrawal tx) (ltb (get_or tx.from 0 lts) tx.lt) tx.from
      (get_or tx.from 0 lts) tx.lt lts refl h)

lookup-AllPositive : (a : Text) (m : Dict ℕ) (v : ℕ) → AllPositive m → lookup a m ≡ some v → 0 < v
unfolding lookup
lookup-AllPositive a [] v h e = absurd (cc e)
lookup-AllPositive a ((j, w) ∷ m) v h e = ground (arith, h.0, lookup-AllPositive a m v h.1)

-- What a contract of the wallet scanner is: it has withdrawn to the wallet, its LT is that of its
-- last withdrawal, and the scan's LT is not below it.
pub record IsEnriched (wallet : Text) (from_lt : ℕ) (txs : List Transaction) (c : StorageContract)
    : Type 0 where
  pub newest : c.last_lt ≡ last_withdrawal c.address 0 txs
  pub withdrew : 0 < c.last_lt
  pub bounded : c.last_lt ≤ (scan_withdrawals txs [] from_lt).1
  pub of_wallet : c.providers ≡ wallet ∷ []

module _ (wallet : Text) (from_lt : ℕ) (txs : List Transaction) where
  storage_contract-IsEnriched :
      (info : LiteContract) (lt : ℕ)
      → lookup info.address (scan_withdrawals txs [] from_lt).0 ≡ some lt
      → IsEnriched wallet from_lt txs (storage_contract wallet lt info)
  unfolding lookup
  storage_contract-IsEnriched info lt e =
      let g : lt ≡ last_withdrawal info.address 0 txs =
        ground (arith, e, get_or-scan_withdrawals info.address txs [] from_lt) in
      record {
        newest = g;
        withdrew =
            lookup-AllPositive info.address (scan_withdrawals txs [] from_lt).0 lt
              (scan_withdrawals-AllPositive txs [] from_lt tt) e;
        bounded = rw g (last_withdrawal_bounded info.address txs 0 from_lt [] (omega arith));
        of_wallet = refl;
      }

  kept_if_known :
      (o : Option ℕ) (info : LiteContract) (rest : List StorageContract)
      → ((lt : ℕ) → o ≡ some lt → IsEnriched wallet from_lt txs (storage_contract wallet lt info))
      → All (IsEnriched wallet from_lt txs) rest
      → All
          (IsEnriched wallet from_lt txs)
          (elim o [ none ↦ rest | some lt ↦ storage_contract wallet lt info ∷ rest ])
  kept_if_known none info rest h hr = hr
  kept_if_known (some lt) info rest h hr = (h lt refl, hr)

  -- Whatever the lite server tells of whatever contracts, the scan of a wallet's transactions
  -- returns only contracts that have withdrawn to it, each with the LT of its last withdrawal,
  -- which is at most the LT of the scan.
  pub enrich-IsEnriched :
      (infos : List LiteContract)
      → All
          (IsEnriched wallet from_lt txs)
          (enrich wallet (scan_withdrawals txs [] from_lt).0 infos)
  unfolding enrich
  enrich-IsEnriched [] = tt
  enrich-IsEnriched (info ∷ infos) =
      kept_if_known (lookup info.address (scan_withdrawals txs [] from_lt).0) info
        (enrich wallet (scan_withdrawals txs [] from_lt).0 infos) (storage_contract-IsEnriched info)
        (enrich-IsEnriched infos)
