-- ===== src/Ton/Continuity.antt =====
-- Two scans of the master wallet, the second from the LT that the first one returned.
use mathlib.Core.List.{Memᴰ}
use mytonprovider_agent.Common.{
  not, ◌&&◌, leb, refl, ℕ, ◌<◌, ◌≡◌, ◌⊎◌, ◌∙◌, ap, inl, inr, Bool, true, false, Option, none, some,
  List, [], ◌∷◌, map, Text, ltb, All, All-Mem, All-select, arith, Bool-cases,
}
use mytonprovider_agent.Common.Dict.{lookup}
use mytonprovider_agent.Domain.{Provider}
use mytonprovider_agent.World.{World, ok}
use mytonprovider_agent.Lite.{Transaction, Api}
use mytonprovider_agent.Lite.Transactions.{parse_all, get_transactions}
use mytonprovider_agent.Lite.Transactions.History.{Pages, flatten}
use mytonprovider_agent.Lite.Transactions.Complete.{IsServed, newer_parsed, get_transactions_lem}
use mytonprovider_agent.Ton.Master.{registration, scan_registrations}
use mytonprovider_agent.Ton.History.{collected_by_newer}
use mytonprovider_agent.Ton.Registrations.{
  registers, first_listed, IsNewest, scan_registrations-IsNewest,
}

-- A transaction of the later history was there before, or is newer than all that was.
abbrev pub IsOldOrNewer : List Transaction → Transaction → Type 0
IsOldOrNewer before t = Memᴰ t before ⊎ All (λ o. o.lt < t.lt) before

abbrev pub is_found : Option Provider → Bool
is_found none = false
is_found (some p) = true

-- `t` registers `k`, and is newer than `from_lt`.
abbrev IsHit : ℕ → Text → Transaction → Type 0
IsHit from_lt k t = (from_lt < t.lt) × (registers k (registration t) ≡ true)

found-Memᴰ :
    (from_lt : ℕ) (k : Text) (txs : List Transaction)
    → is_found (first_listed from_lt k txs) ≡ true
    → (t : Transaction) × Memᴰ t txs × IsHit from_lt k t
unfolding first_listed
found-Memᴰ from_lt k [] e = absurd (cc e)
found-Memᴰ from_lt k (t ∷ ts) e =
    elim (Bool-cases (not (leb t.lt from_lt) && registers k (registration t))) [
      | inl hit ↦ (t, Memᴰ.head refl, (ground (arith, hit), ground (arith, hit)))
      | inr miss ↦
          let (u, m, hit) = found-Memᴰ from_lt k ts (ground (arith, miss, e)) in
          (u, Memᴰ.tail m, hit)
    ]

Memᴰ-found :
    (from_lt : ℕ) (k : Text) (t : Transaction) (txs : List Transaction)
    → Memᴰ t txs
    → IsHit from_lt k t
    → is_found (first_listed from_lt k txs) ≡ true
unfolding first_listed
Memᴰ-found from_lt k t [] m h = elim m [ ]
Memᴰ-found from_lt k t (x ∷ xs) (Memᴰ.head e) h = ground (arith, e, h.0, h.1)
Memᴰ-found from_lt k t (x ∷ xs) (Memᴰ.tail m) h = ground (arith, Memᴰ-found from_lt k t xs m h)

-- The LT of a scan is the stored one, or that of a newer transaction.
newest_of_newer :
    (from_lt n : ℕ) (txs : List Transaction)
    → Memᴰ n (map (λ t. t.lt) txs)
    → from_lt < n
    → Memᴰ n (map (λ t. t.lt) (newer_parsed from_lt txs))
newest_of_newer from_lt n [] m h = elim m [ ]
newest_of_newer from_lt n (t ∷ ts) (Memᴰ.head e) h =
    let newer : ltb from_lt t.lt ≡ true = ground (arith, e, h) in rw newer (Memᴰ.head e)
newest_of_newer from_lt n (t ∷ ts) (Memᴰ.tail m) h = elim (Bool-cases (ltb from_lt t.lt)) [
  | inl newer ↦ rw newer (Memᴰ.tail (newest_of_newer from_lt n ts m h))
  | inr older ↦ rw older (newest_of_newer from_lt n ts m h)
]

lts-All :
    (m : ℕ) (ts : List Transaction) → All (λ o. o.lt < m) ts → All (λ n. n < m) (map (λ t. t.lt) ts)
lts-All m [] h = tt
lts-All m (t ∷ ts) h = (h.0, lts-All m ts h.1)

module _ (from_lt n : ℕ) (txs before : List Transaction)
    (same : newer_parsed from_lt txs ≡ newer_parsed from_lt before)
    (newest : IsNewest from_lt txs n) where
  below : (t : Transaction) → from_lt < t.lt → All (λ o. o.lt < t.lt) before → n < t.lt
  below t h o = elim newest.reached [
    | inl e ↦ rw e h
    | inr m ↦ elim (Bool-cases (ltb from_lt n)) [
      | inl up ↦
          let later = All-select (λ x. x.lt < t.lt) (λ x. ltb from_lt x.lt) before o in
          All-Mem (λ x. x < t.lt) n (map (λ x. x.lt) (newer_parsed from_lt before))
            (lts-All t.lt (newer_parsed from_lt before) later)
            (rw (← same) (newest_of_newer from_lt n txs m (ground (arith, up))))
      | inr old ↦ ground (arith, old, h)
    ]
  ]

-- the map of a scan has a provider for `k`
abbrev pub Collected : Text → ℕ → List Transaction → Type 0
Collected k from_lt txs = is_found (lookup k (scan_registrations from_lt txs [] from_lt).0) ≡ true

-- No registration is lost between two scans, the second from the LT that the first one returned, if
-- the lite server serves the whole history to both, and each transaction of the later history was in
-- the earlier one or is newer than all of it, however the pages are cut: a key that is registered in
-- the later history after the first stored LT is collected by the first scan or by the second.
pub scans_lose_nothing :
    (api api' : Api) (addr : Text) (from_lt : ℕ) (pages pages' : Pages) (w w' : World) (k : Text)
    → IsServed api addr pages
    → IsServed api' addr pages'
    → All (IsOldOrNewer (parse_all (flatten pages))) (parse_all (flatten pages'))
    → is_found (first_listed from_lt k (parse_all (flatten pages'))) ≡ true
    → (txs : List Transaction) × ((get_transactions api addr from_lt w).0 ≡ ok txs)
      × (let n : ℕ = (scan_registrations from_lt txs [] from_lt).1 in
          (txs' : List Transaction) × ((get_transactions api' addr n w').0 ≡ ok txs')
          × (Collected k from_lt txs ⊎ Collected k n txs'))
scans_lose_nothing api api' addr from_lt pages pages' w w' k s s' grown registered =
    let before = parse_all (flatten pages) in
    let after = parse_all (flatten pages') in
    let got = get_transactions_lem api addr from_lt pages w s in
    let n = (scan_registrations from_lt got.0 [] from_lt).1 in
    let got' = get_transactions_lem api' addr n pages' w' s' in
    let newest = scan_registrations-IsNewest from_lt got.0 [] from_lt (omega arith) in
    let (t, m, hit) = found-Memᴰ from_lt k after registered in
    (
      got.0,
      got.1,
      (
        got'.0,
        got'.1,
        (elim (All-Mem (IsOldOrNewer before) t after grown m) [
          | inl old ↦ inl (
              ap is_found (collected_by_newer from_lt got.0 before got.2 k)
              ∙ Memᴰ-found from_lt k t before old hit)
          | inr new ↦ inr (
              ap is_found (collected_by_newer n got'.0 after got'.2 k)
              ∙ Memᴰ-found n k t after m
                  (below from_lt n got.0 before got.2 newest t hit.0 new, hit.1))
        ]),
      ),
    )
