-- ===== src/Ton/Gap.antt =====
-- A listing that a deadline stops, and the scans after it.
use mytonprovider_agent.Common.{
  ℕ, ◌+◌, ◌≤◌, ◌≡◌, ◌∙◌, refl, sym, ap, true, Option, none, some, List, [], ◌∷◌, ◌++◌, Text, All,
  arith, suc,
}
use mytonprovider_agent.Common.Dict.{lookup}
use mytonprovider_agent.World.{World, Act, ok, ask, pure, wrapping, ◌>>=◌}
use mytonprovider_agent.Lite.{RawTransaction, Transaction, Api, found, refused, deadline}
use mytonprovider_agent.Lite.Transactions.{
  cut, on_refusal, on_page, collect, list_account, list_from, parse_all, get_transactions,
}
use mytonprovider_agent.Ton.Master.{scan_registrations}
use mytonprovider_agent.Ton.Registrations.{
  first_listed, scan_registrations-IsNewest, scan_registrations_lem,
}

-- The lite server gives the newest page of the account, and the next request meets the deadline.
pub record IsCutShort (api : Api) (addr : Text) (r : RawTransaction) (rs : List RawTransaction)
    : Type 0 where
  pub valid : api.parse_addr addr ≡ true
  pub block : ℕ
  pub at_block : (t : ℕ) → api.masterchain_info t ≡ ok block
  pub last_lt : ℕ
  pub last_hash : Text
  pub at_account : (t : ℕ) → api.account block addr t ≡ ok (last_lt, last_hash)
  pub at_page : (t : ℕ) → api.list_transactions addr last_lt last_hash t ≡ found (r ∷ rs)
  pub at_deadline : (t : ℕ) → api.list_transactions addr r.prev_lt r.prev_hash t ≡ refused deadline

never_again :
    (n : ℕ) (k : Text) (arrived older : List Transaction)
    → All (λ o. o.lt ≤ n) older
    → first_listed n k (arrived ++ older) ≡ first_listed n k arrived
unfolding first_listed
never_again n k [] [] h = refl
never_again n k [] (o ∷ os) h = ground (arith, h.0, never_again n k [] os h.1)
never_again n k (t ∷ ts) older h = rw (never_again n k ts older h) refl

at_most :
    (m n : ℕ) (older : List Transaction)
    → m ≤ n
    → All (λ o. o.lt ≤ m) older
    → All (λ o. o.lt ≤ n) older
at_most m n [] l h = tt
at_most m n (o ∷ os) l h = (omega (arith, l, h.0), at_most m n os l h.1)

turn_on :
    (from_lt : ℕ) (r : RawTransaction) (rs got : List RawTransaction)
    (next : ℕ → Text → List RawTransaction → Act (List RawTransaction)) (w : World)
    (o : Option (List RawTransaction))
    → o ≡ none
    → (elim o as (λ x. Act (List RawTransaction)) [
      | some s ↦ pure (got ++ s)
      | none ↦ next r.prev_lt r.prev_hash (got ++ r ∷ rs)
    ])
        w
      ≡ next r.prev_lt r.prev_hash (got ++ r ∷ rs) w
turn_on from_lt r rs got next w none e = refl
turn_on from_lt r rs got next w (some s) e = absurd (cc e)

ended :
    (api : Api) (addr : Text) (from_lt m : ℕ) (r : RawTransaction) (rs : List RawTransaction)
    (w : World)
    → IsCutShort api addr r rs
    → (collect api addr from_lt (suc m) r.prev_lt r.prev_hash (r ∷ rs) w).0 ≡ ok (r ∷ rs)
unfolding collect on_page on_refusal ◌>>=◌ ask pure
ended api addr from_lt m r rs w s = rw (s.at_deadline w.tick) refl

on_page-found :
    (from_lt : ℕ) (r : RawTransaction) (rs got : List RawTransaction)
    (next : ℕ → Text → List RawTransaction → Act (List RawTransaction)) (w : World)
    → cut from_lt (r ∷ rs) ≡ none
    → on_page from_lt (found (r ∷ rs)) got next w ≡ next r.prev_lt r.prev_hash (got ++ r ∷ rs) w
unfolding on_page
on_page-found from_lt r rs got next w e = turn_on from_lt r rs got next w (cut from_lt (r ∷ rs)) e

two_turns :
    (api : Api) (addr : Text) (from_lt m : ℕ) (r : RawTransaction) (rs : List RawTransaction)
    (w : World)
    → (s : IsCutShort api addr r rs) → cut from_lt (r ∷ rs) ≡ none
    → (collect api addr from_lt (suc (suc m)) s.last_lt s.last_hash [] w).0 ≡ ok (r ∷ rs)
unfolding collect ◌>>=◌ ask
two_turns api addr from_lt m r rs w s new =
    let w' = record w { tick = w.tick + 1 } in
    let next = collect api addr from_lt (suc m) in
    rw (s.at_page w.tick) (
      ap (λ z. z.0) (on_page-found from_lt r rs [] next w' new)
      ∙ ended api addr from_lt m r rs w' s)

-- If a deadline stops a listing after its newest page, all of it newer than the stored LT, then
-- GetTransactions succeeds with what is parsed of that page, and the loop of a later scan, from the
-- LT that follows from it, collects the same for every key with and without the transactions that
-- are not newer than the first one parsed, whatever has arrived.
pub cut_short_loses :
    (api : Api) (addr : Text) (from_lt : ℕ) (r : RawTransaction) (rs : List RawTransaction)
    (x : Transaction) (xs arrived older : List Transaction) (k : Text) (w : World)
    → IsCutShort api addr r rs
    → cut from_lt (r ∷ rs) ≡ none
    → parse_all (r ∷ rs) ≡ x ∷ xs
    → All (λ o. o.lt ≤ x.lt) older
    → ((get_transactions api addr from_lt w).0 ≡ ok (x ∷ xs))
      × (let n : ℕ = (scan_registrations from_lt (x ∷ xs) [] from_lt).1 in
          lookup k (scan_registrations n (arrived ++ older) [] n).0
          ≡ lookup k (scan_registrations n arrived [] n).0)
unfolding get_transactions list_from list_account ◌>>=◌ ask wrapping pure
cut_short_loses api addr from_lt r rs x xs arrived older k w s new parsed h =
    let newest = scan_registrations-IsNewest from_lt (x ∷ xs) [] from_lt (omega arith) in
    let n = (scan_registrations from_lt (x ∷ xs) [] from_lt).1 in
    let turns : s.last_lt + 2 ≡ suc (suc s.last_lt) = omega arith in
    (
      rw
          (
            s.valid,
            s.at_block w.tick,
            s.at_account (w.tick + 1),
            turns,
            two_turns api addr from_lt s.last_lt r rs (record w { tick = w.tick + 1 + 1 }) s new,
            parsed,
          )
          refl,
      scan_registrations_lem n k (arrived ++ older)
          ∙ never_again n k arrived older (at_most x.lt n older newest.bounds.0 h)
          ∙ sym (scan_registrations_lem n k arrived),
    )
