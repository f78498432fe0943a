-- ===== src/Ton/History.antt =====
-- A scan of the master wallet against the whole history of its account.
use mytonprovider_agent.Common.{
  ℕ, ◌≡◌, ◌∙◌, refl, sym, ap, Bool, true, false, not, ◌&&◌, Option, none, some, List, [], ◌∷◌, ◌++◌,
  Text, Bool-cases, inl, inr, ltb, leb, if◌then◌else◌, arith,
}
use mytonprovider_agent.Common.Dict.{lookup}
use mytonprovider_agent.Domain.{Provider}
use mytonprovider_agent.World.{World, ok}
use mytonprovider_agent.Lite.{Transaction, RawTransaction, Api}
use mytonprovider_agent.Lite.Transactions.{parse_tx, parse_all, get_transactions}
use mytonprovider_agent.Lite.Transactions.History.{Pages, flatten}
use mytonprovider_agent.Lite.Transactions.Complete.{IsServed, newer_parsed, get_transactions_lem}
use mytonprovider_agent.Ton.Master.{registration, registrant, scan_registrations}
use mytonprovider_agent.Ton.Registrations.{
  registers, first_listed, or_first, scan_registrations_lem,
}

only_newer :
    (old match : Bool) (from_lt : ℕ) (k : Text) (tx : Transaction) (rest : List Transaction)
    → leb tx.lt from_lt ≡ old
    → registers k (registration tx) ≡ match
    → (if not old && match then some (registrant k tx) else first_listed from_lt k rest)
      ≡ first_listed from_lt k (if not old then tx ∷ rest else rest)
unfolding first_listed
only_newer true match from_lt k tx rest eo em = refl
only_newer false true from_lt k tx rest eo em = rw (eo, em) refl
only_newer false false from_lt k tx rest eo em = rw (eo, em) refl

ltb-leb : (a b : ℕ) → ltb a b ≡ not (leb b a)
ltb-leb a b = ground arith

first_listed-newer :
    (from_lt : ℕ) (k : Text) (txs : List Transaction)
    → first_listed from_lt k txs ≡ first_listed from_lt k (newer_parsed from_lt txs)
unfolding first_listed
first_listed-newer from_lt k [] = refl
first_listed-newer from_lt k (tx ∷ txs) =
    rw (ltb-leb from_lt tx.lt, first_listed-newer from_lt k txs)
      (only_newer (leb tx.lt from_lt) (registers k (registration tx)) from_lt k tx
        (newer_parsed from_lt txs) refl refl)

-- What is newer decides what the loop collects.
pub collected_by_newer :
    (from_lt : ℕ) (txs history : List Transaction)
    → newer_parsed from_lt txs ≡ newer_parsed from_lt history
    → (k : Text)
    → lookup k (scan_registrations from_lt txs [] from_lt).0 ≡ first_listed from_lt k history
collected_by_newer from_lt txs history e k =
    scan_registrations_lem from_lt k txs
    ∙ first_listed-newer from_lt k txs
    ∙ ap (first_listed from_lt k) e
    ∙ sym (first_listed-newer from_lt k history)

-- The registration of `k` after `from_lt` that the scan takes: on the newest page that has one, the
-- first of that page.
unfoldable pub first_by_page : ℕ → Text → Pages → Option Provider
first_by_page from_lt k [] = none
first_by_page from_lt k (page ∷ pages) =
    or_first (first_listed from_lt k (parse_all page)) (first_by_page from_lt k pages)

first_listed-append :
    (from_lt : ℕ) (k : Text) (xs ys : List Transaction)
    → first_listed from_lt k (xs ++ ys)
      ≡ or_first (first_listed from_lt k xs) (first_listed from_lt k ys)
unfolding first_listed
first_listed-append from_lt k [] ys = refl
first_listed-append from_lt k (tx ∷ txs) ys =
    elim (Bool-cases (not (leb tx.lt from_lt) && registers k (registration tx))) [
      | inl here ↦ rw here refl
      | inr later ↦ rw later (first_listed-append from_lt k txs ys)
    ]

grown :
    (o : Option Transaction) (all xs ys : List Transaction)
    → all ≡ xs ++ ys
    → elim o [ none ↦ all | some tx ↦ tx ∷ all ] ≡ elim o [ none ↦ xs | some tx ↦ tx ∷ xs ] ++ ys
grown none all xs ys e = e
grown (some tx) all xs ys e = ap (λ l. tx ∷ l) e

parse_all-append :
    (xs ys : List RawTransaction) → parse_all (xs ++ ys) ≡ parse_all xs ++ parse_all ys
unfolding parse_all
parse_all-append [] ys = refl
parse_all-append (t ∷ ts) ys =
    grown (parse_tx t) (parse_all (ts ++ ys)) (parse_all ts) (parse_all ys) (parse_all-append ts ys)

by_page :
    (from_lt : ℕ) (k : Text) (pages : Pages)
    → first_listed from_lt k (parse_all (flatten pages)) ≡ first_by_page from_lt k pages
unfolding flatten parse_all first_listed first_by_page
by_page from_lt k [] = refl
by_page from_lt k (page ∷ pages) =
    ap (first_listed from_lt k) (parse_all-append page (flatten pages))
    ∙ first_listed-append from_lt k (parse_all page) (parse_all (flatten pages))
    ∙ ap (or_first (first_listed from_lt k (parse_all page))) (by_page from_lt k pages)

-- If the lite server serves the whole history of the master wallet, a scan gives a key a provider
-- exactly if a transaction of that history that is newer than the stored LT registers it. If several
-- do, it takes one of the newest page that has one, and of those the first in that page, whose LTs
-- rise: the oldest registration of that page, but not of the history, if older pages have one too.
pub scan_refines :
    (api : Api) (addr : Text) (from_lt : ℕ) (pages : Pages) (w : World)
    → IsServed api addr pages
    → (txs : List Transaction) × ((get_transactions api addr from_lt w).0 ≡ ok txs)
      × ((k : Text)
          → lookup k (scan_registrations from_lt txs [] from_lt).0 ≡ first_by_page from_lt k pages)
scan_refines api addr from_lt pages w s =
    let got = get_transactions_lem api addr from_lt pages w s in
    (
      got.0,
      got.1,
      (λ k.
          collected_by_newer from_lt got.0 (parse_all (flatten pages)) got.2 k
          ∙ by_page from_lt k pages),
    )
