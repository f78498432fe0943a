-- ===== src/Lite/Transactions/History.antt =====
-- The pages of an account's history, and what the loop of `GetTransactions` collects of them.
use mathlib.Core.Option.{some-injective}
use mathlib.Core.List.{Memᴰ, append_assoc, append-nil}
use mytonprovider_agent.Common.{
  ℕ, zero, suc, ◌+◌, ◌≤◌, ◌<◌, ◌≡◌, ◌∙◌, refl, sym, ap, Bool, true, false, Option, none, some,
  All-Mem, All-map, length-append, List, [], ◌∷◌, ◌++◌, Text, ltb, leb, length, select, All,
  if◌then◌else◌, arith,
}
use mytonprovider_agent.World.{World, Act, Result, ok, pure, ask, ◌>>=◌}
use mytonprovider_agent.Lite.{RawTransaction, none_found, found, refused, Api}
use mytonprovider_agent.Lite.Transactions.{cut, on_refusal, on_page, collect}

abbrev pub Pages : Type 0
Pages = List (List RawTransaction)

-- all transactions, page by page
unfoldable pub flatten : Pages → List RawTransaction
flatten [] = []
flatten (p ∷ ps) = p ++ flatten ps

-- the transactions after `from_lt`
abbrev pub newer : ℕ → List RawTransaction → List RawTransaction
newer from_lt = select (λ t. ltb from_lt t.lt)

-- The LTs of a page rise.
unfoldable pub IsAscending : List RawTransaction → Type 0
IsAscending [] = Unit {0}
IsAscending (x ∷ xs) = All (λ y. x.lt ≤ y.lt) xs × IsAscending xs

-- No transaction of `qs` is newer than one of the page.
abbrev pub AreOlder : List RawTransaction → List RawTransaction → Type 0
AreOlder page qs = All (λ x. All (λ y. y.lt ≤ x.lt) qs) page

-- The pages of a history, the newest page first.
unfoldable pub IsHistory : Pages → Type 0
unfolding IsAscending flatten
IsHistory [] = Unit {0}
IsHistory (p ∷ ps) = IsAscending p × AreOlder p (flatten ps) × IsHistory ps

-- The lite server serves these pages, from the transaction (`lt`, `hash`) on: each page leads to
-- the next one by an LT that is below the one asked for, and after the last one there is none.
unfoldable pub Serves : Api → Text → ℕ → Text → Pages → Type 0
Serves api addr lt hash [] = (t : ℕ) → api.list_transactions addr lt hash t ≡ refused none_found
Serves api addr lt hash ([] ∷ ps) = ⊥
Serves api addr lt hash ((r ∷ rs) ∷ ps) =
    ((t : ℕ) → api.list_transactions addr lt hash t ≡ found (r ∷ rs))
    × (r.prev_lt < lt)
    × Serves api addr r.prev_lt r.prev_hash ps

newer-append :
    (from_lt : ℕ) (xs ys : List RawTransaction)
    → newer from_lt (xs ++ ys) ≡ newer from_lt xs ++ newer from_lt ys
newer-append from_lt [] ys = refl
newer-append from_lt (x ∷ xs) ys = ground (arith, newer-append from_lt xs ys)

newer_none :
    (from_lt : ℕ) (xs : List RawTransaction) → All (λ y. y.lt ≤ from_lt) xs → newer from_lt xs ≡ []
newer_none from_lt [] h = refl
newer_none from_lt (x ∷ xs) h = ground (arith, h.0, newer_none from_lt xs h.1)

-- What a page is to the scan: what was processed before, if anything.
pub record Cut (from_lt : ℕ) (page s : List RawTransaction) : Type 0 where
  pub same : newer from_lt page ≡ newer from_lt s
  pub old : (x : RawTransaction) × (x.lt ≤ from_lt) × Memᴰ x page

Cut-head :
    (from_lt : ℕ) (x : RawTransaction) (xs s : List RawTransaction) (b : Bool)
    → leb x.lt from_lt ≡ b
    → (if b then some (x ∷ xs) else none) ≡ some s
    → Cut from_lt (x ∷ xs) s
Cut-head from_lt x xs s true eb e = record {
  same = ap (newer from_lt) (some-injective (x ∷ xs) s e);
  old = (x, ground (arith, eb), Memᴰ.head refl);
}
Cut-head from_lt x xs s false eb e = absurd (cc e)

Cut-tail :
    (from_lt : ℕ) (x : RawTransaction) (xs s : List RawTransaction)
    → IsAscending (x ∷ xs)
    → ((s' : List RawTransaction) → cut from_lt xs ≡ some s' → Cut from_lt xs s')
    → (o : Option (List RawTransaction)) → cut from_lt xs ≡ o
    → elim o [ some s' ↦ some s' | none ↦ if leb x.lt from_lt then some (x ∷ xs) else none ]
      ≡ some s
    → Cut from_lt (x ∷ xs) s
unfolding IsAscending
Cut-tail from_lt x xs s h ih none eo e = Cut-head from_lt x xs s (leb x.lt from_lt) refl e
Cut-tail from_lt x xs s h ih (some s') eo e =
    let c = ih s (eo ∙ e) in
    let below = All-Mem (λ y. x.lt ≤ y.lt) c.old.0 xs h.0 c.old.2 in
    record {
      same = ground (arith, c.same, c.old.1, below);
      old = (c.old.0, c.old.1, Memᴰ.tail c.old.2);
    }

cut_lem :
    (from_lt : ℕ) (page s : List RawTransaction)
    → IsAscending page
    → cut from_lt page ≡ some s
    → Cut from_lt page s
unfolding cut IsAscending
cut_lem from_lt [] s h e = absurd (cc e)
cut_lem from_lt (x ∷ xs) s h e =
    Cut-tail from_lt x xs s h (λ s'. cut_lem from_lt xs s' h.1) (cut from_lt xs) refl e

-- What the loop has found: all that is newer than `from_lt`, here and in the pages that are left.
abbrev pub IsComplete : ℕ → List RawTransaction → Pages → Result (List RawTransaction) → Type 0
IsComplete from_lt got pages r =
    (out : List RawTransaction) × (r ≡ ok out)
    × (newer from_lt out ≡ newer from_lt got ++ newer from_lt (flatten pages))

older_by_Mem :
    (from_lt : ℕ) (x : RawTransaction) (ys : List RawTransaction)
    → x.lt ≤ from_lt
    → All (λ y. y.lt ≤ x.lt) ys
    → All (λ y. y.lt ≤ from_lt) ys
older_by_Mem from_lt x ys h a =
    All-map (λ y. y.lt ≤ x.lt) (λ y. y.lt ≤ from_lt) (λ y b. omega (arith, b)) ys a

module _ (api : Api) (addr : Text) (from_lt : ℕ) where
  stopped :
      (got page s : List RawTransaction) (ps : Pages)
      → Cut from_lt page s
      → AreOlder page (flatten ps)
      → newer from_lt (got ++ s) ≡ newer from_lt got ++ newer from_lt (flatten (page ∷ ps))
  unfolding flatten
  stopped got page s ps c older =
      let rest = newer_none from_lt (flatten ps) (
        older_by_Mem from_lt c.old.0 (flatten ps) c.old.1
          (All-Mem (λ x. All (λ y. y.lt ≤ x.lt) (flatten ps)) c.old.0 page older c.old.2)) in
      rw
        (
          newer-append from_lt got s,
          newer-append from_lt page (flatten ps),
          rest,
          append-nil (newer from_lt page),
          c.same,
        )
        refl

  went_on :
      (got page : List RawTransaction) (ps : Pages) (r : Result (List RawTransaction))
      → IsComplete from_lt (got ++ page) ps r
      → IsComplete from_lt got (page ∷ ps) r
  unfolding flatten
  went_on got page ps r c = (
    c.0,
    c.1,
    c.2
        ∙ rw
            (
              newer-append from_lt got page,
              newer-append from_lt page (flatten ps),
              append_assoc (newer from_lt got) (newer from_lt page) (newer from_lt (flatten ps)),
            )
            refl,
  )

  after_page :
      (r : RawTransaction) (rs got : List RawTransaction) (ps : Pages)
      (next : ℕ → Text → List RawTransaction → Act (List RawTransaction)) (w : World)
      (o : Option (List RawTransaction))
      → cut from_lt (r ∷ rs) ≡ o
      → IsHistory ((r ∷ rs) ∷ ps)
      → IsComplete from_lt (got ++ r ∷ rs) ps (next r.prev_lt r.prev_hash (got ++ r ∷ rs) w).0
      → IsComplete from_lt got
          ((r ∷ rs) ∷ ps)
          ((elim o as (λ x. Act (List RawTransaction)) [
            | some s ↦ pure (got ++ s)
            | none ↦ next r.prev_lt r.prev_hash (got ++ r ∷ rs)
          ])
            w).0
  unfolding pure IsHistory
  after_page r rs got ps next w none e h c = went_on got (r ∷ rs) ps _ c
  after_page r rs got ps next w (some s) e h c =
      (got ++ s, refl, stopped got (r ∷ rs) s ps (cut_lem from_lt (r ∷ rs) s h.0 e) h.1)

  -- Enough turns, and something to find: the loop ends, and misses nothing.
  pub collect-IsComplete :
      (n lt : ℕ) (hash : Text) (pages : Pages) (got : List RawTransaction) (w : World)
      → length pages < n
      → 0 < length got + length pages
      → Serves api addr lt hash pages
      → IsHistory pages
      → IsComplete from_lt got pages (collect api addr from_lt n lt hash got w).0
  unfolding collect ◌>>=◌ ask Serves IsHistory flatten on_page on_refusal pure
  collect-IsComplete zero lt hash pages got w h ne s o = absurd (omega arith)
  collect-IsComplete (suc n) lt hash [] [] w h ne s o = absurd (omega arith)
  collect-IsComplete (suc n) lt hash [] (t ∷ ts) w h ne s o =
      rw (s w.tick) (t ∷ ts, refl, sym (append-nil (newer from_lt (t ∷ ts))))
  collect-IsComplete (suc n) lt hash ([] ∷ ps) got w h ne s o = absurd s
  collect-IsComplete (suc n) lt hash ((r ∷ rs) ∷ ps) got w h ne s o = rw (s.0 w.tick) (
      after_page r rs got ps (collect api addr from_lt n) (record w { tick = w.tick + 1 })
        (cut from_lt (r ∷ rs)) refl o
        (collect-IsComplete n r.prev_lt r.prev_hash ps (got ++ r ∷ rs)
          (record w { tick = w.tick + 1 }) (omega (arith, h))
          (omega (arith, length-append got (r ∷ rs))) s.2 o.2))
