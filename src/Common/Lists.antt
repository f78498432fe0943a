-- ===== src/Common/Lists.antt =====
-- Lists measured by native numbers, predicates on their elements, and orders of traversal.
use Prim.Native.Nat.{ℕ, zero, suc, ◌+◌, min}
use mathlib.Core.Path.{◌≡◌, refl, ap}
use mathlib.Core.Bool.{Bool, true, false}
use mathlib.Core.List.{List, [], ◌∷◌, ◌++◌, Perm, Memᴰ}
use mathlib.Core.List.Perm
use native.Mathlib.Omega.{arith}
use mytonprovider_agent.Common.Tests.{if◌then◌else◌}

module _ {ℓ} {A : Type ℓ} where
  abbrev pub length : List A → ℕ
  length [] = 0
  length (x ∷ xs) = suc (length xs)

  abbrev pub take : ℕ → List A → List A
  take zero xs = []
  take (suc n) [] = []
  take (suc n) (x ∷ xs) = x ∷ take n xs

  abbrev pub drop : ℕ → List A → List A
  drop zero xs = xs
  drop (suc n) [] = []
  drop (suc n) (x ∷ xs) = drop n xs

  pub length-take : (n : ℕ) (xs : List A) → length (take n xs) ≡ min n (length xs)
  length-take zero xs = omega arith
  length-take (suc n) [] = omega arith
  length-take (suc n) (x ∷ xs) = omega (arith, length-take n xs)

  pub length-append : (xs ys : List A) → length (xs ++ ys) ≡ length xs + length ys
  length-append [] ys = omega arith
  length-append (x ∷ xs) ys = omega (arith, length-append xs ys)

  -- `for _, x := range xs { if test(x) { out = append(out, x) } }`
  abbrev pub select : (A → Bool) → List A → List A
  select test [] = []
  select test (x ∷ xs) = let rest = select test xs in if test x then x ∷ rest else rest

  -- A predicate on all elements, by recursion, so that tactics read and build it.
  abbrev pub All {κ} : (A → Type κ) → List A → Type κ
  All P [] = Unit
  All P (x ∷ xs) = P x × All P xs

  pub All-append {κ} : (P : A → Type κ) (xs ys : List A) → All P xs → All P ys → All P (xs ++ ys)
  All-append P [] ys hx hy = hy
  All-append P (x ∷ xs) ys hx hy = (hx.0, All-append P xs ys hx.1 hy)

  pub All-map {κ μ} :
      (P : A → Type κ) (Q : A → Type μ)
      → ((a : A) → P a → Q a)
      → (xs : List A) → All P xs
      → All Q xs
  All-map P Q f [] h = tt
  All-map P Q f (x ∷ xs) h = (f x h.0, All-map P Q f xs h.1)

-- The element at place `i` (or the last one), put in front of the others.
unfoldable pub pick {ℓ} : {A : Type ℓ} → ℕ → A → List A → A × List A
pick i x [] = (x, [])
pick zero x (y ∷ ys) = (x, y ∷ ys)
pick (suc i) x (y ∷ ys) = let (z, zs) = pick i y ys in (z, x ∷ zs)

arrange_fuel {ℓ} : {A : Type ℓ} → ℕ → List ℕ → List A → List A
arrange_fuel zero picks xs = []
arrange_fuel (suc n) picks [] = []
arrange_fuel (suc n) [] (x ∷ xs) = x ∷ arrange_fuel n [] xs
arrange_fuel (suc n) (p ∷ picks) (x ∷ xs) = let (y, ys) = pick p x xs in y ∷ arrange_fuel n picks ys

-- An order that the Go runtime chooses: of a `range` over a map, or of `rand.Shuffle`. Each
-- number says which of the remaining elements comes next, so every permutation is an `arrange`.
unfoldable pub arrange {ℓ} : {A : Type ℓ} → List ℕ → List A → List A
unfolding arrange_fuel pick
arrange picks xs = arrange_fuel (length xs) picks xs

pub pick-perm {ℓ} :
    {A : Type ℓ} (i : ℕ) (x : A) (xs : List A) → Perm ((pick i x xs).0 ∷ (pick i x xs).1) (x ∷ xs)
unfolding pick
pick-perm i x [] = Perm.refl _
pick-perm zero x (y ∷ ys) = Perm.refl _
pick-perm (suc i) x (y ∷ ys) =
    Perm.trans (Perm.swap x (pick i y ys).0 (pick i y ys).1) (Perm.cons x (pick-perm i y ys))

pub length-pick {ℓ} :
    {A : Type ℓ} (i : ℕ) (x : A) (xs : List A) → length (pick i x xs).1 ≡ length xs
unfolding pick
length-pick i x [] = refl
length-pick zero x (y ∷ ys) = refl
length-pick (suc i) x (y ∷ ys) = ap suc (length-pick i y ys)

arrange_fuel-perm {ℓ} :
    {A : Type ℓ} (n : ℕ) (picks : List ℕ) (xs : List A)
    → length xs ≡ n
    → Perm (arrange_fuel n picks xs) xs
unfolding arrange_fuel
arrange_fuel-perm zero picks [] h = Perm.refl _
arrange_fuel-perm zero picks (x ∷ xs) h = absurd (omega arith)
arrange_fuel-perm (suc n) picks [] h = Perm.refl _
arrange_fuel-perm (suc n) [] (x ∷ xs) h = Perm.cons x (arrange_fuel-perm n [] xs (omega arith))
arrange_fuel-perm (suc n) (p ∷ picks) (x ∷ xs) h =
    Perm.trans
      (Perm.cons (pick p x xs).0
        (arrange_fuel-perm n picks (pick p x xs).1 (omega (arith, length-pick p x xs))))
      (pick-perm p x xs)

pub arrange-perm {ℓ} : {A : Type ℓ} (picks : List ℕ) (xs : List A) → Perm (arrange picks xs) xs
unfolding arrange
arrange-perm picks xs = arrange_fuel-perm (length xs) picks xs refl

length-arrange_fuel {ℓ} :
    {A : Type ℓ} (n : ℕ) (picks : List ℕ) (xs : List A)
    → length xs ≡ n
    → length (arrange_fuel n picks xs) ≡ n
unfolding arrange_fuel
length-arrange_fuel zero picks xs h = refl
length-arrange_fuel (suc n) picks [] h = absurd (omega arith)
length-arrange_fuel (suc n) [] (x ∷ xs) h = ap suc (length-arrange_fuel n [] xs (omega arith))
length-arrange_fuel (suc n) (p ∷ picks) (x ∷ xs) h =
    ap suc (length-arrange_fuel n picks (pick p x xs).1 (omega (arith, length-pick p x xs)))

pub length-arrange {ℓ} :
    {A : Type ℓ} (picks : List ℕ) (xs : List A) → length (arrange picks xs) ≡ length xs
unfolding arrange
length-arrange picks xs = length-arrange_fuel (length xs) picks xs refl

module _ {ℓ κ} {A : Type ℓ} (P : A → Type κ) where
  All-pick :
      (i : ℕ) (x : A) (xs : List A) → P x → All P xs → P (pick i x xs).0 × All P (pick i x xs).1
  unfolding pick
  All-pick i x [] hx h = (hx, tt)
  All-pick zero x (y ∷ ys) hx h = (hx, h)
  All-pick (suc i) x (y ∷ ys) hx h = let r = All-pick i y ys h.0 h.1 in (r.0, (hx, r.1))

  All-arrange_fuel :
      (n : ℕ) (picks : List ℕ) (xs : List A) → All P xs → All P (arrange_fuel n picks xs)
  unfolding arrange_fuel
  All-arrange_fuel zero picks xs h = tt
  All-arrange_fuel (suc n) picks [] h = tt
  All-arrange_fuel (suc n) [] (x ∷ xs) h = (h.0, All-arrange_fuel n [] xs h.1)
  All-arrange_fuel (suc n) (p ∷ picks) (x ∷ xs) h =
      let r = All-pick p x xs h.0 h.1 in (r.0, All-arrange_fuel n picks _ r.1)

  pub All-arrange : (picks : List ℕ) (xs : List A) → All P xs → All P (arrange picks xs)
  unfolding arrange
  All-arrange picks xs h = All-arrange_fuel (length xs) picks xs h

pub All-Mem {ℓ κ} : {A : Type ℓ} (P : A → Type κ) (x : A) (xs : List A) → All P xs → Memᴰ x xs → P x
All-Mem P x [] h m = elim m [ ]
All-Mem P x (y ∷ ys) h (Memᴰ.head e) = rw e h.0
All-Mem P x (y ∷ ys) h (Memᴰ.tail m) = All-Mem P x ys h.1 m

module _ {ℓ} {A : Type ℓ} (test : A → Bool) where
  select_swap :
      (b c : Bool) (x y : A) (zs : List A)
      → Perm
          (if b then x ∷ (if c then y ∷ zs else zs) else (if c then y ∷ zs else zs))
          (if c then y ∷ (if b then x ∷ zs else zs) else (if b then x ∷ zs else zs))
  select_swap true true x y zs = Perm.swap y x zs
  select_swap true false x y zs = Perm.refl _
  select_swap false true x y zs = Perm.refl _
  select_swap false false x y zs = Perm.refl _

  select_cons :
      (b : Bool) (x : A) (ys zs : List A)
      → Perm ys zs
      → Perm (if b then x ∷ ys else ys) (if b then x ∷ zs else zs)
  select_cons true x ys zs p = Perm.cons x p
  select_cons false x ys zs p = p

  select-pick-perm :
      (i : ℕ) (x : A) (xs : List A)
      → Perm (select test ((pick i x xs).0 ∷ (pick i x xs).1)) (select test (x ∷ xs))
  unfolding pick
  select-pick-perm i x [] = Perm.refl _
  select-pick-perm zero x (y ∷ ys) = Perm.refl _
  select-pick-perm (suc i) x (y ∷ ys) =
      let r = pick i y ys in
      Perm.trans (select_swap (test r.0) (test x) r.0 x (select test r.1))
        (select_cons (test x) x _ _ (select-pick-perm i y ys))

  select-arrange_fuel-perm :
      (n : ℕ) (picks : List ℕ) (xs : List A)
      → length xs ≡ n
      → Perm (select test (arrange_fuel n picks xs)) (select test xs)
  unfolding arrange_fuel
  select-arrange_fuel-perm zero picks [] h = Perm.refl _
  select-arrange_fuel-perm zero picks (x ∷ xs) h = absurd (omega arith)
  select-arrange_fuel-perm (suc n) picks [] h = Perm.refl _
  select-arrange_fuel-perm (suc n) [] (x ∷ xs) h =
      select_cons (test x) x _ _ (select-arrange_fuel-perm n [] xs (omega arith))
  select-arrange_fuel-perm (suc n) (p ∷ picks) (x ∷ xs) h =
      let r = pick p x xs in
      Perm.trans
        (select_cons (test r.0) r.0 _ _
          (select-arrange_fuel-perm n picks r.1 (omega (arith, length-pick p x xs))))
        (select-pick-perm p x xs)

  pub select-arrange-perm :
      (picks : List ℕ) (xs : List A) → Perm (select test (arrange picks xs)) (select test xs)
  unfolding arrange
  select-arrange-perm picks xs = select-arrange_fuel-perm (length xs) picks xs refl

pub All-select {ℓ κ} :
    {A : Type ℓ} (P : A → Type κ) (test : A → Bool) (xs : List A)
    → All P xs
    → All P (select test xs)
All-select P test [] h = tt
All-select P test (x ∷ xs) h = kept (test x) (All-select P test xs h.1)
  where
    kept :
        (b : Bool)
        → All P (select test xs)
        → All P (if b then x ∷ select test xs else select test xs)
    kept true r = (h.0, r)
    kept false r = r
