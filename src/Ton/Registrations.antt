-- ===== src/Ton/Registrations.antt =====
-- What the loop of the master scanner collects, and what its `Scan` returns.
use mathlib.Core.List.{Memᴰ}
use mytonprovider_agent.Common.{
  ◌⊎◌, ◌∙◌, ℕ, ◌≤◌, ◌≡◌, refl, sym, Bool, true, false, not, ◌&&◌, Option, none, some, List, [], ◌∷◌,
  map, ltb, leb, Text, text_eq, text_eq_iff, if◌then◌else◌, All, arith, Bool-cases, inl, inr,
}
use mytonprovider_agent.Common.Dict.{Dict, lookup, has, lookup-insert}
use mytonprovider_agent.Domain.{Provider}
use mytonprovider_agent.Lite.{Transaction}
use mytonprovider_agent.Ton.Master.{registration, registrant, add_registrant, scan_registrations}

-- the transaction registers the key `k`
unfoldable pub registers : Text → Option Text → Bool
registers k none = false
registers k (some j) = text_eq j k

-- the first in the list of the transactions after `from_lt` that register `k`, as a provider
unfoldable pub first_listed : ℕ → Text → List Transaction → Option Provider
unfolding registers
first_listed from_lt k [] = none
first_listed from_lt k (tx ∷ txs) =
    let rest = first_listed from_lt k txs in
    if not (leb tx.lt from_lt) && registers k (registration tx)
    then some (registrant k tx)
    else rest

abbrev pub or_first : Option Provider → Option Provider → Option Provider
or_first none o = o
or_first (some p) o = some p

or_first-none : (o : Option Provider) → or_first o none ≡ o
or_first-none none = refl
or_first-none (some p) = refl

or_first_assoc : (a b c : Option Provider) → or_first (or_first a b) c ≡ or_first a (or_first b c)
or_first_assoc none b c = refl
or_first_assoc (some p) b c = refl

present :
    (o : Option Provider)
    → elim o [ none ↦ false | some v ↦ true ] ≡ true
    → (p : Provider) × (o ≡ some p)
present none h = absurd (cc h)
present (some p) h = (p, refl)

has-some :
    (j : Text) (unique : Dict Provider)
    → has j unique ≡ true
    → (p : Provider) × (lookup j unique ≡ some p)
has-some j unique h = present (lookup j unique) h

lookup-add_registrant :
    (k : Text) (o : Option Text) (tx : Transaction) (unique : Dict Provider)
    → lookup k (add_registrant o tx unique)
      ≡ or_first (lookup k unique) (if registers k o then some (registrant k tx) else none)
unfolding add_registrant registers
lookup-add_registrant k none tx unique = sym (or_first-none (lookup k unique))
lookup-add_registrant k (some j) tx unique = elim (Bool-cases (has j unique)) [
  | inl known ↦
      rw known
        (ground (arith, text_eq_iff j k, has-some j unique known, or_first-none (lookup k unique)))
  | inr new ↦ rw new (
      ground (
        arith,
        lookup-insert j k (registrant j tx) unique,
        text_eq_iff j k,
        or_first-none (lookup k unique),
      ))
]

merged :
    (yes : Bool) (o : Option Provider) (p : Provider) (rest : Option Provider)
    → or_first (or_first o (if yes then some p else none)) rest
      ≡ or_first o (if yes then some p else rest)
merged true o p rest = or_first_assoc o (some p) rest
merged false o p rest = rw (or_first-none o) refl

module _ (from_lt : ℕ) (k : Text) where
  one_more :
      (old : Bool) (tx : Transaction) (txs : List Transaction) (unique : Dict Provider)
      (last_lt lt : ℕ)
      → ((u : Dict Provider) (l : ℕ)
          → lookup k (scan_registrations from_lt txs u l).0
            ≡ or_first (lookup k u) (first_listed from_lt k txs))
      → lookup k
          (scan_registrations from_lt txs
            (if old then unique else add_registrant (registration tx) tx unique)
            (if old then last_lt else lt)).0
        ≡ or_first (lookup k unique) (
            if not old && registers k (registration tx)
            then some (registrant k tx)
            else first_listed from_lt k txs)
  one_more true tx txs unique last_lt lt ih = ih unique last_lt
  one_more false tx txs unique last_lt lt ih =
      rw
        (
          ih (add_registrant (registration tx) tx unique) lt,
          lookup-add_registrant k (registration tx) tx unique,
        )
        (merged (registers k (registration tx)) (lookup k unique) (registrant k tx)
          (first_listed from_lt k txs))

  lookup-scan_registrations :
      (txs : List Transaction) (unique : Dict Provider) (last_lt : ℕ)
      → lookup k (scan_registrations from_lt txs unique last_lt).0
        ≡ or_first (lookup k unique) (first_listed from_lt k txs)
  unfolding scan_registrations first_listed
  lookup-scan_registrations [] unique last_lt = sym (or_first-none (lookup k unique))
  lookup-scan_registrations (tx ∷ txs) unique last_lt =
      one_more (leb tx.lt from_lt) tx txs unique last_lt
        (if ltb last_lt tx.lt then tx.lt else last_lt) (lookup-scan_registrations txs)

-- The loop of the master scanner gives a key exactly the registration of it that is the first in
-- its list of those newer than the stored LT, and no provider to a key that none of them registers.
pub scan_registrations_lem :
    (from_lt : ℕ) (k : Text) (txs : List Transaction)
    → lookup k (scan_registrations from_lt txs [] from_lt).0 ≡ first_listed from_lt k txs
unfolding lookup
scan_registrations_lem from_lt k txs = lookup-scan_registrations from_lt k txs [] from_lt

-- `n` is the largest of `start` and the LTs of the transactions.
pub record IsNewest (start : ℕ) (txs : List Transaction) (n : ℕ) : Type 0 where
  pub from_start : start ≤ n
  pub bounds : All (λ tx. tx.lt ≤ n) txs
  pub reached : (n ≡ start) ⊎ Memᴰ n (map (λ tx. tx.lt) txs)

newest_step :
    (old later : Bool) (from_lt lt last_lt : ℕ)
    → leb lt from_lt ≡ old
    → ltb last_lt lt ≡ later
    → from_lt ≤ last_lt
    → (let next : ℕ = (if old then last_lt else if later then lt else last_lt) in
        (last_lt ≤ next) × (lt ≤ next) × ((next ≡ last_lt) ⊎ (next ≡ lt)))
newest_step true later from_lt lt last_lt eo el h = (omega arith, ground arith, inl refl)
newest_step false true from_lt lt last_lt eo el h = (ground arith, omega arith, inr refl)
newest_step false false from_lt lt last_lt eo el h = (omega arith, ground arith, inl refl)

extend :
    (tx : Transaction) (txs : List Transaction) (last_lt next n : ℕ)
    → last_lt ≤ next
    → tx.lt ≤ next
    → ((next ≡ last_lt) ⊎ (next ≡ tx.lt))
    → IsNewest next txs n
    → IsNewest last_lt (tx ∷ txs) n
extend tx txs last_lt next n h1 h2 o r = record {
  from_start = omega (arith, r.from_start);
  bounds = (omega (arith, r.from_start), r.bounds);
  reached = elim r.reached [
    | inl e ↦ elim o [ inl a ↦ inl (e ∙ a) | inr b ↦ inr (Memᴰ.head (e ∙ b)) ]
    | inr m ↦ inr (Memᴰ.tail m)
  ];
}

-- The LT that the loop ends with is the largest of the stored LT and those of the transactions.
pub scan_registrations-IsNewest :
    (from_lt : ℕ) (txs : List Transaction) (unique : Dict Provider) (last_lt : ℕ)
    → from_lt ≤ last_lt
    → IsNewest last_lt txs (scan_registrations from_lt txs unique last_lt).1
unfolding scan_registrations
scan_registrations-IsNewest from_lt [] unique last_lt h = record {
  from_start = omega arith;
  bounds = tt;
  reached = inl refl;
}
scan_registrations-IsNewest from_lt (tx ∷ txs) unique last_lt h =
    let s = newest_step (leb tx.lt from_lt) (ltb last_lt tx.lt) from_lt tx.lt last_lt refl refl h in
    extend tx txs last_lt _ _ s.0 s.1 s.2
      (scan_registrations-IsNewest from_lt txs _ _ (omega (arith, s.0, h)))
