-- ===== src/Loadtest/Counting.antt =====
-- What the tool counts: each id once.
use package.text.Mathlib.Text.{◌==◌ as str_eq}
use package.text.Mathlib.TextEquality.{eq_iff}
use mytonprovider_agent.Common.{
  ℕ, suc, ◌+◌, ◌≡◌, refl, String, true, false, Option, none, some, List, [], ◌∷◌, length, arith,
  Bool-cases, inl, inr,
}
use mytonprovider_agent.Jobs.{ResultEnvelope, Status}
use mytonprovider_agent.World.{Result, ok, err}
use mytonprovider_agent.Consumer.{Message}
use mytonprovider_agent.Loadtest.{
  Broker, Run, is_pending, remove, raw_text, count_result, take_result, take_all, read_results,
}

-- No id stands in the list twice.
unfoldable pub IsDistinct : List String → Type 0
IsDistinct [] = Unit {0}
IsDistinct (x ∷ xs) = (is_pending x xs ≡ false) × IsDistinct xs

remove_absent : (id : String) (xs : List String) → is_pending id xs ≡ false → remove id xs ≡ xs
unfolding is_pending remove
remove_absent id [] h = refl
remove_absent id (x ∷ xs) h = ground (arith, remove_absent id xs)

is_pending-remove :
    (y id : String) (xs : List String)
    → is_pending y xs ≡ false
    → is_pending y (remove id xs) ≡ false
unfolding is_pending remove
is_pending-remove y id [] h = refl
is_pending-remove y id (x ∷ xs) h = ground (arith, is_pending-remove y id xs)

length-remove :
    (id : String) (xs : List String)
    → IsDistinct xs
    → is_pending id xs ≡ true
    → suc (length (remove id xs)) ≡ length xs
unfolding is_pending remove IsDistinct
length-remove id [] d h = absurd (cc h)
length-remove id (x ∷ xs) d h = elim (Bool-cases (str_eq x id)) [
  | inl e ↦
      let same : x ≡ id = (eq_iff x id).0 e in
      let absent : is_pending id xs ≡ false = rw (← same) d.0 in
      rw (e, remove_absent id xs absent) refl
  | inr e ↦ ground (arith, e, length-remove id xs d.1)
]

remove-IsDistinct : (id : String) (xs : List String) → IsDistinct xs → IsDistinct (remove id xs)
unfolding remove IsDistinct is_pending
remove-IsDistinct id [] d = tt
remove-IsDistinct id (x ∷ xs) d = elim (Bool-cases (str_eq x id)) [
  | inl e ↦ rw e (remove-IsDistinct id xs d.1)
  | inr e ↦ rw e (is_pending-remove x id xs d.0, remove-IsDistinct id xs d.1)
]

-- Each of the `n` triggers is counted as answered without an error, answered with one, or pending.
pub record IsCounted (n : ℕ) (r : Run) : Type 0 where
  pub distinct : IsDistinct r.pending
  pub all : r.got_ok + r.got_err + length r.pending ≡ n

module _ (n : ℕ) where
  count_result-IsCounted :
      (s : Status) (id : String) (r : Run)
      → is_pending id r.pending ≡ true
      → IsCounted n r
      → IsCounted n (count_result s (record r { pending = remove id r.pending }))
  count_result-IsCounted Status.status_ok id r h c = record {
    distinct = remove-IsDistinct id r.pending c.distinct;
    all = omega (arith, c.all, length-remove id r.pending c.distinct h);
  }
  count_result-IsCounted Status.status_error id r h c = record {
    distinct = remove-IsDistinct id r.pending c.distinct;
    all = omega (arith, c.all, length-remove id r.pending c.distinct h);
  }

  take_result-IsCounted :
      (env : ResultEnvelope) (r : Run) → IsCounted n r → IsCounted n (take_result env r)
  unfolding take_result
  take_result-IsCounted env r c = elim (Bool-cases (is_pending env.job_id r.pending)) [
    | inl h ↦ rw h (count_result-IsCounted env.status env.job_id r h c)
    | inr h ↦ rw h c
  ]

  read_one :
      (o : Option ResultEnvelope) (r : Run)
      → IsCounted n r
      → IsCounted n (elim o [ none ↦ r | some env ↦ take_result env r ])
  read_one none r c = c
  read_one (some env) r c = take_result-IsCounted env r c

  take_all-IsCounted :
      (b : Broker) (ms : List Message) (r : Run) → IsCounted n r → IsCounted n (take_all b ms r)
  unfolding take_all
  take_all-IsCounted b [] r c = c
  take_all-IsCounted b (m ∷ ms) r c = take_all-IsCounted b ms _ (
      read_one (b.unmarshal (raw_text m)) (record r { last_id = m.id })
        (record { distinct = c.distinct; all = c.all }))

  pub read_results-IsCounted :
      (b : Broker) (a : Result (List Message)) (r : Run)
      → IsCounted n r
      → IsCounted n (read_results b a r)
  unfolding read_results
  read_results-IsCounted b (ok ms) r c = take_all-IsCounted b ms r c
  read_results-IsCounted b (err e) r c = c
