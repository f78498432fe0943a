-- ===== src/Utils/Retries.antt =====
-- When retrying a call gives an error.
use mytonprovider_agent.Common.{
  ℕ, zero, suc, ◌+◌, ◌≡◌, refl, Bool, false, ◌||◌, ◌==◌, List, [], ◌∷◌, arith,
}
use mytonprovider_agent.World.{World, Act, Result, ok, err, Error}
use mytonprovider_agent.Publisher.{accepted}
use mytonprovider_agent.Utils.{try_from, try_n_times}

-- the results of `n` calls of `f`, each a pause after the one before it
unfoldable pub attempts : Act (Unit {0}) → ℕ → World → List (Result (Unit {0}))
attempts f zero w = []
attempts f (suc n) w = (f w).0 ∷ attempts f n (record ((f w).1) { tick = (f w).1.tick + 1 })

unfoldable pub any_ok : List (Result (Unit {0})) → Bool
any_ok [] = false
any_ok (r ∷ rs) = accepted r || any_ok rs

one_more :
    (f : Act (Unit {0})) (n : ℕ) (r : Result (Unit {0})) (rest : List (Result (Unit {0})))
    (w : World) (next : Result (Unit {0}) → Result (Unit {0}) × World)
    → ((e : Error) → accepted (next (err e)).0 ≡ any_ok rest)
    → accepted
        (elim r as (λ x. Result (Unit {0}) × World) [ ok a ↦ (ok tt, w) | err e ↦ next (err e) ]).0
      ≡ any_ok (r ∷ rest)
unfolding any_ok
one_more f n (ok a) rest w next h = refl
one_more f n (err e) rest w next h = h e

try_from_lem :
    (f : Act (Unit {0})) (n : ℕ) (e : Error) (w : World)
    → accepted (try_from f n (err e) w).0 ≡ any_ok (attempts f n w)
unfolding try_from attempts any_ok
try_from_lem f zero e w = refl
try_from_lem f (suc n) e w =
    one_more f n (f w).0 (attempts f n (record ((f w).1) { tick = (f w).1.tick + 1 })) (f w).1
      (λ last. try_from f n last (record ((f w).1) { tick = (f w).1.tick + 1 }))
      (λ x. try_from_lem f n x (record ((f w).1) { tick = (f w).1.tick + 1 }))

first_try :
    (f : Act (Unit {0})) (n : ℕ) (w : World)
    → accepted (try_from f (suc n) (ok tt) w).0 ≡ any_ok (attempts f (suc n) w)
unfolding try_from attempts any_ok
first_try f n w =
    one_more f n (f w).0 (attempts f n (record ((f w).1) { tick = (f w).1.tick + 1 })) (f w).1
      (λ last. try_from f n last (record ((f w).1) { tick = (f w).1.tick + 1 }))
      (λ x. try_from_lem f n x (record ((f w).1) { tick = (f w).1.tick + 1 }))

-- `TryNTimes` returns no error exactly if one of its calls does, or if it makes none.
try_n_times_lem :
    (f : Act (Unit {0})) (n : ℕ) (w : World)
    → accepted (try_n_times f n w).0 ≡ (n == 0 || any_ok (attempts f n w))
unfolding try_n_times try_from
try_n_times_lem f zero w = refl
try_n_times_lem f (suc n) w = ground (arith, first_try f n w)
