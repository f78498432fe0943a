-- ===== src/Workers/Bounds.antt =====
-- The semaphore holds, and the fan-out ends.
use mytonprovider_agent.Common.{
  Bool, true, false, ℕ, zero, suc, ◌+◌, ◌-◌, ◌*◌, ◌≤◌, ◌<◌, ◌≡◌, refl, none, some, List, [], ◌∷◌,
  arith, length, length-append, length-pick,
}
use mytonprovider_agent.World.{is_done}
use mytonprovider_agent.Workers.{
  ticked, next_one, Pool, Fanout, offer, complete, blocked, choose, turn, round, run_rounds,
}

-- how many rounds are left at most
abbrev pub rounds_left : {J R : Type 0} → Pool J R → ℕ
rounds_left s = 2 * length s.todo + length s.running

module _ {J R : Type 0} (f : Fanout J R) where
  offer-left :
      (j : J) (js : List J) (s : Pool J R)
      → (rounds_left (offer f j js s) ≤ 2 * length js + length s.running + 1)
        × (length (offer f j js s).running ≤ length s.running + 1)
  unfolding offer
  offer-left j js s = ground (arith, length-append {0} s.running (j ∷ []))

  complete-left :
      (i : ℕ) (r : J) (rs : List J) (s : Pool J R)
      → (rounds_left (complete f i r rs s) ≡ 2 * length s.todo + length rs)
        × (length (complete f i r rs s).running ≡ length rs)
  unfolding complete
  complete-left i r rs s = ground (arith, length-pick {0} i r rs)

  blocked-left :
      (done admitted : Bool) (j : J) (js : List J) (r : J) (rs : List J) (s : Pool J R)
      → s.running ≡ r ∷ rs
      → (rounds_left (blocked f done admitted j js r rs s) ≤ 2 * length js + length (r ∷ rs))
        × (length (blocked f done admitted j js r rs s).running ≤ length (r ∷ rs))
  unfolding blocked
  blocked-left true admitted j js r rs s er = ground (arith, er)
  blocked-left false false j js r rs s er = ground (arith, er)
  blocked-left false true j js r rs s er =
      let i = next_one f s.world.tick in
      ground
        (arith, complete-left i r rs s, length-append {0} (complete f i r rs s).running (j ∷ []))

  -- the same, as `choose` calls it
  full-left :
      (j : J) (js : List J) (r : J) (rs : List J) (s : Pool J R)
      → s.running ≡ r ∷ rs
      → (let s' : Pool J R =
            blocked f (is_done f.ctx s.world.tick) (f.admits j) j js r rs (ticked s) in
          (rounds_left s' ≤ 2 * length js + length (r ∷ rs))
          × (length s'.running ≤ length (r ∷ rs)))
  full-left j js r rs s er =
      blocked-left (is_done f.ctx s.world.tick) (f.admits j) j js r rs (ticked s) er

  turn-left :
      (js rs : List J) (s : Pool J R)
      → s.todo ≡ js
      → s.running ≡ rs
      → rounds_left (turn f js rs s) ≤ 2 * length js + length rs - 1
  unfolding turn choose
  turn-left [] [] s et er = ground arith
  turn-left [] (r ∷ rs) s et er =
      ground
        (arith, complete-left (elim (f.schedule s.world.tick) [ none ↦ 0 | some i ↦ i ]) r rs s)
  turn-left (j ∷ js) [] s et er = ground (arith, offer-left j js s)
  turn-left (j ∷ js) (r ∷ rs) s et er =
      elim (f.schedule s.world.tick)
        as (λ c. rounds_left (choose f c j js r rs s) ≤ 2 * length (j ∷ js) + length (r ∷ rs) - 1) [
          | none ↦ ground (arith, offer-left j js s, full-left j js r rs s er)
          | some i ↦ ground (arith, complete-left i r rs s)
        ]

  turn_bounded :
      (js rs : List J) (s : Pool J R)
      → s.running ≡ rs
      → 0 < f.cap
      → length rs ≤ f.cap
      → length (turn f js rs s).running ≤ f.cap
  unfolding turn choose
  turn_bounded [] [] s er c h = ground arith
  turn_bounded [] (r ∷ rs) s er c h =
      ground
        (arith, complete-left (elim (f.schedule s.world.tick) [ none ↦ 0 | some i ↦ i ]) r rs s)
  turn_bounded (j ∷ js) [] s er c h = ground (arith, offer-left j js s)
  turn_bounded (j ∷ js) (r ∷ rs) s er c h =
      elim (f.schedule s.world.tick) as (λ o. length (choose f o j js r rs s).running ≤ f.cap) [
        | none ↦ ground (arith, offer-left j js s, full-left j js r rs s er)
        | some i ↦ ground (arith, complete-left i r rs s)
      ]

  -- At no moment are there more goroutines than the semaphore has places.
  pub run_rounds_bounded :
      (n : ℕ) (s : Pool J R)
      → 0 < f.cap
      → length s.running ≤ f.cap
      → length (run_rounds f n s).running ≤ f.cap
  unfolding run_rounds round
  run_rounds_bounded zero s c h = h
  run_rounds_bounded (suc n) s c h =
      run_rounds_bounded n (turn f s.todo s.running s) c (turn_bounded s.todo s.running s refl c h)

  pub run_rounds_ends :
      (n : ℕ) (s : Pool J R) → rounds_left s ≤ n → rounds_left (run_rounds f n s) ≡ 0
  unfolding run_rounds round
  run_rounds_ends zero s h = omega arith
  run_rounds_ends (suc n) s h =
      run_rounds_ends n (turn f s.todo s.running s)
        (omega (arith, turn-left s.todo s.running s refl refl))
