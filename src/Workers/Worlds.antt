-- ===== src/Workers/Worlds.antt =====
-- What every goroutine keeps of the world, the fan-out keeps.
use mytonprovider_agent.Common.{
  ℕ, zero, suc, ◌+◌, ◌*◌, ◌≡◌, Bool, true, false, none, some, List, [], ◌∷◌, length, ltb,
  if◌then◌else◌, pick, arith,
}
use mytonprovider_agent.World.{World, is_done}
use mytonprovider_agent.Workers.{
  Pool, Fanout, ticked, offer, complete, next_one, blocked, choose, turn, round, run_rounds,
  fan_out,
}

module _ {J R : Type 0} (f : Fanout J R) (P : World → Type 0)
    (ticks : (w : World) (t : ℕ) → P w → P (record w { tick = t }))
    (each : (j : J) (w : World) → P w → P (f.work j w).1) where
  offer-world :
      (j : J) (js : List J) (s : Pool J R)
      → (offer f j js s).world ≡ record s.world { tick = s.world.tick + 1 }
  unfolding offer
  offer-world j js s = ground arith

  offer_keeps : (j : J) (js : List J) (s : Pool J R) → P s.world → P (offer f j js s).world
  offer_keeps j js s h = rw (offer-world j js s) (ticks s.world _ h)

  complete_keeps :
      (i : ℕ) (r : J) (rs : List J) (s : Pool J R) → P s.world → P (complete f i r rs s).world
  unfolding complete
  complete_keeps i r rs s h = each (pick i r rs).0 s.world h

  blocked_keeps :
      (done admitted : Bool) (j : J) (js : List J) (r : J) (rs : List J) (s : Pool J R)
      → P s.world
      → P (blocked f done admitted j js r rs s).world
  unfolding blocked
  blocked_keeps true admitted j js r rs s h = h
  blocked_keeps false false j js r rs s h = h
  blocked_keeps false true j js r rs s h = complete_keeps (next_one f s.world.tick) r rs s h

  may_offer_keeps :
      (b : Bool) (j : J) (js : List J) (r : J) (rs : List J) (s : Pool J R)
      → P s.world
      → P
          (if b
            then offer f j js s
            else blocked f (is_done f.ctx s.world.tick) (f.admits j) j js r rs (ticked s)).world
  may_offer_keeps true j js r rs s h = offer_keeps j js s h
  may_offer_keeps false j js r rs s h =
      blocked_keeps (is_done f.ctx s.world.tick) (f.admits j) j js r rs (ticked s)
        (ticks s.world _ h)

  turn_keeps : (js rs : List J) (s : Pool J R) → P s.world → P (turn f js rs s).world
  unfolding turn choose
  turn_keeps [] [] s h = h
  turn_keeps [] (r ∷ rs) s h =
      complete_keeps (elim (f.schedule s.world.tick) [ none ↦ 0 | some i ↦ i ]) r rs s h
  turn_keeps (j ∷ js) [] s h = offer_keeps j js s h
  turn_keeps (j ∷ js) (r ∷ rs) s h =
      elim (f.schedule s.world.tick) as (λ o. P (choose f o j js r rs s).world) [
        | none ↦ may_offer_keeps (ltb (length s.running) f.cap) j js r rs s h
        | some i ↦ complete_keeps i r rs s h
      ]

  run_rounds_keeps : (n : ℕ) (s : Pool J R) → P s.world → P (run_rounds f n s).world
  unfolding run_rounds round
  run_rounds_keeps zero s h = h
  run_rounds_keeps (suc n) s h =
      run_rounds_keeps n (turn f s.todo s.running s) (turn_keeps s.todo s.running s h)

  pub fan_out_keeps : (jobs : List J) (w : World) → P w → P (fan_out f jobs w).1
  unfolding fan_out
  fan_out_keeps jobs w h = run_rounds_keeps (2 * length jobs) _ h
