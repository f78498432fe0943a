-- ===== src/Workers/Results.antt =====
-- Every admitted job gives one result, in whatever order the goroutines complete.
use mathlib.Core.List.{Perm, append_assoc, append-nil, map-append}
use mathlib.Core.List.Perm
use mytonprovider_agent.Common.{
  ℕ, zero, suc, ◌*◌, ◌≡◌, refl, Bool, true, false, none, some, List, [], ◌∷◌, ◌++◌, map, arith,
  length, select, All, All-append, pick, pick-perm, ltb, if◌then◌else◌,
}
use mytonprovider_agent.World.{World, is_done}
use mytonprovider_agent.Workers.{
  Pool, Fanout, ticked, offer, complete, next_one, blocked, choose, turn, round, run_rounds,
  fan_out,
}
use mytonprovider_agent.Workers.Bounds.{run_rounds_ends}

length-eq-zero : {J : Type 0} (js : List J) → length js ≡ 0 → js ≡ []
length-eq-zero [] h = refl
length-eq-zero (j ∷ js) h = absurd (omega arith)

-- `key` tells for which job a result is, and the context is never done.
module _ {J R : Type 0} (f : Fanout J R) (key : R → J)
    (answers : (j : J) (w : World) → key (f.work j w).0 ≡ j) (runs : f.ctx.done_at ≡ none) where
  -- the jobs that have a result, run, or are still to be started
  held : Pool J R → List J
  held s = map key s.out ++ (s.running ++ select f.admits s.todo)

  offer-held :
      (j : J) (js : List J) (s : Pool J R) → s.todo ≡ j ∷ js → held (offer f j js s) ≡ held s
  unfolding offer held
  offer-held j js s e = ground (arith, runs, append_assoc s.running (j ∷ []) (select f.admits js))

  complete-held :
      (i : ℕ) (r : J) (rs : List J) (s : Pool J R)
      → s.running ≡ r ∷ rs
      → Perm (held (complete f i r rs s)) (held s)
  unfolding complete held
  complete-held i r rs s e =
      let x = (pick i r rs).0 in
      let rest = (pick i r rs).1 in
      let pending = select f.admits s.todo in
      rw
        (
          map-append key s.out ((f.work x s.world).0 ∷ []),
          answers x s.world,
          append_assoc (map key s.out) (x ∷ []) (rest ++ pending),
          e,
        )
        (Perm.append_left (map key s.out) (Perm.append_right pending (pick-perm i r rs)))

  -- the job that waits is still to be started, after the completion
  complete-kept :
      (i : ℕ) (j : J) (js : List J) (r : J) (rs : List J) (s : Pool J R)
      → f.admits j ≡ true
      → s.todo ≡ j ∷ js
      → s.running ≡ r ∷ rs
      → Perm
          (map key (complete f i r rs s).out
            ++ ((complete f i r rs s).running ++ j ∷ select f.admits js))
          (held s)
  unfolding complete
  complete-kept i j js r rs s ea et er =
      let same : select f.admits s.todo ≡ j ∷ select f.admits js = ground (arith, et, ea) in
      rw (← same) (unfold held in complete-held i r rs s er)

  blocked-held :
      (admitted : Bool) (j : J) (js : List J) (r : J) (rs : List J) (s : Pool J R)
      → f.admits j ≡ admitted
      → s.todo ≡ j ∷ js
      → s.running ≡ r ∷ rs
      → Perm (held (blocked f false admitted j js r rs s)) (held s)
  unfolding blocked held
  blocked-held false j js r rs s ea et er = rw (et, ea) (Perm.refl _)
  blocked-held true j js r rs s ea et er =
      let i = next_one f s.world.tick in
      rw (append_assoc (complete f i r rs s).running (j ∷ []) (select f.admits js))
        (complete-kept i j js r rs s ea et er)

  may_offer :
      (b : Bool) (j : J) (js : List J) (r : J) (rs : List J) (s : Pool J R)
      → s.todo ≡ j ∷ js
      → s.running ≡ r ∷ rs
      → Perm
          (held (
            if b
            then offer f j js s
            else blocked f (is_done f.ctx s.world.tick) (f.admits j) j js r rs (ticked s)))
          (held s)
  unfolding held
  may_offer true j js r rs s et er = rw (offer-held j js s et) (Perm.refl _)
  may_offer false j js r rs s et er =
      let goes_on : is_done f.ctx s.world.tick ≡ false = ground (arith, runs) in
      rw goes_on (blocked-held (f.admits j) j js r rs (ticked s) refl et er)

  turn-held :
      (js rs : List J) (s : Pool J R)
      → s.todo ≡ js
      → s.running ≡ rs
      → Perm (held (turn f js rs s)) (held s)
  unfolding turn choose
  turn-held [] [] s et er = Perm.refl _
  turn-held [] (r ∷ rs) s et er =
      complete-held (elim (f.schedule s.world.tick) [ none ↦ 0 | some i ↦ i ]) r rs s er
  turn-held (j ∷ js) [] s et er = rw (offer-held j js s et) (Perm.refl _)
  turn-held (j ∷ js) (r ∷ rs) s et er =
      elim (f.schedule s.world.tick) as (λ o. Perm (held (choose f o j js r rs s)) (held s)) [
        | none ↦ may_offer (ltb (length s.running) f.cap) j js r rs s et er
        | some i ↦ complete-held i r rs s er
      ]

  run_rounds-held : (n : ℕ) (s : Pool J R) → Perm (held (run_rounds f n s)) (held s)
  unfolding run_rounds round
  run_rounds-held zero s = Perm.refl _
  run_rounds-held (suc n) s =
      Perm.trans (run_rounds-held n (turn f s.todo s.running s))
        (turn-held s.todo s.running s refl refl)

  held_idle : (s : Pool J R) → s.todo ≡ [] → s.running ≡ [] → held s ≡ map key s.out
  unfolding held
  held_idle s et er = rw (et, er) (append-nil (map key s.out))

  -- When the fan-out returns, each admitted job has exactly one result, and there is no other.
  pub fan_out-perm :
      (jobs : List J) (w : World) → Perm (map key (fan_out f jobs w).0) (select f.admits jobs)
  unfolding fan_out held
  fan_out-perm jobs w =
      let s : Pool J R = record { todo = jobs; running = []; out = []; world = w } in
      let e = run_rounds_ends f (2 * length jobs) s (omega arith) in
      rw
        (← held_idle (run_rounds f (2 * length jobs) s) (length-eq-zero _ (omega (arith, e)))
          (length-eq-zero _ (omega (arith, e))))
        (run_rounds-held (2 * length jobs) s)

-- What each goroutine's result satisfies, all results do.
module _ {J R : Type 0} (f : Fanout J R) (P : R → Type 0)
    (each : (j : J) (w : World) → P (f.work j w).0) where
  complete-All :
      (i : ℕ) (r : J) (rs : List J) (s : Pool J R) → All P s.out → All P (complete f i r rs s).out
  unfolding complete
  complete-All i r rs s h = All-append P s.out _ h (each (pick i r rs).0 s.world, tt)

  offer-out : (j : J) (js : List J) (s : Pool J R) → (offer f j js s).out ≡ s.out
  unfolding offer
  offer-out j js s = ground arith

  blocked-All :
      (done admitted : Bool) (j : J) (js : List J) (r : J) (rs : List J) (s : Pool J R)
      → All P s.out
      → All P (blocked f done admitted j js r rs s).out
  unfolding blocked
  blocked-All true admitted j js r rs s h = h
  blocked-All false false j js r rs s h = h
  blocked-All false true j js r rs s h = complete-All (next_one f s.world.tick) r rs s h

  may_offer-All :
      (b : Bool) (j : J) (js : List J) (r : J) (rs : List J) (s : Pool J R)
      → All P s.out
      → All P
          (if b
            then offer f j js s
            else blocked f (is_done f.ctx s.world.tick) (f.admits j) j js r rs (ticked s)).out
  may_offer-All true j js r rs s h = rw (offer-out j js s) h
  may_offer-All false j js r rs s h =
      blocked-All (is_done f.ctx s.world.tick) (f.admits j) j js r rs (ticked s) h

  turn-All : (js rs : List J) (s : Pool J R) → All P s.out → All P (turn f js rs s).out
  unfolding turn choose
  turn-All [] [] s h = h
  turn-All [] (r ∷ rs) s h =
      complete-All (elim (f.schedule s.world.tick) [ none ↦ 0 | some i ↦ i ]) r rs s h
  turn-All (j ∷ js) [] s h = rw (offer-out j js s) h
  turn-All (j ∷ js) (r ∷ rs) s h =
      elim (f.schedule s.world.tick) as (λ o. All P (choose f o j js r rs s).out) [
        | none ↦ may_offer-All (ltb (length s.running) f.cap) j js r rs s h
        | some i ↦ complete-All i r rs s h
      ]

  run_rounds-All : (n : ℕ) (s : Pool J R) → All P s.out → All P (run_rounds f n s).out
  unfolding run_rounds round
  run_rounds-All zero s h = h
  run_rounds-All (suc n) s h =
      run_rounds-All n (turn f s.todo s.running s) (turn-All s.todo s.running s h)

  pub fan_out-All : (jobs : List J) (w : World) → All P (fan_out f jobs w).0
  unfolding fan_out
  fan_out-All jobs w = run_rounds-All (2 * length jobs) _ tt
