-- ===== src/Consumer/Run/Drains.antt =====
-- What is left to do once the context is done: one turn for each goroutine.
use mytonprovider_agent.Common.{
  ℕ, zero, suc, ◌+◌, ◌≤◌, ◌<◌, ◌≡◌, refl, ◌∙◌, Bool, true, false, ◌||◌, Option, none, some, List,
  [], ◌∷◌, ◌++◌, ◌==◌, length, All, dec_lt, arith,
}
use mytonprovider_agent.Jobs.{Ctx}
use mytonprovider_agent.World.{World, is_done}
use mytonprovider_agent.Consumer.Worker.{worker_turn}
use mytonprovider_agent.Consumer.Run.{
  Task, works, starts, waits, claims, ended, task_turn, take_turn, take_turns, is_ended, all_ended,
}

-- not a reaper that has not started, nor one that is claiming
abbrev pub IsSettled : Task → Type 0
IsSettled (starts c) = ⊥
IsSettled (claims c cursor) = ⊥
IsSettled _ = Unit {0}

abbrev pub has : ℕ → List ℕ → Bool
has i [] = false
has i (j ∷ js) = (i == j) || has i js

-- Each of the first `n` goroutines gets a turn.
abbrev pub Covers : List ℕ → ℕ → Type 0
Covers turns zero = Unit {0}
Covers turns (suc n) = (has n turns ≡ true) × Covers turns n

-- Time has passed, and nothing was written.
pub record Idles (w w' : World) : Type 0 where
  pub later : w.tick ≤ w'.tick
  pub same_log : w'.log ≡ w.log
  pub same_db : w'.db ≡ w.db

end_at : ℕ → List Task → List Task
end_at i [] = []
end_at zero (t ∷ ts) = ended ∷ ts
end_at (suc i) (t ∷ ts) = t ∷ end_at i ts

end_all : List ℕ → List Task → List Task
end_all [] ts = ts
end_all (i ∷ is) ts = end_all is (end_at i ts)

ended_at : ℕ → List Task → Bool
ended_at i [] = true
ended_at zero (t ∷ ts) = is_ended t
ended_at (suc i) (t ∷ ts) = ended_at i ts

ended_at-end_at :
    (j i : ℕ) (ts : List Task) → ended_at j (end_at i ts) ≡ ((j == i) || ended_at j ts)
unfolding ended_at end_at
ended_at-end_at j i [] = ground arith
ended_at-end_at zero zero (t ∷ ts) = refl
ended_at-end_at zero (suc i) (t ∷ ts) = ground arith
ended_at-end_at (suc j) zero (t ∷ ts) = ground arith
ended_at-end_at (suc j) (suc i) (t ∷ ts) = ground (arith, ended_at-end_at j i ts)

ended_at-end_all :
    (j : ℕ) (is : List ℕ) (ts : List Task)
    → ended_at j (end_all is ts) ≡ (has j is || ended_at j ts)
unfolding end_all
ended_at-end_all j [] ts = refl
ended_at-end_all j (i ∷ is) ts =
    ground (arith, ended_at-end_all j is (end_at i ts), ended_at-end_at j i ts)

length-end_at : (i : ℕ) (ts : List Task) → length (end_at i ts) ≡ length ts
unfolding end_at
length-end_at i [] = refl
length-end_at zero (t ∷ ts) = refl
length-end_at (suc i) (t ∷ ts) = omega (arith, length-end_at i ts)

length-end_all : (is : List ℕ) (ts : List Task) → length (end_all is ts) ≡ length ts
unfolding end_all
length-end_all [] ts = refl
length-end_all (i ∷ is) ts = omega (arith, length-end_all is (end_at i ts), length-end_at i ts)

all_ended-ended_at :
    (ts : List Task) → ((j : ℕ) → j < length ts → ended_at j ts ≡ true) → all_ended ts ≡ true
unfolding all_ended ended_at
all_ended-ended_at [] h = refl
all_ended-ended_at (t ∷ ts) h =
    rw (h zero (omega arith)) (all_ended-ended_at ts (λ j lt. h (suc j) (omega arith)))

covered : (is : List ℕ) (n j : ℕ) → Covers is n → j < n → has j is ≡ true
covered is zero j h lt = absurd (omega arith)
covered is (suc n) j (first, rest) lt = elim (dec_lt j n) [
  | yes below ↦ covered is n j rest below
  | no last ↦ let e : j ≡ n = omega arith in rw e first
]

module _ (ctx : Ctx) (chooses : ℕ → Bool) (d : ℕ) (done : ctx.done_at ≡ some d)
    (selects : (t : ℕ) → d ≤ t → chooses t ≡ true) where
  is_done_from : (t : ℕ) → d ≤ t → is_done ctx t ≡ true
  is_done_from t h = ground (arith, done)

  task_turn-ends :
      (t : Task) (w : World)
      → IsSettled t
      → d ≤ w.tick
      → (w' : World) × (task_turn ctx chooses t w ≡ some (ended, w')) × Idles w w'
  unfolding task_turn worker_turn
  task_turn-ends (works c) w h now = (
    record w { tick = w.tick + 1 },
    rw (is_done_from w.tick now) refl,
    record { later = omega arith; same_log = refl; same_db = refl },
  )
  task_turn-ends (starts c) w h now = absurd h
  task_turn-ends (waits c) w h now = (
    record w { tick = w.tick + 1 },
    rw (is_done_from w.tick now, selects w.tick now) refl,
    record { later = omega arith; same_log = refl; same_db = refl },
  )
  task_turn-ends (claims c cursor) w h now = absurd h
  task_turn-ends ended w h now =
      (w, refl, record { later = omega arith; same_log = refl; same_db = refl })

  abbrev Turned : ℕ → List Task → World → Type 0
  Turned i ts w =
      (w' : World) × (take_turn ctx chooses i ts w ≡ some (end_at i ts, w')) × Idles w w'

  take_turn-ends :
      (i : ℕ) (ts : List Task) (w : World) → All IsSettled ts → d ≤ w.tick → Turned i ts w
  unfolding take_turn end_at
  take_turn-ends i [] w h now =
      (w, refl, record { later = omega arith; same_log = refl; same_db = refl })
  take_turn-ends zero (t ∷ ts) w (h, hs) now =
      let (w', e, idle) = task_turn-ends t w h now in (w', rw (e, take_turn) refl, idle)
  take_turn-ends (suc i) (t ∷ ts) w (h, hs) now =
      let (w', e, idle) = take_turn-ends i ts w hs now in (w', rw (e, take_turn) refl, idle)

  end_at-IsSettled : (i : ℕ) (ts : List Task) → All IsSettled ts → All IsSettled (end_at i ts)
  unfolding end_at
  end_at-IsSettled i [] h = h
  end_at-IsSettled zero (t ∷ ts) (h, hs) = (tt, hs)
  end_at-IsSettled (suc i) (t ∷ ts) (h, hs) = (h, end_at-IsSettled i ts hs)

  take_turns-ends :
      (is : List ℕ) (ts : List Task) (w : World)
      → All IsSettled ts
      → d ≤ w.tick
      → (w' : World) × (take_turns ctx chooses is ts w ≡ some (end_all is ts, w')) × Idles w w'
  unfolding take_turns end_all
  take_turns-ends [] ts w h now =
      (w, refl, record { later = omega arith; same_log = refl; same_db = refl })
  take_turns-ends (i ∷ is) ts w h now =
      let (w1, e1, idle1) = take_turn-ends i ts w h now in
      let (w2, e2, idle2) =
        take_turns-ends is (end_at i ts) w1 (end_at-IsSettled i ts h)
          (omega (arith, idle1.later)) in
      (
        w2,
        rw (e1, take_turns) e2,
        record {
          later = omega (arith, idle1.later, idle2.later);
          same_log = idle2.same_log ∙ idle1.same_log;
          same_db = idle2.same_db ∙ idle1.same_db;
        },
      )

  all_end :
      (is : List ℕ) (ts : List Task) → Covers is (length ts) → all_ended (end_all is ts) ≡ true
  all_end is ts h = all_ended-ended_at (end_all is ts) λ j lt. ground (
    arith,
    ended_at-end_all j is ts,
    covered is (length ts) j h (omega (arith, length-end_all is ts)),
  )

  -- Once the context is done, goroutines that are not starting and not claiming have all ended
  -- after one turn each, in whatever order and however often they take turns; none of them writes
  -- anything more.
  pub take_turns-all_ended :
      (is : List ℕ) (ts : List Task) (w : World)
      → All IsSettled ts
      → d ≤ w.tick
      → Covers is (length ts)
      → (ts' : List Task) × (w' : World) × (take_turns ctx chooses is ts w ≡ some (ts', w'))
        × (all_ended ts' ≡ true)
        × Idles w w'
  take_turns-all_ended is ts w h now c =
      let (w', e, idle) = take_turns-ends is ts w h now in
      (end_all is ts, w', e, all_end is ts c, idle)

abbrev pub Stand : Type 0
Stand = Option (List Task × World)

-- Turns one after the other.
abbrev pub and_then : Stand → (List Task → World → Stand) → Stand
and_then none f = none
and_then (some (ts, w)) f = f ts w

module _ (ctx : Ctx) (chooses : ℕ → Bool) where
  same_stand :
      (is js : List ℕ) (r : Stand)
      → ((ts : List Task) (w : World)
          → take_turns ctx chooses (is ++ js) ts w
            ≡ and_then (take_turns ctx chooses is ts w) (take_turns ctx chooses js))
      → (let one : Stand = elim r [
        | none ↦ none
        | some (ts, w) ↦ take_turns ctx chooses (is ++ js) ts w
      ] in
          let two : Stand = elim r [
            | none ↦ none
            | some (ts, w) ↦ take_turns ctx chooses is ts w
          ] in
          one ≡ and_then two (take_turns ctx chooses js))
  same_stand is js none h = refl
  same_stand is js (some (ts, w)) h = h ts w

  pub take_turns-append :
      (is js : List ℕ) (ts : List Task) (w : World)
      → take_turns ctx chooses (is ++ js) ts w
        ≡ and_then (take_turns ctx chooses is ts w) (take_turns ctx chooses js)
  unfolding take_turns
  take_turns-append [] js ts w = refl
  take_turns-append (i ∷ is) js ts w =
      same_stand is js (take_turn ctx chooses i ts w) (take_turns-append is js)
