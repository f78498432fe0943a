-- ===== src/Loadtest/Sending.antt =====
-- The ids that the tool waits for, once it has sent its triggers.
use package.text.Mathlib.Text.{◌==◌ as str_eq}
use package.text.Mathlib.TextEquality.{eq_iff}
use mytonprovider_agent.Common.{
  ℕ, zero, suc, ◌+◌, ◌*◌, ◌<◌, ◌≡◌, ◌∙◌, refl, sym, All-map, String, false, List, [], ◌∷◌, All,
  arith, Bool-cases, inl, inr,
}
use mytonprovider_agent.World.{Result, ok, err, wrap}
use mytonprovider_agent.Loadtest.{Flags, Broker, Run, is_pending, add, send_triggers}
use mytonprovider_agent.Loadtest.Counting.{IsDistinct, IsCounted}

-- The ids come from calls before the tick `t`.
abbrev pub AreEarlier : Broker → ℕ → List String → Type 0
AreEarlier b t ids = All (λ x. (s : ℕ) × (s < t) × (x ≡ b.new_id s)) ids

later_too : (b : Broker) (t : ℕ) (ids : List String) → AreEarlier b t ids → AreEarlier b (t + 3) ids
later_too b t ids h =
    All-map (λ x. (s : ℕ) × (s < t) × (x ≡ b.new_id s))
      (λ x. (s : ℕ) × (s < t + 3) × (x ≡ b.new_id s)) (λ x e. (e.0, omega (arith, e.1), e.2)) ids h

-- What sending `k` triggers makes of the run `r₀`.
pub record IsSent (b : Broker) (r₀ : Run) (k t : ℕ) (r : Run) : Type 0 where
  pub at_tick : r.tick ≡ t
  pub same_id : r.last_id ≡ r₀.last_id
  pub none_ok : r.got_ok ≡ r₀.got_ok
  pub none_err : r.got_err ≡ r₀.got_err
  pub made : AreEarlier b t r.pending
  pub counted : IsCounted k r

abbrev pub AreSent : Broker → Run → ℕ → ℕ → Result Run → Type 0
AreSent b r₀ k t (ok r) = IsSent b r₀ k t r
AreSent b r₀ k t (err e) = Unit {0}

module _ (b : Broker) (unique : (s t : ℕ) → b.new_id s ≡ b.new_id t → s ≡ t) where
  is_pending_fresh :
      (t : ℕ) (ids : List String) → AreEarlier b t ids → is_pending (b.new_id t) ids ≡ false
  unfolding is_pending
  is_pending_fresh t [] h = refl
  is_pending_fresh t (x ∷ xs) h = elim (Bool-cases (str_eq x (b.new_id t))) [
    | inl e ↦
        let (s, before, made) = h.0 in
        absurd (omega (arith, before, unique s t (sym made ∙ (eq_iff x (b.new_id t)).0 e)))
    | inr e ↦ rw e (is_pending_fresh t xs h.1)
  ]

  sent_one :
      (r : Run) (k : ℕ)
      → AreEarlier b r.tick r.pending
      → IsCounted k r
      → (let r' : Run = record r { tick = r.tick + 3; pending = add (b.new_id r.tick) r.pending } in
          AreEarlier b r'.tick r'.pending × IsCounted (suc k) r')
  unfolding add IsDistinct
  sent_one r k h c =
      let new = is_pending_fresh r.tick r.pending h in
      rw new (
        ((r.tick, omega arith, refl), later_too b r.tick r.pending h),
        record { distinct = (new, c.distinct); all = omega (arith, c.all) },
      )

  pub send_triggers-AreSent :
      (f : Flags) (r₀ : Run) (n k m t : ℕ) (r : Run)
      → IsSent b r₀ k r.tick r
      → k + n ≡ m
      → r.tick + 3 * n ≡ t
      → AreSent b r₀ m t (send_triggers b f n r)
  unfolding send_triggers
  send_triggers-AreSent f r₀ zero k m t r s e et = record {
    at_tick = omega (arith, et);
    same_id = s.same_id;
    none_ok = s.none_ok;
    none_err = s.none_err;
    made = rw (← (let d : r.tick ≡ t = omega (arith, et) in d)) s.made;
    counted = rw (← (let d : k ≡ m = omega (arith, e) in d)) s.counted;
  }
  send_triggers-AreSent f r₀ (suc n) k m t r s e et =
      let id = b.new_id r.tick in
      let r' : Run = record r { tick = r.tick + 3; pending = add id r.pending } in
      let one = sent_one r k s.made s.counted in
      accepted_or_not (b.xadd _ _ (r.tick + 2)) (send_triggers b f n r') (
        send_triggers-AreSent f r₀ n (suc k) m t r'
          (record {
            at_tick = refl;
            same_id = s.same_id;
            none_ok = s.none_ok;
            none_err = s.none_err;
            made = one.0;
            counted = one.1;
          })
          (omega (arith, e)) (omega (arith, et)))
    where
      accepted_or_not :
          (a : Result (Unit {0})) (r' : Result Run)
          → AreSent b r₀ m t r'
          → AreSent b r₀ m t (elim a [ ok _ ↦ r' | err e ↦ err (wrap "xadd" e) ])
      accepted_or_not (ok a) r' h = h
      accepted_or_not (err e) r' h = tt
