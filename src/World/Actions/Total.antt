-- ===== src/World/Actions/Total.antt =====
-- Actions that end without an error, by one rule for each way to build an action.
use mytonprovider_agent.Common.{◌+◌, ◌≡◌, refl, Bool, true, false, none, if◌then◌else◌}
use mytonprovider_agent.Jobs.{Ctx}
use mytonprovider_agent.World.Actions.{
  Result, ok, err, World, Act, pure, continue, ◌>>=◌, chosen, attempt_or, unless_done,
}

pub record Succeeds {ℓ} {A : Type ℓ} (m : Act A) : Type ℓ where
  pub at : (w : World) → (a : A) × ((m w).0 ≡ ok a)

module _ {ℓ} {A : Type ℓ} where
  pub pure-Succeeds : (a : A) → Succeeds (pure a)
  unfolding pure
  pure-Succeeds a = record { at = λ w. (a, refl) }

  pub if-Succeeds :
      (b : Bool) (m n : Act A) → Succeeds m → Succeeds n → Succeeds (if b then m else n)
  if-Succeeds true m n hm hn = hm
  if-Succeeds false m n hm hn = hn

  pub unless_done-Succeeds :
      (ctx : Ctx) (m : Act A) → ctx.done_at ≡ none → Succeeds m → Succeeds (unless_done ctx m)
  unfolding unless_done
  unless_done-Succeeds ctx m e h = record { at = λ w. rw e (h.at (record w { tick = w.tick + 1 })) }

module _ {ℓ κ} {A : Type ℓ} {B : Type κ} where
  chosen_ok :
      (r : Result A) (g : Act B) (f : A → Act B) (w : World)
      → Succeeds g
      → ((a : A) → Succeeds (f a))
      → (b : B) × ((chosen r g f w).0 ≡ ok b)
  unfolding chosen
  chosen_ok (ok a) g f w hg hf = (hf a).at w
  chosen_ok (err e) g f w hg hf = hg.at w

  pub attempt_or-Succeeds :
      (m : Act A) (g : Act B) (f : A → Act B)
      → Succeeds g
      → ((a : A) → Succeeds (f a))
      → Succeeds (attempt_or m g f)
  unfolding attempt_or
  attempt_or-Succeeds m g f hg hf = record { at = λ w. chosen_ok (m w).0 g f (m w).1 hg hf }

  continue_ok :
      (r : Result A) (a : A) (f : A → Act B) (w : World)
      → r ≡ ok a
      → ((a : A) → Succeeds (f a))
      → (b : B) × ((continue r f w).0 ≡ ok b)
  unfolding continue
  continue_ok (ok a) a' f w e hf = (hf a).at w
  continue_ok (err x) a f w e hf = absurd (cc e)

  pub bind-Succeeds :
      (m : Act A) (f : A → Act B) → Succeeds m → ((a : A) → Succeeds (f a)) → Succeeds (m >>= f)
  unfolding ◌>>=◌
  bind-Succeeds m f hm hf = record {
    at = λ w. continue_ok (m w).0 (hm.at w).0 f (m w).1 (hm.at w).1 hf;
  }
