-- ===== src/World/Actions/Ensures.antt =====
-- What a successful action returns, by one rule for each way to build an action.
use mytonprovider_agent.Common.{◌+◌, String, ◌≡◌, refl, Bool, true, false, if◌then◌else◌}
use mytonprovider_agent.Jobs.{Ctx}
use mytonprovider_agent.World.Actions.{
  Error, Result, ok, err, World, Act, pure, raise, continue, chosen, attempt_or, unless_done,
  is_done, wrapping, wrap, ◌>>=◌,
}

-- If `m` succeeds, its result has the property `P`.
pub record Ensures {ℓ} {A : Type ℓ} (P : A → Type 0) (m : Act A) : Type ℓ where
  pub at : (w : World) (a : A) → (m w).0 ≡ ok a → P a

pub ok-injective {ℓ} : {A : Type ℓ} {a b : A} → ok a ≡ ok b → a ≡ b
ok-injective e = cc

module _ {ℓ} {A : Type ℓ} (P : A → Type 0) where
  pub pure-Ensures : (a : A) → P a → Ensures P (pure a)
  unfolding pure
  pure-Ensures a h = record { at = λ w b e. rw (← ok-injective e) h }

  pub raise-Ensures : (e : Error) → Ensures P (raise e)
  unfolding raise
  raise-Ensures e = record { at = λ w b eq. cc }

  pub if-Ensures :
      (b : Bool) (m n : Act A)
      → (b ≡ true → Ensures P m)
      → (b ≡ false → Ensures P n)
      → Ensures P (if b then m else n)
  if-Ensures true m n hm hn = hm refl
  if-Ensures false m n hm hn = hn refl

  unless_at :
      (b : Bool) (e : Error) (w : World) (m : Act A)
      → Ensures P m
      → (a : A) → (let r : Result A × World = (if b then (err e, w) else m w) in r.0 ≡ ok a)
      → P a
  unless_at true e w m h a eq = cc
  unless_at false e w m h a eq = h.at w a eq

  pub unless_done-Ensures : (ctx : Ctx) (m : Act A) → Ensures P m → Ensures P (unless_done ctx m)
  unfolding unless_done
  unless_done-Ensures ctx m h = record {
    at = λ w a e. unless_at (is_done ctx w.tick) _ (record w { tick = w.tick + 1 }) m h a e;
  }

  wrapped_at :
      (op : String) (r : Result A) (a : A)
      → elim r [ ok x ↦ ok x | err e ↦ err (wrap op e) ] ≡ ok a
      → r ≡ ok a
  wrapped_at op (ok x) a e = e
  wrapped_at op (err x) a e = cc

  pub wrapping-Ensures : (op : String) (m : Act A) → Ensures P m → Ensures P (wrapping op m)
  unfolding wrapping
  wrapping-Ensures op m h = record { at = λ w a e. h.at w a (wrapped_at op (m w).0 a e) }

pub weaken-Ensures {ℓ} :
    {A : Type ℓ} {P Q : A → Type 0} {m : Act A} → ((a : A) → Q a → P a) → Ensures Q m → Ensures P m
weaken-Ensures f h = record { at = λ w a e. f a (h.at w a e) }

pub both-Ensures {ℓ} :
    {A : Type ℓ} {P Q : A → Type 0} {m : Act A}
    → Ensures P m
    → Ensures Q m
    → Ensures (λ a. P a × Q a) m
both-Ensures h k = record { at = λ w a e. (h.at w a e, k.at w a e) }

pub imply-Ensures {ℓ} :
    {A : Type ℓ} {H : Type 0} {P : A → Type 0} {m : Act A}
    → (H → Ensures P m)
    → Ensures (λ a. H → P a) m
imply-Ensures f = record { at = λ w a e h. (f h).at w a e }

module _ {ℓ κ} {A : Type ℓ} {B : Type κ} (P : B → Type 0) where
  continue_at :
      (r : Result A) (f : A → Act B) (w : World) (b : B)
      → (Q : A → Type 0) → ((a : A) → r ≡ ok a → Q a)
      → ((a : A) → Q a → Ensures P (f a))
      → (continue r f w).0 ≡ ok b
      → P b
  unfolding continue
  continue_at (ok a) f w b Q q h e = (h a (q a refl)).at w b e
  continue_at (err x) f w b Q q h e = cc

  pub bind-Ensures :
      (Q : A → Type 0) (m : Act A) (f : A → Act B)
      → Ensures Q m
      → ((a : A) → Q a → Ensures P (f a))
      → Ensures P (m >>= f)
  unfolding ◌>>=◌
  bind-Ensures Q m f hm hf = record {
    at = λ w b e. continue_at (m w).0 f (m w).1 b Q (hm.at w) hf e;
  }

  -- the rest does not depend on what the first action found
  pub bind_any-Ensures :
      (m : Act A) (f : A → Act B) → ((a : A) → Ensures P (f a)) → Ensures P (m >>= f)
  bind_any-Ensures m f hf =
      bind-Ensures (λ _. Unit {0}) m f (record { at = λ w a e. tt }) (λ a _. hf a)

  chosen_at :
      (r : Result A) (g : Act B) (f : A → Act B) (w : World) (b : B)
      → ((x : Error) → r ≡ err x → Ensures P g)
      → ((a : A) → r ≡ ok a → Ensures P (f a))
      → (chosen r g f w).0 ≡ ok b
      → P b
  unfolding chosen
  chosen_at (ok a) g f w b hg hf e = (hf a refl).at w b e
  chosen_at (err x) g f w b hg hf e = (hg x refl).at w b e

  -- what follows may rely on what the first action has answered
  pub learn_attempt_or-Ensures :
      (m : Act A) (g : Act B) (f : A → Act B)
      → ((w : World) (x : Error) → (m w).0 ≡ err x → Ensures P g)
      → ((w : World) (a : A) → (m w).0 ≡ ok a → Ensures P (f a))
      → Ensures P (attempt_or m g f)
  unfolding attempt_or
  learn_attempt_or-Ensures m g f hg hf = record {
    at = λ w b e. chosen_at (m w).0 g f (m w).1 b (hg w) (hf w) e;
  }

  pub attempt_or-Ensures :
      (m : Act A) (g : Act B) (f : A → Act B)
      → Ensures P g
      → ((a : A) → Ensures P (f a))
      → Ensures P (attempt_or m g f)
  attempt_or-Ensures m g f hg hf = learn_attempt_or-Ensures m g f (λ w x e. hg) (λ w a e. hf a)

-- A run of an action that succeeds goes on with its result.
pub bind_ok {ℓ κ} :
    {A : Type ℓ} {B : Type κ} (m : Act A) (f : A → Act B) (a : A) (w : World)
    → (m w).0 ≡ ok a
    → (m >>= f) w ≡ f a (m w).1
unfolding ◌>>=◌ continue
bind_ok m f a w e = rw e refl
