-- ===== src/World/Actions/Keeps.antt =====
-- Invariants of actions, by one rule for each way to build an action.
use mytonprovider_agent.Common.{◌+◌, arith, ℕ, ◌≡◌, refl, Bool, true, false, if◌then◌else◌, String}
use mytonprovider_agent.Jobs.{Ctx}
use mytonprovider_agent.World.Actions.{
  Error, Result, ok, err, World, Act, pure, raise, lift, ask, attempt, wrapping, continue, ◌>>=◌,
  ctx_done, now, attempt_or, chosen, unless_done,
}

-- `m` keeps `P`, whether it succeeds or fails.
pub record Keeps {ℓ} {A : Type ℓ} (P : World → Type 0) (m : Act A) : Type ℓ where
  pub at : (w : World) → P w → P (m w).1

-- `m` writes nothing: neither the database nor the log changes.
pub record IsReadOnly {ℓ} {A : Type ℓ} (m : Act A) : Type ℓ where
  pub same_db : (w : World) → (m w).1.db ≡ w.db
  pub same_log : (w : World) → (m w).1.log ≡ w.log

module _ {ℓ} {A : Type ℓ} where
  pub pure-IsReadOnly : (a : A) → IsReadOnly (pure a)
  unfolding pure
  pure-IsReadOnly a = record { same_db = λ w. refl; same_log = λ w. refl }

  pub raise-IsReadOnly : (e : Error) → IsReadOnly (raise {A = A} e)
  unfolding raise
  raise-IsReadOnly e = record { same_db = λ w. refl; same_log = λ w. refl }

  pub lift-IsReadOnly : (r : Result A) → IsReadOnly (lift r)
  unfolding lift
  lift-IsReadOnly r = record { same_db = λ w. refl; same_log = λ w. refl }

  pub ask-IsReadOnly : (f : ℕ → Result A) → IsReadOnly (ask f)
  unfolding ask
  ask-IsReadOnly f = record { same_db = λ w. refl; same_log = λ w. refl }

  pub attempt-IsReadOnly : (m : Act A) → IsReadOnly m → IsReadOnly (attempt m)
  unfolding attempt
  attempt-IsReadOnly m h = record { same_db = h.same_db; same_log = h.same_log }

  pub wrapping-IsReadOnly : (op : String) (m : Act A) → IsReadOnly m → IsReadOnly (wrapping op m)
  unfolding wrapping
  wrapping-IsReadOnly op m h = record { same_db = h.same_db; same_log = h.same_log }

  pub if-IsReadOnly :
      (b : Bool) (m n : Act A) → IsReadOnly m → IsReadOnly n → IsReadOnly (if b then m else n)
  if-IsReadOnly true m n hm hn = hm
  if-IsReadOnly false m n hm hn = hn

pub ctx_done-IsReadOnly : (ctx : Ctx) → IsReadOnly (ctx_done ctx)
unfolding ctx_done
ctx_done-IsReadOnly ctx = ask-IsReadOnly _

pub now-IsReadOnly : (clock : ℕ → ℕ) → IsReadOnly (now clock)
unfolding now
now-IsReadOnly clock = ask-IsReadOnly _

module _ {ℓ κ} {A : Type ℓ} {B : Type κ} where
  continue_same_db :
      (r : Result A) (f : A → Act B) (w : World)
      → ((a : A) → IsReadOnly (f a))
      → (continue r f w).1.db ≡ w.db
  unfolding continue
  continue_same_db (ok a) f w h = (h a).same_db w
  continue_same_db (err e) f w h = refl

  continue_same_log :
      (r : Result A) (f : A → Act B) (w : World)
      → ((a : A) → IsReadOnly (f a))
      → (continue r f w).1.log ≡ w.log
  unfolding continue
  continue_same_log (ok a) f w h = (h a).same_log w
  continue_same_log (err e) f w h = refl

  pub bind-IsReadOnly :
      (m : Act A) (f : A → Act B)
      → IsReadOnly m
      → ((a : A) → IsReadOnly (f a))
      → IsReadOnly (m >>= f)
  unfolding ◌>>=◌
  bind-IsReadOnly m f hm hf = record {
    same_db = λ w. cc (hm.same_db w, continue_same_db (m w).0 f (m w).1 hf);
    same_log = λ w. cc (hm.same_log w, continue_same_log (m w).0 f (m w).1 hf);
  }

module _ {ℓ κ} {A : Type ℓ} {B : Type κ} where
  chosen_same_db :
      (r : Result A) (g : Act B) (f : A → Act B) (w : World)
      → IsReadOnly g
      → ((a : A) → IsReadOnly (f a))
      → ((chosen r g f w).1.db ≡ w.db) × ((chosen r g f w).1.log ≡ w.log)
  unfolding chosen
  chosen_same_db (ok a) g f w hg h = ((h a).same_db w, (h a).same_log w)
  chosen_same_db (err e) g f w hg h = (hg.same_db w, hg.same_log w)

  pub attempt_or-IsReadOnly :
      (m : Act A) (g : Act B) (f : A → Act B)
      → IsReadOnly m
      → IsReadOnly g
      → ((a : A) → IsReadOnly (f a))
      → IsReadOnly (attempt_or m g f)
  unfolding attempt_or
  attempt_or-IsReadOnly m g f hm hg hf = record {
    same_db = λ w. cc (hm.same_db w, (chosen_same_db (m w).0 g f (m w).1 hg hf).0);
    same_log = λ w. cc (hm.same_log w, (chosen_same_db (m w).0 g f (m w).1 hg hf).1);
  }

pub unless_done-IsReadOnly {ℓ} :
    {A : Type ℓ} (ctx : Ctx) (m : Act A) → IsReadOnly m → IsReadOnly (unless_done ctx m)
unfolding unless_done
unless_done-IsReadOnly ctx m h = record {
  same_db = λ w. ground (arith, h.same_db (record w { tick = w.tick + 1 }));
  same_log = λ w. ground (arith, h.same_log (record w { tick = w.tick + 1 }));
}

pub ruleset read_only = (
  pure-IsReadOnly, raise-IsReadOnly, lift-IsReadOnly, ask-IsReadOnly, attempt-IsReadOnly,
  wrapping-IsReadOnly, if-IsReadOnly, ctx_done-IsReadOnly, now-IsReadOnly, bind-IsReadOnly,
  attempt_or-IsReadOnly, unless_done-IsReadOnly,
)
