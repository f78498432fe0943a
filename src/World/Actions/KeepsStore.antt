-- ===== src/World/Actions/KeepsStore.antt =====
-- Invariants of the database and the log of writes, by one rule for each way to build an action.
use mytonprovider_agent.Common.{
  ℕ, Option, ◌∷◌, ◌≡◌, refl, ◌+◌, Bool, true, false, if◌then◌else◌, List, String,
}
use mytonprovider_agent.Jobs.{Ctx, ResultEnvelope}
use mytonprovider_agent.World.Schema.{Database}
use mytonprovider_agent.World.Actions.{
  Result, ok, err, canceled, Write, xadd, xack, World, Act, continue, attempt, wrapping,
  unless_done, is_done, ◌>>=◌,
}
use mytonprovider_agent.World.Actions.Keeps.{IsReadOnly}
use mytonprovider_agent.World.Actions.Ensures.{Ensures}

abbrev pub Rule : Type 1
Rule = Database → List Write → Type 0

-- a rule about the log alone
abbrev pub OfLog : (List Write → Type 0) → Rule
OfLog Q db log = Q log

-- A message to a stream does not break the rule.
abbrev pub AllowsXadd : Rule → Type 0
AllowsXadd Q =
    (db : Database) (log : List Write) (stream : String) (m : ResultEnvelope) (max_len : Option ℕ)
    (taken : Bool)
    → Q db log
    → Q db (xadd stream m max_len taken ∷ log)

-- Nor does an acknowledgement.
abbrev pub AllowsXack : Rule → Type 0
AllowsXack Q =
    (db : Database) (log : List Write) (stream group id : String) (taken : Bool)
    → Q db log
    → Q db (xack stream group id taken ∷ log)

-- `m` keeps `Q` of the database and the log, whether it succeeds or fails.
pub record KeepsStore {ℓ} {A : Type ℓ} (Q : Rule) (m : Act A) : Type ℓ where
  pub at : (w : World) → Q w.db w.log → Q (m w).1.db (m w).1.log

module _ {ℓ} {A : Type ℓ} (Q : Rule) where
  pub IsReadOnly-KeepsStore : (m : Act A) → IsReadOnly m → KeepsStore Q m
  IsReadOnly-KeepsStore m r = record { at = λ w h. rw (r.same_db w, r.same_log w) h }

  pub if-KeepsStore :
      (b : Bool) (m n : Act A) → KeepsStore Q m → KeepsStore Q n → KeepsStore Q (if b then m else n)
  if-KeepsStore true m n hm hn = hm
  if-KeepsStore false m n hm hn = hn

  pub attempt-KeepsStore : (m : Act A) → KeepsStore Q m → KeepsStore Q (attempt m)
  unfolding attempt
  attempt-KeepsStore m h = record { at = h.at }

  pub wrapping-KeepsStore :
      (op : String) (m : Act A) → KeepsStore Q m → KeepsStore Q (wrapping op m)
  unfolding wrapping
  wrapping-KeepsStore op m h = record { at = h.at }

  unless_store :
      (b : Bool) (w : World) (m : Act A)
      → KeepsStore Q m
      → Q w.db w.log
      → (let r : Result A × World = (if b then (err canceled, w) else m w) in Q r.1.db r.1.log)
  unless_store true w m h q = q
  unless_store false w m h q = h.at w q

  pub unless_done-KeepsStore :
      (ctx : Ctx) (m : Act A) → KeepsStore Q m → KeepsStore Q (unless_done ctx m)
  unfolding unless_done
  unless_done-KeepsStore ctx m h = record {
    at = λ w q. unless_store (is_done ctx w.tick) (record w { tick = w.tick + 1 }) m h q;
  }

module _ {ℓ κ} {A : Type ℓ} {B : Type κ} (Q : Rule) where
  continue_store :
      (r : Result A) (f : A → Act B) (w : World)
      → ((a : A) → KeepsStore Q (f a))
      → Q w.db w.log
      → Q (continue r f w).1.db (continue r f w).1.log
  unfolding continue
  continue_store (ok a) f w h q = (h a).at w q
  continue_store (err e) f w h q = q

  pub bind-KeepsStore :
      (m : Act A) (f : A → Act B)
      → KeepsStore Q m
      → ((a : A) → KeepsStore Q (f a))
      → KeepsStore Q (m >>= f)
  unfolding ◌>>=◌
  bind-KeepsStore m f hm hf = record { at = λ w q. continue_store (m w).0 f (m w).1 hf (hm.at w q) }

  pub read-bind-KeepsStore :
      (m : Act A) (f : A → Act B)
      → IsReadOnly m
      → ((a : A) → KeepsStore Q (f a))
      → KeepsStore Q (m >>= f)
  read-bind-KeepsStore m f hm hf = bind-KeepsStore m f (IsReadOnly-KeepsStore Q m hm) hf

  ensured_store :
      (P : A → Type 0) (r : Result A) (f : A → Act B) (w : World)
      → ((a : A) → r ≡ ok a → P a)
      → ((a : A) → P a → KeepsStore Q (f a))
      → Q w.db w.log
      → Q (continue r f w).1.db (continue r f w).1.log
  unfolding continue
  ensured_store P (ok a) f w h hf q = (hf a (h a refl)).at w q
  ensured_store P (err e) f w h hf q = q

  -- what the first action ensures, the rest may rely on
  pub ensure-bind-KeepsStore :
      (P : A → Type 0) (m : Act A) (f : A → Act B)
      → KeepsStore Q m
      → Ensures P m
      → ((a : A) → P a → KeepsStore Q (f a))
      → KeepsStore Q (m >>= f)
  unfolding ◌>>=◌
  ensure-bind-KeepsStore P m f hm he hf = record {
    at = λ w q. ensured_store P (m w).0 f (m w).1 (he.at w) hf (hm.at w q);
  }

  -- what the rule lets the first action tell of the store, the rest may rely on
  pub learn-bind-KeepsStore :
      (P : A → Type 0) (m : Act A) (f : A → Act B)
      → KeepsStore Q m
      → ((w : World) (a : A) → Q w.db w.log → (m w).0 ≡ ok a → P a)
      → ((a : A) → P a → KeepsStore Q (f a))
      → KeepsStore Q (m >>= f)
  unfolding ◌>>=◌
  learn-bind-KeepsStore P m f hm learn hf = record {
    at = λ w q. ensured_store P (m w).0 f (m w).1 (λ a e. learn w a q e) hf (hm.at w q);
  }
