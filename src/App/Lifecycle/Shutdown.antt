-- ===== src/App/Lifecycle/Shutdown.antt =====
-- What the end of the process leaves open.
use mytonprovider_agent.Common.{ℕ, ◌+◌, ◌≡◌, ◌≢◌, refl, Option, none, some}
use mytonprovider_agent.World.{Error, panicked, Result, ok, err}
use mytonprovider_agent.Config.{Config, dsn}
use mytonprovider_agent.Connections.{
  Handle, redis, Links, Sys, Setup, done, call, explain, ◌>>=◌, ◌>>◌, closes, holds, init_adnl,
  new_pool, new_lite_client,
}
use mytonprovider_agent.App.Lifecycle.{
  App, start_tracer, new_app, close_pointer, shutdown_tracer, close, Ending, exits, crashes, ending,
  after_new, run,
}

-- Whatever New gives, its pool is nil.
abbrev HasNoPool : Result App → Type 0
HasNoPool (ok a) = a.pool ≡ none
HasNoPool (err e) = Unit {0}

record NoPool (m : Setup App) : Type 0 where
  pub at : (s : Sys) → HasNoPool (m s).0

module _ {A : Type 0} where
  bind_last :
      (r : Result A) (s : Sys) (f : A → Setup App)
      → ((a : A) → NoPool (f a))
      → (let m : Result App × Sys = elim r [ ok a ↦ f a s | err e ↦ (err e, s) ] in HasNoPool m.0)
  bind_last (ok a) s f h = (h a).at s
  bind_last (err e) s f h = tt

  bind-NoPool : (m : Setup A) (f : A → Setup App) → ((a : A) → NoPool (f a)) → NoPool (m >>= f)
  unfolding ◌>>=◌
  bind-NoPool m f h = record { at = λ s. bind_last (m s).0 (m s).1 f h }

new_app-NoPool : (l : Links) (cfg : Config) → NoPool (new_app l cfg)
unfolding new_app done
new_app-NoPool l cfg = bind-NoPool (start_tracer l cfg) _ λ tp.
    bind-NoPool
      (explain "app.New" (init_adnl l cfg.ton.config_url cfg.system.adnl_port cfg.system.key)) _
      λ adnl. bind-NoPool (explain "app.New" (new_pool l (dsn cfg.postgres))) _ λ pool.
        bind-NoPool (explain "app.New" (new_lite_client l cfg.ton.config_url)) _ λ lite.
          bind-NoPool (holds (redis cfg.redis.addr))
            (λ rdb. done (record { pool = none; rdb = rdb; gate_provider = none; tracer = tp }))
            (λ rdb. record { at = λ s. refl })

-- The process has not ended well, and has closed no more than before.
abbrev pub EndsBadly : Sys → Ending × Sys → Type 0
EndsBadly s o = (o.0 ≢ exits 0) × (o.1.opened ≡ s.opened) × (o.1.closed ≡ s.closed)

crashes_ne : crashes ≢ exits 0
crashes_ne e = absurd (cc e)

failed_ne : exits 1 ≢ exits 0
failed_ne e = absurd (cc e)

nil_pointer :
    (l : Links) (p : Option Handle) (k : Unit {0} → Setup (Unit {0})) (s : Sys)
    → ((t : ℕ) → l.close_nil t ≡ err panicked)
    → p ≡ none
    → (close_pointer l p >>= k) s ≡ (err panicked, record s { tick = s.tick + 1 })
unfolding close_pointer call ◌>>=◌
nil_pointer l none k s nil e = rw (nil s.tick) refl
nil_pointer l (some h) k s nil e = absurd (cc e)

close_nil :
    (l : Links) (a : App) (s : Sys)
    → ((t : ℕ) → l.close_nil t ≡ err panicked)
    → a.pool ≡ none
    → close l a s ≡ (err panicked, record s { tick = s.tick + 1 })
unfolding close
close_nil l a s nil e =
    nil_pointer l a.pool
      (λ _. closes a.rdb >> close_pointer l a.gate_provider >> shutdown_tracer a.tracer) s nil e

served_or_not : (served : Result (Unit {0})) → ending served (err panicked) ≢ exits 0
served_or_not (ok a) = crashes_ne
served_or_not (err e) = crashes_ne

after_new-EndsBadly :
    (l : Links) (served : Result (Unit {0})) (r : Result App) (s : Sys)
    → ((t : ℕ) → l.close_nil t ≡ err panicked)
    → HasNoPool r
    → EndsBadly s (after_new l served (r, s))
unfolding after_new
after_new-EndsBadly l served (ok app) s nil unset =
    rw (close_nil l app s nil unset) (served_or_not served, refl, refl)
after_new-EndsBadly l served (err Error.panicked) s nil h = (crashes_ne, refl, refl)
after_new-EndsBadly l served (err _) s nil h = (failed_ne, refl, refl)

-- If Close of a nil pool panics, the process never exits with code 0, however it is configured,
-- whatever its calls answer and however MustRun ends; and once New has returned, it opens and
-- closes nothing more: the gateways, the pool, the Redis client and the tracer stay open.
pub run-EndsBadly :
    (l : Links) (cfg : Config) (served : Result (Unit {0})) (s : Sys)
    → ((t : ℕ) → l.close_nil t ≡ err panicked)
    → EndsBadly (new_app l cfg s).1 (run l (ok cfg) served s)
unfolding run
run-EndsBadly l cfg served s nil =
    after_new-EndsBadly l served (new_app l cfg s).0 (new_app l cfg s).1 nil
      ((new_app-NoPool l cfg).at s)
