-- ===== src/App/Lifecycle.antt =====
-- How the process starts and ends: `New` and `Close` of internal/app/app.go around `MustRun`, and
-- `run` of cmd/app/main.go.
pub mod Shutdown
use mytonprovider_agent.Common.{
  ℕ, ◌+◌, String, Bool, true, false, Option, none, some, List, [], ◌∷◌, if◌then◌else◌,
}
use mytonprovider_agent.World.{Error, panicked, Result, ok, err}
use mytonprovider_agent.Config.{Config, dsn}
use mytonprovider_agent.Connections.{
  Handle, redis, Links, Sys, Setup, done, fail, call, explain, ◌>>=◌, ◌>>◌, holds, closes,
  init_adnl, new_pool, new_lite_client, new_tracer_provider,
}

-- The fields of App that Close reads; the pool and the gateway are pointers, and so is the tracer.
pub record App : Type 0 where
  pub pool : Option Handle
  pub rdb : Handle
  pub gate_provider : Option Handle
  pub tracer : Option Handle

-- `if cfg.Telemetry.Enabled { … }`
start_tracer : Links → Config → Setup (Option Handle)
unfolding ◌>>=◌ done explain new_tracer_provider
start_tracer l cfg =
    if cfg.telemetry.enabled
    then (explain "app.New"
          (new_tracer_provider l cfg.telemetry.service_name cfg.telemetry.end_point)
        >>= λ tp. done (some tp))
    else done none

-- New opens the connections and gives the App that it fills: it leaves out `pool` and
-- `gateProvider`. What it builds on top of the connections opens nothing.
unfoldable pub new_app : Links → Config → Setup App
unfolding ◌>>=◌ done explain start_tracer init_adnl new_pool new_lite_client holds
new_app l cfg = do
  tp ← start_tracer l cfg
  adnl ← explain "app.New" (init_adnl l cfg.ton.config_url cfg.system.adnl_port cfg.system.key)
  pool ← explain "app.New" (new_pool l (dsn cfg.postgres))
  lite ← explain "app.New" (new_lite_client l cfg.ton.config_url)
  rdb ← holds (redis cfg.redis.addr)
  done (record { pool = none; rdb = rdb; gate_provider = none; tracer = tp })

-- Close of a pool or of a gateway, whose receiver may be nil
close_pointer : Links → Option Handle → Setup (Unit {0})
unfolding call closes
close_pointer l none = call l.close_nil
close_pointer l (some h) = closes h

shutdown_tracer : Option Handle → Setup (Unit {0})
unfolding done closes
shutdown_tracer none = done tt
shutdown_tracer (some h) = closes h

-- Close; what Redis and the tracer say is not read further than a log line
unfoldable pub close : Links → App → Setup (Unit {0})
unfolding ◌>>=◌ close_pointer shutdown_tracer closes
close l a = do
  close_pointer l a.pool
  closes a.rdb
  close_pointer l a.gate_provider
  shutdown_tracer a.tracer

-- how the process ends: by `os.Exit`, or by a panic that nobody recovers
pub data Ending : Type 0 where
  exits : (code : ℕ) → Ending
  crashes : Ending

-- the deferred Close, after MustRun has returned or has panicked
abbrev ending : Result (Unit {0}) → Result (Unit {0}) → Ending
ending (ok _) (ok _) = exits 0
ending _ _ = crashes

-- after New
after_new : Links → Result (Unit {0}) → Result App × Sys → Ending × Sys
unfolding close
after_new l served (ok app, s) = let (r, s') = close l app s in (ending served r, s')
after_new l served (err panicked, s) = (crashes, s)
after_new l served (err e, s) = (exits 1, s)

-- `run` of main.go: `loaded` is what MustLoad gives, and `served` how MustRun ends
unfoldable pub run : Links → Result Config → Result (Unit {0}) → Sys → Ending × Sys
unfolding new_app after_new
run l (err e) served s = (crashes, s)
run l (ok cfg) served s = after_new l served (new_app l cfg s)
