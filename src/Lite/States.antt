-- ===== src/Lite/States.antt =====
-- `GetProvidersInfo` and `TryNTimes` of liteclient/client.go.
pub mod Inspected
use mytonprovider_agent.Common.{
  ℕ, zero, suc, ◌+◌, ◌%◌, ◌^◌, true, false, none, List, [], map, Text, arrange,
}
use mytonprovider_agent.Jobs.{Ctx}
use mytonprovider_agent.World.{World, Act, Result, ok, err, ask, wrapping, ◌>>=◌}
use mytonprovider_agent.Workers.{Fanout, fan_out}
use mytonprovider_agent.Lite.{LiteProvider, LiteState, ProviderInfo, Api}

-- the retries of one call, a pause after each failure; nil providers and no coins if all fail
unfoldable pub try_info :
    Api
    → ℕ
    → Text
    → ℕ
    → World
    → Result (List ProviderInfo × ℕ)
    → Result (List ProviderInfo × ℕ) × World
try_info api block a zero w last = (last, w)
try_info api block a (suc n) w last = elim (api.providers_info block a w.tick) [
  | ok info ↦ (ok info, record w { tick = w.tick + 1 })
  | err e ↦ try_info api block a n (record w { tick = w.tick + 1 + 1 }) (err e)
]

abbrev pub get_providers_retries : ℕ
get_providers_retries = 5

abbrev pub parallel_requests : ℕ
parallel_requests = 30

-- `p.RatePerMB.Nano().Uint64()` keeps the low 64 bits
abbrev lite_provider : ProviderInfo → LiteProvider
lite_provider p = record {
  key = p.key;
  last_proof_time = p.last_proof_at;
  rate_per_mb_day = p.rate_per_mb % 2 ^ 64;
  max_span = p.max_span;
}

unfoldable pub state_of : Text → Result (List ProviderInfo × ℕ) → LiteState
state_of a (ok (infos, coins)) = record {
  address = a;
  balance = coins % 2 ^ 64;
  providers = map lite_provider infos;
  lite_server_error = false;
}
state_of a (err e) = record { address = a; balance = 0; providers = []; lite_server_error = true }

-- the body of a goroutine whose address is valid
unfoldable pub inspect_one : Api → ℕ → Text → World → LiteState × World
unfolding try_info state_of
inspect_one api block a w =
    let (r, w') = try_info api block a get_providers_retries w (ok ([], 0)) in (state_of a r, w')

abbrev running : Ctx
running = record { job_id = ""; done_at = none }

-- A goroutine whose address is not valid appends nothing; the loop does not look at its context.
unfoldable pub inspections : Api → ℕ → Fanout Text LiteState
unfolding inspect_one
inspections api block = record {
  ctx = running;
  cap = parallel_requests;
  schedule = api.schedule;
  admits = api.parse_addr;
  work = inspect_one api block;
}

-- All goroutines are started, and get the semaphore in the scheduler's order.
unfoldable pub inspect_all : Api → ℕ → List Text → Act (List LiteState)
unfolding inspections fan_out
inspect_all api block addrs w =
    let (out, w') = fan_out (inspections api block) (arrange (api.turn_order w.tick) addrs) w in
    (ok out, w')

unfoldable pub get_providers_info : Api → List Text → Act (List LiteState)
unfolding ◌>>=◌ ask wrapping inspect_all
get_providers_info api addrs = do
  block ← wrapping "get masterchain info err" (ask api.masterchain_info)
  inspect_all api block addrs
