-- ===== src/Poll/Rates.antt =====
-- `UpdateProviderRates` of internal/usecase/poll/poll.go.
pub mod Statuses
pub mod Checkpoint
use mytonprovider_agent.Common.{
  ℕ, ◌+◌, Bool, true, false, ◌&&◌, Option, none, some, List, [], ◌∷◌, ◌++◌, map, Text,
  if◌then◌else◌,
}
use mytonprovider_agent.Domain.{Rates, ProviderStatus}
use mytonprovider_agent.Jobs.{
  Ctx, job_id_from, ProviderRateUpdate, ProbeRatesResult, probe_rates, cycle_probe_rates,
}
use mytonprovider_agent.World.{World, Act, Result, ok, err, wrapping, unless_done, ◌>>=◌, ◌>>◌}
use mytonprovider_agent.Discovery.Endpoints.{decode_pubkey}
use mytonprovider_agent.Publisher.{publish_result}
use mytonprovider_agent.Workers.{Fanout, fan_out}
use mytonprovider_agent.Poll.{Config, Poll, with_defaults}

-- what one goroutine appends: to `statuses`, and to `rateUpdates` if the provider is online
pub record Probed : Type 0 where
  pub status : ProviderStatus
  pub update : Option ProviderRateUpdate

-- `isOnline := online && pErr == nil`, and the two appends under the mutex
unfoldable pub probed : Text → ℕ → Result (Rates × Bool) → Probed
probed pubkey time (ok (rates, true)) = record {
  status = record { public_key = pubkey; is_online = true; checked_at = time };
  update = some (record { public_key = pubkey; rates = rates });
}
probed pubkey time _ = record {
  status = record { public_key = pubkey; is_online = false; checked_at = time };
  update = none;
}

pub is_decodable : Text → Bool
is_decodable pubkey = elim (decode_pubkey pubkey) [ none ↦ false | some raw ↦ true ]

raw_key : Text → List ℕ
raw_key pubkey = elim (decode_pubkey pubkey) [ none ↦ [] | some raw ↦ raw ]

-- the body of the goroutine
unfoldable pub probe_one : Poll → Text → World → Probed × World
unfolding raw_key probed
probe_one p pubkey w =
    let (r, w') = p.probe.probe (raw_key pubkey) w in
    (probed pubkey (p.clock w'.tick) r, record w' { tick = w'.tick + 1 })

unfoldable pub probes : Poll → Ctx → Fanout Text Probed
unfolding probe_one is_decodable with_defaults
probes p ctx = record {
  ctx = ctx;
  cap = (with_defaults p.cfg).max_concurrent_probe;
  schedule = p.schedule;
  admits = is_decodable;
  work = probe_one p;
}

unfoldable pub rate_updates : List Probed → List ProviderRateUpdate
rate_updates [] = []
rate_updates (x ∷ xs) =
    let rest = rate_updates xs in elim x.update [ none ↦ rest | some u ↦ u ∷ rest ]

unfoldable pub rates_result : List Probed → ProbeRatesResult
unfolding rate_updates
rates_result out = record { statuses = map (λ x. x.status) out; rates = rate_updates out }

publish_rates : Poll → Ctx → ProbeRatesResult → Act (Unit {0})
publish_rates p ctx result =
    publish_result p.publisher p.cfg.probe_rates_stream (job_id_from ctx) cycle_probe_rates
      (probe_rates result)

probe_all : Poll → Ctx → List Text → Act (List Probed)
unfolding fan_out probes
probe_all p ctx pubkeys w = let (out, w') = fan_out (probes p ctx) pubkeys w in (ok out, w')

update_rates : Poll → Ctx → List Text → Act (Unit {0})
unfolding ◌>>=◌ unless_done wrapping probe_all publish_rates rates_result
update_rates p ctx [] = publish_rates p ctx (record { statuses = []; rates = [] })
update_rates p ctx (k ∷ ks) = do
  out ← probe_all p ctx (k ∷ ks)
  unless_done ctx
      (wrapping "usecase.poll.UpdateProviderRates" (publish_rates p ctx (rates_result out)))

unfoldable pub update_provider_rates : Poll → Ctx → Act (Unit {0})
unfolding ◌>>=◌ update_rates
update_provider_rates p ctx = do
  pubkeys ← p.provider_repo.get_all_pubkeys
  update_rates p ctx pubkeys
