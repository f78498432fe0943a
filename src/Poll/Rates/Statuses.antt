-- ===== src/Poll/Rates/Statuses.antt =====
-- The statuses and rates that the cycle publishes.
use mathlib.Core.List.{Perm}
use mytonprovider_agent.Common.{
  ℕ, ◌<◌, ◌≤◌, ◌≡◌, refl, Bool, true, false, none, some, List, [], ◌∷◌, map, Text, arith, length,
  select, All,
}
use mytonprovider_agent.Domain.{Rates, ProviderStatus}
use mytonprovider_agent.Jobs.{Ctx}
use mytonprovider_agent.World.{World, Result, ok, err}
use mytonprovider_agent.Workers.{fan_out, run_rounds}
use mytonprovider_agent.Workers.Bounds.{run_rounds_bounded}
use mytonprovider_agent.Workers.Results.{fan_out-perm, fan_out-All}
use mytonprovider_agent.Poll.{Config, Poll, with_defaults}
use mytonprovider_agent.Poll.Rates.{
  Probed, probed, is_decodable, raw_key, probe_one, probes, rate_updates, rates_result,
}

default_pos : (cfg : Config) → 0 < (with_defaults cfg).max_concurrent_probe
unfolding with_defaults
default_pos cfg = ground arith

probed-key :
    (pubkey : Text) (time : ℕ) (r : Result (Rates × Bool))
    → (probed pubkey time r).status.public_key ≡ pubkey
unfolding probed
probed-key pubkey time (ok (rates, true)) = refl
probed-key pubkey time (ok (rates, false)) = refl
probed-key pubkey time (err e) = refl

abbrev status_key : Probed → Text
status_key x = x.status.public_key

probe_one-key :
    (p : Poll) (pubkey : Text) (w : World) → status_key (probe_one p pubkey w).0 ≡ pubkey
unfolding probe_one
probe_one-key p pubkey w = probed-key pubkey _ (p.probe.probe (raw_key pubkey) w).0

map-status :
    (out : List Probed) → map (λ s. s.public_key) (map (λ x. x.status) out) ≡ map status_key out
map-status [] = refl
map-status (x ∷ xs) = rw (map-status xs)

-- If the context is never done, each known public key that is 32 bytes in hexadecimal gets exactly
-- one status, and no other key gets one, in whatever order the goroutines complete.
pub statuses-perm :
    (p : Poll) (ctx : Ctx) (pubkeys : List Text) (w : World)
    → ctx.done_at ≡ none
    → Perm
        (map (λ s. s.public_key) (rates_result (fan_out (probes p ctx) pubkeys w).0).statuses)
        (select is_decodable pubkeys)
unfolding rates_result probes
statuses-perm p ctx pubkeys w runs =
    rw (map-status (fan_out (probes p ctx) pubkeys w).0)
      (fan_out-perm (probes p ctx) status_key (probe_one-key p) runs pubkeys w)

abbrev pub is_online : ProviderStatus → Bool
is_online s = s.is_online

-- an entry of `rateUpdates` stands beside each online status, and beside no other
abbrev IsConsistent : Probed → Type 0
IsConsistent x = elim x.update [
  | none ↦ x.status.is_online ≡ false
  | some u ↦ (x.status.is_online ≡ true) × (u.public_key ≡ x.status.public_key)
]

probed-IsConsistent :
    (pubkey : Text) (time : ℕ) (r : Result (Rates × Bool)) → IsConsistent (probed pubkey time r)
unfolding probed
probed-IsConsistent pubkey time (ok (rates, true)) = (refl, refl)
probed-IsConsistent pubkey time (ok (rates, false)) = refl
probed-IsConsistent pubkey time (err e) = refl

probe_one-IsConsistent :
    (p : Poll) (pubkey : Text) (w : World) → IsConsistent (probe_one p pubkey w).0
unfolding probe_one
probe_one-IsConsistent p pubkey w =
    probed-IsConsistent pubkey _ (p.probe.probe (raw_key pubkey) w).0

rate_updates-online :
    (out : List Probed)
    → All IsConsistent out
    → map (λ u. u.public_key) (rate_updates out)
      ≡ map (λ s. s.public_key) (select is_online (map (λ x. x.status) out))
unfolding rate_updates
rate_updates-online [] h = refl
rate_updates-online (x ∷ xs) h = ground (arith, rate_updates-online xs h.1, h.0)

-- The published rates are for exactly the providers whose published status is online, in the same
-- order; this holds on a cancelled run too.
pub rates-online :
    (p : Poll) (ctx : Ctx) (pubkeys : List Text) (w : World)
    → let result = rates_result (fan_out (probes p ctx) pubkeys w).0 in
      map (λ u. u.public_key) result.rates
      ≡ map (λ s. s.public_key) (select is_online result.statuses)
unfolding rates_result probes
rates-online p ctx pubkeys w =
    rate_updates-online _
      (fan_out-All (probes p ctx) IsConsistent (probe_one-IsConsistent p) pubkeys w)

-- Whatever the scheduler does, there are never more probes in flight than the configured bound,
-- or 30 where the configuration leaves it out.
pub probes_bounded :
    (p : Poll) (ctx : Ctx) (pubkeys : List Text) (w : World) (n : ℕ)
    → length
        (run_rounds
          (probes p ctx)
          n
          (record { todo = pubkeys; running = []; out = []; world = w })).running
      ≤ (with_defaults p.cfg).max_concurrent_probe
unfolding probes
probes_bounded p ctx pubkeys w n =
    run_rounds_bounded (probes p ctx) n _ (default_pos p.cfg) (omega arith)
