-- ===== src/Lite/States/Inspected.antt =====
-- What `GetProvidersInfo` returns.
use mathlib.Core.List.{Perm}
use mathlib.Core.List.Perm
use mytonprovider_agent.Common.{
  ℕ, ◌+◌, ◌≡◌, refl, List, [], map, Text, select, arrange, select-arrange-perm,
}
use mytonprovider_agent.World.{World, Result, ok, err, ask, wrapping, ◌>>=◌}
use mytonprovider_agent.Workers.{fan_out}
use mytonprovider_agent.Workers.Results.{fan_out-perm}
use mytonprovider_agent.Lite.{LiteState, ProviderInfo, Api}
use mytonprovider_agent.Lite.States.{
  get_providers_retries, try_info, state_of, inspect_one, inspections, inspect_all,
  get_providers_info,
}

address_of_state : (a : Text) (r : Result (List ProviderInfo × ℕ)) → (state_of a r).address ≡ a
unfolding state_of
address_of_state a (ok info) = refl
address_of_state a (err e) = refl

inspected :
    (api : Api) (block : ℕ) (a : Text) (w : World) → (inspect_one api block a w).0.address ≡ a
unfolding inspect_one
inspected api block a w =
    address_of_state a (try_info api block a get_providers_retries w (ok ([], 0))).0

inspect_all-perm :
    (api : Api) (block : ℕ) (addrs : List Text) (w : World)
    → Perm
        (map
          (λ s. s.address)
          (fan_out (inspections api block) (arrange (api.turn_order w.tick) addrs) w).0)
        (select api.parse_addr addrs)
unfolding inspections
inspect_all-perm api block addrs w =
    Perm.trans
      (fan_out-perm (inspections api block) (λ s. s.address) (inspected api block) refl
        (arrange (api.turn_order w.tick) addrs) w)
      (select-arrange-perm api.parse_addr (api.turn_order w.tick) addrs)

-- If the call for the masterchain's block answers, GetProvidersInfo succeeds, and gives each valid
-- address exactly one state and no other address one, for every schedule and whatever its other
-- calls answer.
pub get_providers_info-perm :
    (api : Api) (addrs : List Text) (w : World) (block : ℕ)
    → api.masterchain_info w.tick ≡ ok block
    → (out : List LiteState) × ((get_providers_info api addrs w).0 ≡ ok out)
      × Perm (map (λ s. s.address) out) (select api.parse_addr addrs)
unfolding get_providers_info ◌>>=◌ ask wrapping inspect_all
get_providers_info-perm api addrs w block e =
    let w' = record w { tick = w.tick + 1 } in
    (
      (fan_out (inspections api block) (arrange (api.turn_order w'.tick) addrs) w').0,
      rw e refl,
      inspect_all-perm api block addrs w',
    )
