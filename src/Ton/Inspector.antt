-- ===== src/Ton/Inspector.antt =====
-- `InspectProviders` of internal/adapters/outbound/ton/inspector.go.
use mytonprovider_agent.Common.{List, [], ◌∷◌, map, Text}
use mytonprovider_agent.Domain.{OnChainProvider, ContractOnChainState}
use mytonprovider_agent.World.{Act, pure, wrapping, ◌>>=◌}
use mytonprovider_agent.Lite.{LiteProvider, LiteState}
use mytonprovider_agent.Lite.States.{get_providers_info}
use mytonprovider_agent.Ton.{Client}

abbrev on_chain_provider : LiteProvider → OnChainProvider
on_chain_provider p = record {
  key = p.key;
  last_proof_time = p.last_proof_time;
  rate_per_mb_day = p.rate_per_mb_day;
  max_span = p.max_span;
}

abbrev pub on_chain_state : LiteState → ContractOnChainState
on_chain_state s = record {
  address = s.address;
  balance = s.balance;
  providers = map on_chain_provider s.providers;
  lite_server_error = s.lite_server_error;
}

unfoldable pub inspect_contracts : Client → List Text → Act (List ContractOnChainState)
unfolding ◌>>=◌ wrapping get_providers_info pure
inspect_contracts c [] = pure []
inspect_contracts c (a ∷ addrs) =
    wrapping "adapters.outbound.ton.Inspector.InspectProviders"
      (get_providers_info c.api (a ∷ addrs))
    >>= λ raw. pure (map on_chain_state raw)
