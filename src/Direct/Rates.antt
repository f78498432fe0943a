-- ===== src/Direct/Rates.antt =====
-- `Probe` of internal/adapters/outbound/directprovider/client.go.
use mytonprovider_agent.Common.{
  ℕ, ◌+◌, ◌*◌, ◌%◌, ◌^◌, Bool, true, false, Option, none, some, List, [], ◌∷◌, if◌then◌else◌,
}
use mytonprovider_agent.Domain.{Rates}
use mytonprovider_agent.World.{Act, Result, pure, ask, wrapping, ◌>>=◌}
use mytonprovider_agent.World.Actions.Keeps.{
  IsReadOnly, pure-IsReadOnly, ask-IsReadOnly, wrapping-IsReadOnly, bind-IsReadOnly,
}
use mytonprovider_agent.Ports.{RatesProbe}

-- `transport.StorageRatesResponse`, as far as the code reads it
pub record StorageRates : Type 0 where
  pub available : Bool
  pub rate_per_mb_day : List ℕ
  pub min_bounty : List ℕ
  pub min_span : ℕ  -- uint32
  pub max_span : ℕ  -- uint32

-- `transport.Client.GetStorageRates` for a key and a size at a tick; a nil answer is `none`
abbrev pub Transport : Type 0
Transport = List ℕ → ℕ → ℕ → Result (Option StorageRates)

-- `new(big.Int).SetBytes(b)`, from the number that the bytes before `b` make
unfoldable pub number_from : ℕ → List ℕ → ℕ
number_from n [] = n
number_from n (b ∷ bs) = number_from (n * 256 + b) bs

-- `.Int64()` gives the low 64 bits, as a bit pattern
unfoldable pub int64_of : List ℕ → ℕ
unfolding number_from
int64_of bs = number_from 0 bs % 2 ^ 64

abbrev no_rates : Rates
no_rates = record { rate_per_mb_day = 0; min_bounty = 0; min_span = 0; max_span = 0 }

unfoldable pub rates_of : Option StorageRates → Rates × Bool
unfolding int64_of
rates_of none = (no_rates, false)
rates_of (some res) =
    if res.available
    then (
      record {
        rate_per_mb_day = int64_of res.rate_per_mb_day;
        min_bounty = int64_of res.min_bounty;
        min_span = res.min_span;
        max_span = res.max_span;
      },
      true,
    )
    else (no_rates, false)

abbrev probe_fake_size : ℕ
probe_fake_size = 1

unfoldable pub probe : Transport → List ℕ → Act (Rates × Bool)
unfolding ◌>>=◌ ask wrapping rates_of pure
probe transport pubkey = do
  res ← wrapping "adapters.directprovider.Probe" (ask (transport pubkey probe_fake_size))
  pure (rates_of res)

pub probe-IsReadOnly :
    (transport : Transport) (pubkey : List ℕ) → IsReadOnly (probe transport pubkey)
unfolding probe
probe-IsReadOnly transport pubkey =
    bind-IsReadOnly (wrapping _ (ask (transport pubkey probe_fake_size)))
      (λ res. pure (rates_of res))
      (wrapping-IsReadOnly _ (ask (transport pubkey probe_fake_size)) (ask-IsReadOnly _))
      (λ res. pure-IsReadOnly _)

-- The probe that the poll use case gets.
abbrev pub rates_probe : Transport → RatesProbe
rates_probe transport = record { probe = probe transport; probe_reads = probe-IsReadOnly transport }
