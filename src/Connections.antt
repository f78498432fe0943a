-- ===== src/Connections.antt =====
-- The connections that the agent opens when it starts: initADNL of internal/app/app.go,
-- internal/adapters/outbound/adnlclients/clients.go, NewPool of
-- internal/adapters/outbound/postgres/storage.go, NewClient of
-- internal/adapters/outbound/ton/liteclient/client.go and New of pkg/telemetry/otel.go.
pub mod Same
pub mod Pools
use Prim.Native.String.{◌++◌ as ◌<>◌}
use mytonprovider_agent.Common.{ℕ, ◌+◌, String, Option, none, some, List, [], ◌∷◌}
use mytonprovider_agent.World.{Error, panicked, wrap, Result, ok, err}

-- what can be open: sockets, clients over them, pools
pub data Handle : Type 0 where
  listener : (addr : String) → Handle
  gateway : (key : List ℕ) (on : Handle) → Handle
  dht_client : (on : Handle) (network : ℕ) → Handle
  transport : (on : Handle) (dht : Handle) → Handle
  pool : (dsn : String) → Handle
  lite_pool : (url : String) → Handle
  redis : (addr : String) → Handle
  tracer : (service end_point : String) → Handle

-- The third-party calls, by tick: `start` is what brings a handle up. A network's configuration is
-- a number here. No code reads what Close and Shutdown of a handle give.
pub record Links : Type 0 where
  pub get_config : String → ℕ → Result ℕ
  pub generate_key : ℕ → Result (List ℕ)
  pub start : Handle → ℕ → Result (Unit {0})
  pub ping : Handle → ℕ → Result (Unit {0})
  pub new_exporter : String → ℕ → Result (Unit {0})
  pub merge_resource : String → ℕ → Result (Unit {0})
  -- Close of a pool or of a gateway through a nil pointer
  pub close_nil : ℕ → Result (Unit {0})

-- The process: how many calls it has made, what it has opened and what it has closed, the newest
-- first.
pub record Sys : Type 0 where
  pub tick : ℕ
  pub opened : List Handle
  pub closed : List Handle

abbrev pub Setup : Type 0 → Type 0
Setup A = Sys → Result A × Sys

module _ {A : Type 0} where
  unfoldable pub done : A → Setup A
  done a s = (ok a, s)

  unfoldable pub fail : Error → Setup A
  fail e s = (err e, s)

  unfoldable pub call : (ℕ → Result A) → Setup A
  call answer s = (answer s.tick, record s { tick = s.tick + 1 })

  abbrev pub explained : String → Result A → Result A
  explained op (ok a) = ok a
  explained op (err panicked) = err panicked
  explained op (err e) = err (wrap op e)

  -- `if err != nil { return fmt.Errorf("…: %w", err) }`; a panic goes through
  unfoldable pub explain : String → Setup A → Setup A
  explain op m s = let (r, s') = m s in (explained op r, s')

infixl 10 ◌>>=◌ ◌>>◌
unfoldable pub ◌>>=◌ : {A B : Type 0} → Setup A → (A → Setup B) → Setup B
unfolding done fail call explain
◌>>=◌ m f s = let (r, s') = m s in elim r [ ok a ↦ f a s' | err e ↦ (err e, s') ]

abbrev pub ◌>>◌ : {B : Type 0} → Setup (Unit {0}) → Setup B → Setup B
m >> k = m >>= λ _. k

unfoldable pub opens : Links → Handle → Setup Handle
opens l h s = elim (l.start h s.tick) [
  | ok _ ↦ (ok h, record { tick = s.tick + 1; opened = h ∷ s.opened; closed = s.closed })
  | err e ↦ (err e, record s { tick = s.tick + 1 })
]

-- initADNL: the DHT client, the transport client and the provider's gateway
unfoldable pub init_adnl : Links → String → String → List ℕ → Setup (Handle × Handle × Handle)
unfolding ◌>>=◌ opens
init_adnl l url port key = do
  network ← explain "main.initADNL: liteclient config" (call (l.get_config url))
  dht_key ← explain "main.initADNL: dht key" (call l.generate_key)
  dl ← explain "main.initADNL: udp listen" (opens l (listener ("0.0.0.0:" <> port)))
  dht_gate ← explain "main.initADNL: dht gateway" (opens l (gateway dht_key dl))
  dht ← explain "main.initADNL: dht client" (opens l (dht_client dht_gate network))
  gate ← explain "main.initADNL: provider gateway" (opens l (gateway key dl))
  done (dht, transport gate dht, gate)

-- adnlclients.Clients, whose pointers may be nil
pub record Clients : Type 0 where
  pub dht : Option Handle
  pub transport_client : Option Handle

-- `New` of adnlclients up to the DHT client, which it gives with the listener
until_dht : Links → String → String → Setup (Handle × Handle)
unfolding ◌>>=◌ opens
until_dht l url port = do
  network ← explain "failed to get liteclient config" (call (l.get_config url))
  dht_key ← explain "failed to generate DHT ADNL key" (call l.generate_key)
  dl ← explain "failed to create default listener" (opens l (listener ("0.0.0.0:" <> port)))
  dht_gate ← explain "failed to start DHT gateway" (opens l (gateway dht_key dl))
  dht ← explain "failed to create DHT client" (opens l (dht_client dht_gate network))
  done (dht, dl)

-- The rest sets the transport client, once the provider's gateway has started.
with_transport : Handle → Result Handle → Clients × Option Error
with_transport dht (ok gate) =
    (record { dht = some dht; transport_client = some (transport gate dht) }, none)
with_transport dht (err e) = (record { dht = some dht; transport_client = none }, some e)

-- what is set after the part up to the DHT client
set_clients : Links → List ℕ → Result (Handle × Handle) × Sys → (Clients × Option Error) × Sys
unfolding opens with_transport
set_clients l key (err e, s) = ((record { dht = none; transport_client = none }, some e), s)
set_clients l key (ok (dht, dl), s) =
    let (g, s') =
      explain "failed to start ADNL gateway for provider" (opens l (gateway key dl)) s in
    (with_transport dht g, s')

-- adnlclients.New returns what it has set so far, and the error.
unfoldable pub new_clients : Links → String → String → List ℕ → Sys → (Clients × Option Error) × Sys
unfolding until_dht set_clients
new_clients l url port key s = set_clients l key (until_dht l url port s)

unfoldable pub closes : Handle → Setup (Unit {0})
closes h s = (ok tt, record { tick = s.tick + 1; opened = s.opened; closed = h ∷ s.closed })

-- the end of NewPool: the pool is closed again if it does not answer
unfoldable pub answering : Links → Handle → Setup Handle
unfolding ◌>>=◌ closes
answering l p s =
    let (r, s') = call (l.ping p) s in
    elim r [ ok _ ↦ (ok p, s') | err e ↦ explain "postgres.NewPool" (closes p >> fail e) s' ]

-- postgres.NewPool
unfoldable pub new_pool : Links → String → Setup Handle
unfolding ◌>>=◌ opens answering
new_pool l dsn = explain "postgres.NewPool" (opens l (pool dsn)) >>= answering l

-- tonclient.NewClient: an error is a panic
unfoldable pub new_lite_client : Links → String → Setup Handle
unfolding opens
new_lite_client l url s =
    let (r, s') = opens l (lite_pool url) s in (elim r [ ok h ↦ ok h | err e ↦ err panicked ], s')

-- what cannot fail is open at once
unfoldable pub holds : Handle → Setup Handle
holds h s = (ok h, record s { opened = h ∷ s.opened })

-- telemetry.New
unfoldable pub new_tracer_provider : Links → String → String → Setup Handle
unfolding ◌>>=◌ holds
new_tracer_provider l service end_point = do
  explain "telemetry.New" (call (l.new_exporter end_point))
  explain "telemetry.New" (call (l.merge_resource service))
  holds (tracer service end_point)
