-- ===== src/Lib.antt =====
-- mytonprovider-agent: a model of the agent of mytonprovider, which scans the TON network for
-- storage providers and their contracts, probes them, checks their proofs and publishes what it
-- finds, and the theorems about it.
--
-- The program. A consumer (internal/adapters/inbound/redisstream) reads one cycle's triggers from a
-- Redis stream and calls the use case of the cycle (internal/usecase/discovery, poll, proof,
-- update). A use case reads through its ports (internal/usecase/*/ports.go), which the adapters
-- implement (internal/adapters/outbound), publishes its result to a Redis stream, and the two scans
-- then store how far they came.
--
-- The files.
-- - Domain, Jobs: internal/domain/*.go and internal/jobs/types.go, type by type.
-- - World: what the code reads and changes outside itself, and actions: a Go function with an error
--   result is `Act A`, a function from the world to a result and the next world, and the early
--   returns are its bind. The children hold the rules by which the invariants of actions are proved.
-- - Strings: what the code uses of strings, encoding/hex, regexp and strconv, on byte lists.
-- - Ports: the interfaces of the use cases, with the laws that a reader writes nothing and a writer
--   makes one write. The modules of Postgres and Direct.Prover fill those of the repositories and
--   of the prover.
-- - Publisher: redisstream/publisher.go (PublishResult, PublishError, publish).
-- - Discovery: discovery.go; CollectNewProviders is NewProviders, CollectStorageContracts is
--   StorageContracts, ResolveEndpoints is Endpoints.
-- - Workers: the bounded fan-out (a semaphore, a wait group and a mutex) of poll.go and proof.go, as
--   steps: the loop starts a goroutine, or one that runs completes. The scheduler's choices are a
--   parameter, so a theorem about it holds for every interleaving.
-- - Poll: poll.go; UpdateProviderRates is Rates, UpdateRejectedContracts is Rejected.
-- - Proof: proof.go; checkProvider is Provider, CheckStorageProofs is Cycle.
-- - Update: update.go, UpdateIPInfo.
-- - Consumer: consumer.go and reaper.go; process is Process, runWorker is Worker, claimPending is
--   Reaper, Run is Run.
-- - Postgres: internal/adapters/outbound/postgres over table rows; system.go is System, endpoint.go
--   is Endpoints, provider.go is Providers, contract.go and ipinfo.go are Relations.
-- - Direct: Probe, Verify and checkPiece of internal/adapters/outbound/directprovider/client.go.
-- - Lite: internal/adapters/outbound/ton/liteclient/client.go, over what tonutils-go answers;
--   GetTransactions is Transactions, GetStorageContractsInfo is Contracts, GetProvidersInfo is
--   States. Ton: the scanners and the inspector over it; Ton.Adapters fills their ports.
-- - Dht: internal/adapters/outbound/dht/dht.go; Resolve is Resolve, ResolveStorageWithOverlay is
--   Overlay. IpConfig: internal/adapters/outbound/ipconfig/client.go.
-- - Config: internal/config/config.go. App: internal/app/app.go; New is the use cases over all the
--   adapters and the table of bindings, MustRun is Start and Serving. Agent runs the turns of all
--   consumers one after the other, Overlap lets the writes of their turns interleave, Advance
--   follows the stored LT through a run of Agent, Delivery its acknowledgements, and Answers is about
--   what is written for one trigger.
-- - Connections: what New opens and Close closes, as handles: initADNL, NewPool of
--   internal/adapters/outbound/postgres/storage.go, NewClient of the liteclient, New of
--   internal/adapters/outbound/adnlclients/clients.go and of pkg/telemetry/otel.go. App.Lifecycle is
--   New and Close over them, and `run` of cmd/app/main.go.
-- - Loadtest: cmd/loadtest/main.go, which is a process of its own; Counting, Sending and Ending show
--   what it reports, Early what it misses.
-- - Utils: internal/lib/utils/utils.go.
-- - Checkpoints: the rule of the two stored logical times, stated on the log of writes, which names
--   no operation of the code.
-- - Tests: sample data, and a concrete run for each result.
--
-- What is a parameter. Every call that leaves the process takes one tick, and its answer is a
-- function of the tick: the answers of Redis, of the nodes, of the clock, the faults of the
-- database, the order of ranges over maps, the scheduler and the shuffle. No theorem assumes more
-- of them than it says. A context is done from a tick on, or never.
--
-- Bounds and fuel. uint64, uint32 and int32 values are natural numbers; where the code cuts a value
-- the model writes `% 2 ^ w` (the number of pieces), and the decimal parser refuses what is past
-- 2^64 - 1. `format_uint` runs on the number itself as fuel, the fan-out on two rounds for each job,
-- which Workers.Bounds shows to be enough. A worker and the reaper run on a given number of turns,
-- since the loops of the code have no bound; that they end with their context is a result below.
--
-- The load test's loop that waits runs on a given number of turns; Loadtest.Ending shows how many are
-- enough, from the tick at which the clock has reached the deadline.
--
-- `collect`, the loop of GetTransactions, runs on two turns more than the LT that it starts from:
-- the LT falls from page to page, and Lite.Transactions.Complete shows that the turns are enough.
--
-- Overlap. The actions of a turn are one function from world to world, so a run of App.Agent takes
-- the turns one after the other. In App.Overlap each turn has ports of its own, whose answers are
-- arbitrary and so cover what other turns did to the database meanwhile, and the logs of the turns
-- interleave. In Consumer.Run and App.Serving a goroutine's turn is one round of its loop, and the
-- goroutines take turns in any order.
--
-- Not modelled: log lines, spans, log attributes (internal/lib/sl) and JSON texts; the collectors
-- and the server of pkg/metrics (but for the counters that the consumer moves), which are set-up of
-- Prometheus; the goroutines of a consumer that run while MustRun still starts the next one; the
-- log level of cmd/app/main.go; a transaction without an incoming message, on which parseTx of the
-- liteclient panics.
pub mod Common
pub mod Domain
pub mod Jobs
pub mod World
pub mod Strings
pub mod Publisher
pub mod Ports
pub mod Discovery
pub mod Checkpoints
pub mod Workers
pub mod Poll
pub mod Proof
pub mod Update
pub mod Consumer
pub mod Postgres
pub mod Direct
pub mod Utils
pub mod Lite
pub mod Ton
pub mod Dht
pub mod IpConfig
pub mod Config
pub mod App
pub mod Connections
pub mod Loadtest
pub mod Tests
