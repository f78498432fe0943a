-- ===== src/Tests/Lifecycle.antt =====
-- The agent from its start to its end: turns that overlap, the drain, and the connections.
use mathlib.Core.List.{Memᴰ}
use mytonprovider_agent.Common.{
  Bool, All, ℕ, ◌^◌, ◌≤◌, ◌<◌, ◌==◌, Bool-cases, inl, inr, ◌≡◌, refl, true, some, List, [], ◌∷◌,
  ◌++◌, arith,
}
use mytonprovider_agent.Jobs.{Ctx}
use mytonprovider_agent.World.{World, Write, xack, ok, err, failed, panicked, redis_nil}
use mytonprovider_agent.Config.{Config}
use mytonprovider_agent.Connections.{pool, Links, Sys, init_adnl, new_pool, new_clients}
use mytonprovider_agent.Connections.Pools.{IsHeld, new_pool-IsHeld}
use mytonprovider_agent.Connections.Same.{Agree, init_adnl-new_clients}
use mytonprovider_agent.Consumer.{Message, text}
use mytonprovider_agent.Consumer.Process
use mytonprovider_agent.Consumer.Delivery.{acked}
use mytonprovider_agent.App.Delivery.{run-acked}
use mytonprovider_agent.App.Answers.{IsAnswer, process-Answers}
use mytonprovider_agent.Consumer.Worker.{worker_turn}
use mytonprovider_agent.Consumer.Run.{Task, works, waits, take_turns, all_ended}
use mytonprovider_agent.Consumer.Run.Drains.{Idles}
use mytonprovider_agent.App.{
  stream_key, bindings_of, new_discovery, new_poll, new_proof, new_update,
}
use mytonprovider_agent.App.Start.{Queue, new_consumer, start_consumers}
use mytonprovider_agent.App.Serving.{must_run, serving, returned, must_run-drains}
use mytonprovider_agent.App.Overlap.{
  Turn, Interleaves, none_left, from_left, from_right, no_turn, joins, IsAnnounced,
}
use mytonprovider_agent.App.Overlap.Announcing.{Overlapped-IsAnnounced}
use mytonprovider_agent.App.Lifecycle.{new_app, run}
use mytonprovider_agent.App.Lifecycle.Shutdown.{EndsBadly, run-EndsBadly}
use mytonprovider_agent.Strings.Decimal.{parse_uint}
use mytonprovider_agent.Postgres.System.Stored.{stored_lt}
use mytonprovider_agent.Ton.Ranges.{PageFits}
use mytonprovider_agent.App.Agent.{Step, Runs}
use mytonprovider_agent.App.Advance.{run-NotBelow}
use mytonprovider_agent.Tests.Samples.{fill, ctx, world}
use mytonprovider_agent.Tests.Outside.{page_at, config, outside, queue}
use mytonprovider_agent.Tests.Agent.{scan_binding, scan_is_bound}

scan_member : Memᴰ scan_binding (
    bindings_of config
      (new_discovery config outside)
      (new_poll config outside)
      (new_proof config outside)
      (new_update config outside))
unfolding bindings_of
scan_member = Memᴰ.head refl

abbrev scan_log : List Write
scan_log = (worker_turn (new_consumer config queue scan_binding) ctx world).1.log

scan_turn : Turn scan_log
scan_turn =
    Turn.works config queue (new_discovery config outside) (new_poll config outside)
      (new_proof config outside) (new_update config outside) scan_binding scan_member ctx world refl

-- write by write
abbrev alternate : List Write → List Write → List Write
alternate [] m = m
alternate (x ∷ l) [] = x ∷ l
alternate (x ∷ l) (y ∷ m) = x ∷ y ∷ alternate l m

alone : (m : List Write) → Interleaves [] m m
alone [] = none_left
alone (x ∷ m) = from_right x (alone m)

alone_left : (l : List Write) → Interleaves l [] l
alone_left [] = none_left
alone_left (x ∷ l) = from_left x (alone_left l)

alternates : (l m : List Write) → Interleaves l m (alternate l m)
alternates [] m = alone m
alternates (x ∷ l) [] = alone_left (x ∷ l)
alternates (x ∷ l) (y ∷ m) = from_left x (from_right y (alternates l m))

Overlapped-IsAnnounced_example : IsAnnounced (alternate scan_log scan_log)
Overlapped-IsAnnounced_example = Overlapped-IsAnnounced (
    joins 0 scan_turn (joins 0 scan_turn no_turn (alone_left scan_log))
      (alternates scan_log scan_log))

-- an agent with nothing to read, that is stopped
abbrev quiet : Queue
quiet = record queue { read_group = λ stream t. err redis_nil }

abbrev patient : Config
patient = record config { system = record (config.system) { reaper_timeout = 600 } }

abbrev stopped : Ctx
stopped = record ctx { done_at = some 3 }

abbrev running : List Task
running = let c = new_consumer patient quiet scan_binding in waits c ∷ works c ∷ works c ∷ []

it_serves :
    must_run patient quiet (scan_binding ∷ []) stopped (λ t. true) (0 ∷ 1 ∷ []) world
    ≡ serving running (record world { tick = 3 })
unfolding must_run start_consumers take_turns worker_turn all_ended
it_serves = refl

must_run-drains_example :
    (w' : World) × (must_run patient quiet
        (scan_binding ∷ [])
        stopped
        (λ t. true)
        ((0 ∷ 1 ∷ []) ++ 2 ∷ 0 ∷ 1 ∷ [])
        world
      ≡ returned w')
    × Idles (record world { tick = 3 }) w'
must_run-drains_example =
    must_run-drains stopped (λ t. true) 3 refl (λ t h. refl) patient quiet (scan_binding ∷ [])
      (0 ∷ 1 ∷ []) (2 ∷ 0 ∷ 1 ∷ []) world running (record world { tick = 3 }) it_serves
      (omega arith) (tt, (tt, (tt, tt))) (refl, (refl, (refl, tt)))

-- the database does not answer the ping
abbrev links : Links
links = record {
  get_config = λ url t. ok 1;
  generate_key = λ t. ok (fill 32 1);
  start = λ h t. ok tt;
  ping = λ h t. err (failed "no answer");
  new_exporter = λ to t. ok tt;
  merge_resource = λ name t. ok tt;
  close_nil = λ t. err panicked;
}

abbrev process : Sys
process = record { tick = 0; opened = []; closed = [] }

new_pool-IsHeld_example :
    IsHeld links
      (pool "dsn")
      process
      (new_pool links "dsn" process).0
      (new_pool links "dsn" process).1
new_pool-IsHeld_example = new_pool-IsHeld links "dsn" process

init_adnl-new_clients_example :
    ((init_adnl links "url" "16167" [] process).1 ≡ (new_clients links "url" "16167" [] process).1)
    × Agree
        (init_adnl links "url" "16167" [] process).0
        (new_clients links "url" "16167" [] process).0
init_adnl-new_clients_example = init_adnl-new_clients links "url" "16167" [] process

run-EndsBadly_example :
    EndsBadly (new_app links config process).1 (run links (ok config) (ok tt) process)
run-EndsBadly_example = run-EndsBadly links config (ok tt) process (λ t. refl)

page_fits : (lt : ℕ) → PageFits (2 ^ 64) (page_at lt)
page_fits lt = elim (Bool-cases (lt == 60)) [
  | inl newest ↦ rw newest (omega arith, (omega arith, tt))
  | inr older ↦ elim (Bool-cases (lt == 40)) [
    | inl oldest ↦ rw (older, oldest) (omega arith, (omega arith, tt))
    | inr gone ↦ rw (older, gone) tt
  ]
]

stored_at_first : stored_lt world.db ≡ ok 40
unfolding stored_lt parse_uint
stored_at_first = refl

run-NotBelow_example :
    (m : ℕ) × (40 ≤ m)
    × (m < 2 ^ 64)
    × (stored_lt (worker_turn (new_consumer config queue scan_binding) ctx world).1.db ≡ ok m)
run-NotBelow_example =
    run-NotBelow config outside 40 queue world _ (λ addr lt hash t. page_fits lt) (omega arith)
      stored_at_first
      (Runs.goes_on world _ Runs.starts (Step.works scan_binding scan_is_bound ctx world))

-- a queue whose triggers can be read
abbrev readable : Queue
readable = record queue {
  unmarshal = λ s. some (record { job_id = s; cycle = "scan_master"; enqueued_at = 7 });
}

abbrev trigger : Message
trigger = record { id = "5-1"; data_field = text "job-7" }

process-Answers_example :
    (new : List Write) × (taken : Bool) × ((Process.process
        (new_consumer config readable scan_binding)
        ctx
        trigger
        world).log
      ≡ (xack "mtpa:cycle:scan_master" "mtpa" "5-1" taken ∷ new) ++ world.log)
    × All
        (IsAnswer config "scan_master" "job-7" "5-1")
        (xack "mtpa:cycle:scan_master" "mtpa" "5-1" taken ∷ new)
unfolding stream_key Process.decode_job_id new_consumer
process-Answers_example =
    process-Answers config outside readable scan_binding ctx trigger world scan_is_bound

abbrev one_turn :
    Runs config outside readable world
      (worker_turn (new_consumer config readable scan_binding) ctx world).1
one_turn = Runs.goes_on world _ Runs.starts (Step.works scan_binding scan_is_bound ctx world)

run-acked_example :
    acked (worker_turn (new_consumer config readable scan_binding) ctx world).1.log
    ≡ acked world.log ++ ("mtpa:cycle:scan_master", "1-0") ∷ []
unfolding stream_key
run-acked_example = run-acked config outside readable world _ one_turn
