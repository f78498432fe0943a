-- ===== src/App/Overlap.antt =====
-- Turns that overlap: the workers and reapers of one agent or of several run at the same time
-- (`Pool` of internal/config, `Run` of consumer.go), and their writes interleave. A turn sees what
-- the others do to the database through the answers of its ports, which are arbitrary here.
pub mod Announcing
use mathlib.Core.List.{Memᴰ}
use mytonprovider_agent.Common.{ℕ, ◌≡◌, ◌⊎◌, String, true, some, List, [], ◌∷◌, drop}
use mytonprovider_agent.Jobs.{Ctx, Payload}
use mytonprovider_agent.World.{World, Write, xadd, set_param, set_last_tx_lt}
use mytonprovider_agent.Checkpoints.{master_lt, wallet_lts}
use mytonprovider_agent.Config.{Config}
use mytonprovider_agent.Consumer.Worker.{worker_turn}
use mytonprovider_agent.Consumer.Reaper.{claim_page}
use mytonprovider_agent.Discovery
use mytonprovider_agent.Poll
use mytonprovider_agent.Proof
use mytonprovider_agent.Update
use mytonprovider_agent.App.{Binding, bindings_of}
use mytonprovider_agent.App.Start.{Queue, new_consumer}

-- The writes of one turn, newest first: of a worker or of a page of a reaper, in an agent with any
-- configuration, whatever its ports answer.
pub data Turn : List Write → Type 0 where
  works :
      (cfg : Config) (q : Queue) (d : Discovery.Discovery) (p : Poll.Poll) (pr : Proof.Proof)
      (u : Update.Update) (b : Binding) (member : Memᴰ b (bindings_of cfg d p pr u)) (ctx : Ctx)
      (w : World) (fresh : w.log ≡ [])
      → Turn (worker_turn (new_consumer cfg q b) ctx w).1.log
  reaps :
      (cfg : Config) (q : Queue) (d : Discovery.Discovery) (p : Poll.Poll) (pr : Proof.Proof)
      (u : Update.Update) (b : Binding) (member : Memᴰ b (bindings_of cfg d p pr u)) (ctx : Ctx)
      (cursor : String) (w : World) (fresh : w.log ≡ [])
      → Turn (claim_page (new_consumer cfg q b) ctx cursor w).1.log

-- The third log holds the writes of the first two, each in its own order.
pub data Interleaves : List Write → List Write → List Write → Type 0 where
  none_left : Interleaves [] [] []
  from_left : (x : Write) {l m n : List Write} → Interleaves l m n → Interleaves (x ∷ l) m (x ∷ n)
  from_right : (x : Write) {l m n : List Write} → Interleaves l m n → Interleaves l (x ∷ m) (x ∷ n)

-- The log of any number of turns that overlap. The newest `unmade` writes of a turn have not been
-- made: it still runs, or its process has died.
pub data Overlapped : List Write → Type 0 where
  no_turn : Overlapped []
  joins :
      (unmade : ℕ) {l m n : List Write}
      → Turn l
      → Overlapped m
      → Interleaves (drop unmade l) m n
      → Overlapped n

-- Somewhere in the log is a message that Redis took, with a payload of which `P` holds.
abbrev pub Announced : (Payload → Type 0) → List Write → Type 0
Announced P [] = ⊥
Announced P (xadd stream m max_len true ∷ log) = P m.payload ⊎ Announced P log
Announced P (_ ∷ log) = Announced P log

-- What is stored was announced before.
abbrev pub IsAnnounced : List Write → Type 0
IsAnnounced [] = Unit {0}
IsAnnounced (set_param key value taken ∷ log) =
    Announced (λ p. master_lt p ≡ some value) log × IsAnnounced log
IsAnnounced (set_last_tx_lt updates taken ∷ log) =
    Announced (λ p. wallet_lts p ≡ some updates) log × IsAnnounced log
IsAnnounced (_ ∷ log) = IsAnnounced log
