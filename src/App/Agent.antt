-- ===== src/App/Agent.antt =====
-- The agent as a whole: its consumers over one world, a turn at a time.
use mathlib.Core.List.{Memᴰ}
use mytonprovider_agent.Common.{All-Mem, ℕ, String, List, All}
use mytonprovider_agent.Jobs.{Ctx}
use mytonprovider_agent.World.{World}
use mytonprovider_agent.World.Actions.KeepsStore.{Rule, OfLog, AllowsXadd, AllowsXack, KeepsStore}
use mytonprovider_agent.Checkpoints.{IsCheckpointed}
use mytonprovider_agent.Publisher.Keeps.{AllowsXadd-AllowsResult}
use mytonprovider_agent.Checkpoints.Publishing.{xadd-IsCheckpointed}
use mytonprovider_agent.Config.{Config}
use mytonprovider_agent.Consumer.Worker.{worker_turn}
use mytonprovider_agent.Consumer.Worker.Safety.{worker_turn_keeps}
use mytonprovider_agent.Consumer.Reaper.{claim_page}
use mytonprovider_agent.Consumer.Reaper.Safety.{claim_page_keeps}
use mytonprovider_agent.Discovery.NewProviders.Checkpoint.{collect_new_providers-IsCheckpointed}
use mytonprovider_agent.Discovery.StorageContracts.Checkpoint.{
  collect_storage_contracts-IsCheckpointed,
}
use mytonprovider_agent.Discovery.Endpoints.Checkpoint.{resolve_endpoints_cycle-KeepsStore}
use mytonprovider_agent.Poll.Rates.Checkpoint.{update_provider_rates-KeepsStore}
use mytonprovider_agent.Poll.Rejected.Checkpoint.{update_rejected_contracts-KeepsStore}
use mytonprovider_agent.Proof.Cycle.Checkpoint.{check_storage_proofs-KeepsStore}
use mytonprovider_agent.Update.Items.{update_ip_info-KeepsStore}
use mytonprovider_agent.Discovery
use mytonprovider_agent.Discovery.NewProviders.{collect_new_providers}
use mytonprovider_agent.Discovery.StorageContracts.{collect_storage_contracts}
use mytonprovider_agent.Poll
use mytonprovider_agent.Proof
use mytonprovider_agent.Update
use mytonprovider_agent.App.{
  Outside, Binding, bindings_of, bindings, new_discovery, new_poll, new_proof, new_update,
}
use mytonprovider_agent.App.Start.{Queue, new_consumer}

-- One turn of a worker of a cycle's consumer, one page of its reaper, or time that passes. Turns
-- do not overlap.
pub data Step (cfg : Config) (out : Outside) (q : Queue) : World → World → Type 0 where
  works :
      (b : Binding) (member : Memᴰ b (bindings cfg out)) (ctx : Ctx) (w : World)
      → Step cfg out q w (worker_turn (new_consumer cfg q b) ctx w).1
  reaps :
      (b : Binding) (member : Memᴰ b (bindings cfg out)) (ctx : Ctx) (cursor : String) (w : World)
      → Step cfg out q w (claim_page (new_consumer cfg q b) ctx cursor w).1
  passes : (w : World) (t : ℕ) → Step cfg out q w (record w { tick = t })

pub data Runs (cfg : Config) (out : Outside) (q : Queue) (start : World) : World → Type 0 where
  starts : Runs cfg out q start start
  goes_on : (v w : World) → Runs cfg out q start v → Step cfg out q v w → Runs cfg out q start w

abbrev pub KeepsRule : Rule → Binding → Type 0
KeepsRule Q b = (ctx : Ctx) → KeepsStore Q (b.handler ctx)

-- What every handler of the table keeps, each run of the agent keeps.
module _ (Q : Rule) (allowed : AllowsXack Q) where
  pub consumer_keeps :
      (cfg : Config) (q : Queue) (bs : List Binding) (b : Binding)
      → All (KeepsRule Q) bs
      → Memᴰ b bs
      → (ctx : Ctx) → KeepsStore Q ((new_consumer cfg q b).handler ctx)
  unfolding new_consumer
  consumer_keeps cfg q bs b keeps m = All-Mem (KeepsRule Q) b bs keeps m

  module _ (cfg : Config) (out : Outside) (q : Queue)
      (keeps : All (KeepsRule Q) (bindings cfg out)) where
    Step_keeps : (v w : World) → Step cfg out q v w → Q v.db v.log → Q w.db w.log
    Step_keeps v _ (Step.works b m ctx _) h =
        worker_turn_keeps Q allowed (new_consumer cfg q b)
          (consumer_keeps cfg q (bindings cfg out) b keeps m) ctx v h
    Step_keeps v _ (Step.reaps b m ctx cursor _) h =
        claim_page_keeps Q allowed (new_consumer cfg q b)
          (consumer_keeps cfg q (bindings cfg out) b keeps m) ctx cursor v h
    Step_keeps v _ (Step.passes _ t) h = h

    pub run_keeps : (start w : World) → Runs cfg out q start w → Q start.db start.log → Q w.db w.log
    run_keeps start _ Runs.starts h = h
    run_keeps start _ (Runs.goes_on v w r s) h = Step_keeps v w s (run_keeps start v r h)

pub xack-IsCheckpointed : AllowsXack (OfLog IsCheckpointed)
xack-IsCheckpointed db log stream group id taken h = h

-- What messages to streams do not break, all handlers keep, if the two that store LTs do.
pub bindings_of_keep :
    (Q : Rule)
    → AllowsXadd Q
    → (cfg : Config) (d : Discovery.Discovery) (p : Poll.Poll) (pr : Proof.Proof)
      (u : Update.Update)
    → ((ctx : Ctx) → KeepsStore Q (collect_new_providers d ctx))
    → ((ctx : Ctx) → KeepsStore Q (collect_storage_contracts d ctx))
    → All (KeepsRule Q) (bindings_of cfg d p pr u)
unfolding bindings_of
bindings_of_keep Q allowed cfg d p pr u providers contracts =
    let x = AllowsXadd-AllowsResult Q allowed in
    (
      providers,
      (
        contracts,
        (
          (λ ctx. resolve_endpoints_cycle-KeepsStore Q d ctx (x _ _ _ _)),
          (
            (λ ctx. update_provider_rates-KeepsStore Q p ctx (x _ _ _ _)),
            (
              (λ ctx. update_rejected_contracts-KeepsStore Q p ctx (x _ _ _ _)),
              (
                (λ ctx. check_storage_proofs-KeepsStore Q pr ctx (x _ _ _ _)),
                ((λ ctx. update_ip_info-KeepsStore Q u ctx (x _ _ _ _)), tt),
              ),
            ),
          ),
        ),
      ),
    )

pub checkpoints_keep :
    (cfg : Config) (d : Discovery.Discovery) (p : Poll.Poll) (pr : Proof.Proof) (u : Update.Update)
    → All (KeepsRule (OfLog IsCheckpointed)) (bindings_of cfg d p pr u)
checkpoints_keep cfg d p pr u =
    bindings_of_keep (OfLog IsCheckpointed) xadd-IsCheckpointed cfg d p pr u
      (λ ctx. record { at = collect_new_providers-IsCheckpointed d ctx })
      (λ ctx. record { at = collect_storage_contracts-IsCheckpointed d ctx })

bindings_keep :
    (cfg : Config) (out : Outside) → All (KeepsRule (OfLog IsCheckpointed)) (bindings cfg out)
unfolding bindings
bindings_keep cfg out =
    checkpoints_keep cfg (new_discovery cfg out) (new_poll cfg out) (new_proof cfg out)
      (new_update cfg out)

-- In every run of the agent that `New` builds, in which the turns of its workers and reapers do
-- not overlap, each stored logical time follows the accepted message with its findings.
pub run-IsCheckpointed :
    (cfg : Config) (out : Outside) (q : Queue) (start w : World)
    → Runs cfg out q start w
    → IsCheckpointed start.log
    → IsCheckpointed w.log
run-IsCheckpointed cfg out q start w r h =
    run_keeps (OfLog IsCheckpointed) xack-IsCheckpointed cfg out q (bindings_keep cfg out) start w r
      h
