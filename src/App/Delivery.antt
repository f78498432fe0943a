-- ===== src/App/Delivery.antt =====
-- Over a run of the agent, what it acknowledges and what it has got.
use mathlib.Core.List.{Memᴰ, append_assoc, append-nil}
use mytonprovider_agent.Common.{
  ◌+◌, ◌≡◌, refl, sym, ap, ◌∙◌, String, List, [], ◌∷◌, ◌++◌, All, All-Mem, if◌then◌else◌,
}
use mytonprovider_agent.World.{World, Write, xadd, xack, set_param, set_last_tx_lt, is_done}
use mytonprovider_agent.Config.{Config}
use mytonprovider_agent.Consumer.Delivery.{acked, on_stream, messages, IsQuiet}
use mytonprovider_agent.Consumer.Worker.Delivery.{worker_turn-acked}
use mytonprovider_agent.Consumer.Reaper.Delivery.{claim_page-acked}
use mytonprovider_agent.App.{Outside, stream_key, bindings, Binding}
use mytonprovider_agent.App.Start.{Queue, new_consumer}
use mytonprovider_agent.App.Agent.{Step, Runs}
use mytonprovider_agent.App.Answers.{IsFinding, Handles, bindings-Handles}

-- The messages, with their stream, that a step of the agent gets from Redis: what a worker reads,
-- unless its context is done, and what a reaper claims.
abbrev pub got_by :
    (cfg : Config) (out : Outside) (q : Queue) (v w : World)
    → Step cfg out q v w
    → List (String × String)
got_by cfg out q v _ (Step.works b m ctx _) =
    let stream = stream_key cfg "cycle" b.cycle_type in
    if is_done ctx v.tick
    then []
    else on_stream stream (messages (q.read_group stream (v.tick + 1)))
got_by cfg out q v _ (Step.reaps b m ctx cursor _) =
    let stream = stream_key cfg "cycle" b.cycle_type in
    on_stream stream (q.auto_claim stream cursor v.tick).jobs
got_by cfg out q v _ (Step.passes _ t) = []

abbrev pub got :
    (cfg : Config) (out : Outside) (q : Queue) (start w : World)
    → Runs cfg out q start w
    → List (String × String)
got cfg out q start _ Runs.starts = []
got cfg out q start _ (Runs.goes_on v w r s) = got cfg out q start v r ++ got_by cfg out q v w s

-- Findings are no acknowledgements.
findings-acked :
    (cfg : Config) (cycle job : String) (new base : List Write)
    → All (IsFinding cfg cycle job) new
    → acked (new ++ base) ≡ acked base
unfolding acked
findings-acked cfg cycle job [] base h = refl
findings-acked cfg cycle job (xadd s m max_len taken ∷ new) base h =
    findings-acked cfg cycle job new base h.1
findings-acked cfg cycle job (xack s group id taken ∷ new) base h = elim h.0 [ ]
findings-acked cfg cycle job (set_param key value taken ∷ new) base h =
    findings-acked cfg cycle job new base h.1
findings-acked cfg cycle job (set_last_tx_lt us taken ∷ new) base h =
    findings-acked cfg cycle job new base h.1

module _ (cfg : Config) (out : Outside) (q : Queue) where
  consumer-IsQuiet : (b : Binding) → Memᴰ b (bindings cfg out) → IsQuiet (new_consumer cfg q b)
  unfolding new_consumer
  consumer-IsQuiet b m ctx w =
      let (new, e, h) =
        (All-Mem (Handles cfg) b (bindings cfg out) (bindings-Handles cfg out) m ctx w.log).at w
          ([], refl, tt) in
      ap acked e ∙ findings-acked cfg b.cycle_type ctx.job_id new w.log h

  Step-acked :
      (v w : World) (s : Step cfg out q v w) → acked w.log ≡ acked v.log ++ got_by cfg out q v w s
  unfolding new_consumer
  Step-acked v _ (Step.works b m ctx _) =
      worker_turn-acked (new_consumer cfg q b) (consumer-IsQuiet b m) ctx v
  Step-acked v _ (Step.reaps b m ctx cursor _) =
      claim_page-acked (new_consumer cfg q b) (consumer-IsQuiet b m) ctx cursor v
  Step-acked v _ (Step.passes _ t) = sym (append-nil (acked v.log))

  -- In every run of the agent that `New` builds, in which the turns of its workers and reapers do
  -- not overlap, the messages that it acknowledges are exactly those that its workers have read and
  -- its reapers have claimed, each on its own stream, once for each time that it was got, and in
  -- that order.
  pub run-acked :
      (start w : World) (r : Runs cfg out q start w)
      → acked w.log ≡ acked start.log ++ got cfg out q start w r
  run-acked start _ Runs.starts = sym (append-nil (acked start.log))
  run-acked start _ (Runs.goes_on v w r s) =
      Step-acked v w s
      ∙ ap (λ l. l ++ got_by cfg out q v w s) (run-acked start v r)
      ∙ append_assoc (acked start.log) (got cfg out q start v r) (got_by cfg out q v w s)
