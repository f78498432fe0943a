-- ===== src/App/Answers.antt =====
-- What the agent writes to Redis while it processes one trigger.
use mathlib.Core.List.{Memᴰ}
use mytonprovider_agent.Ports.{last_lt_key, lt_updates}
use mytonprovider_agent.Strings.Decimal.{format_uint}
use mytonprovider_agent.Common.{
  ℕ, ◌≡◌, refl, ap, ◌∙◌, Bool, String, List, [], ◌∷◌, ◌++◌, All, All-map, All-Mem,
}
use mytonprovider_agent.Domain.{Provider}
use mytonprovider_agent.Jobs.{
  Ctx, job_id_from, cycle_scan_master, cycle_scan_wallets, cycle_resolve_endpoints,
  cycle_probe_rates, cycle_inspect_contracts, cycle_check_proofs, cycle_lookup_ipinfo,
}
use mytonprovider_agent.World.{World, Write, xadd, xack, set_param, set_last_tx_lt}
use mytonprovider_agent.World.Actions.KeepsStore.{Rule, KeepsStore}
use mytonprovider_agent.Publisher.Keeps.{IsResult, AllowsResult}
use mytonprovider_agent.Config.{Config}
use mytonprovider_agent.Postgres.{Server}
use mytonprovider_agent.Postgres.System.{set_master_wallet_lt, set_master_wallet_lt-writes}
use mytonprovider_agent.Postgres.Providers.{update_lt, update_lt-writes}
use mytonprovider_agent.Consumer.{Message}
use mytonprovider_agent.Consumer.Process.Acks.{process-acks}
use mytonprovider_agent.Consumer.Process.{enter, handler_ctx, decode_job_id, process}
use mytonprovider_agent.Discovery.NewProviders.Checkpoint.{collect_new_providers-KeepsStore}
use mytonprovider_agent.Discovery.StorageContracts.Checkpoint.{collect_storage_contracts-KeepsStore}
use mytonprovider_agent.Discovery.Endpoints.Checkpoint.{resolve_endpoints_cycle-KeepsStore}
use mytonprovider_agent.Poll.Rates.Checkpoint.{update_provider_rates-KeepsStore}
use mytonprovider_agent.Poll.Rejected.Checkpoint.{update_rejected_contracts-KeepsStore}
use mytonprovider_agent.Proof.Cycle.Checkpoint.{check_storage_proofs-KeepsStore}
use mytonprovider_agent.Update.Items.{update_ip_info-KeepsStore}
use mytonprovider_agent.App.{
  Outside, Binding, stream_key, bindings, new_discovery, new_poll, new_proof, new_update,
}
use mytonprovider_agent.App.Start.{Queue, new_consumer}

-- A message is a result of this cycle for this job, from this agent, on the cycle's stream of
-- results; nothing is acknowledged.
abbrev pub IsFinding : Config → String → String → Write → Type 0
IsFinding cfg cycle job (xadd s m max_len taken) =
    IsResult cfg.system.agent_id (stream_key cfg "result" cycle) job cycle s m
IsFinding cfg cycle job (xack s group acked taken) = ⊥
IsFinding cfg cycle job _ = Unit {0}

-- Such a write, or an acknowledgement of this message on the cycle's stream of triggers.
abbrev pub IsAnswer : Config → String → String → String → Write → Type 0
IsAnswer cfg cycle job id (xack s group acked taken) =
    (s ≡ stream_key cfg "cycle" cycle) × (group ≡ cfg.redis.group) × (acked ≡ id)
IsAnswer cfg cycle job id x = IsFinding cfg cycle job x

IsFinding-IsAnswer :
    (cfg : Config) (cycle job id : String) (x : Write)
    → IsFinding cfg cycle job x
    → IsAnswer cfg cycle job id x
IsFinding-IsAnswer cfg cycle job id (xack s group acked taken) h = elim h [ ]
IsFinding-IsAnswer cfg cycle job id (xadd s m max_len taken) h = h
IsFinding-IsAnswer cfg cycle job id (set_param key value taken) h = h
IsFinding-IsAnswer cfg cycle job id (set_last_tx_lt us taken) h = h

-- All that was written since is such a write.
abbrev pub Answers : Config → String → String → List Write → Rule
Answers cfg cycle job base db log =
    (new : List Write) × (log ≡ new ++ base) × All (IsFinding cfg cycle job) new

module _ (cfg : Config) (cycle job : String) (base : List Write) where
  abbrev Q : Rule
  Q = Answers cfg cycle job base

  result-Answers : AllowsResult Q cfg.system.agent_id (stream_key cfg "result" cycle) job cycle
  result-Answers db log s m max_len taken r (new, e, h) =
      (xadd s m max_len taken ∷ new, ap (λ l. xadd s m max_len taken ∷ l) e, (r, h))

  set-Answers : (s : Server) (lt : ℕ) → KeepsStore Q (set_master_wallet_lt s lt)
  set-Answers s lt = record {
    at = λ w q.
        let (taken, e) = set_master_wallet_lt-writes s lt w in
        let x : Write = set_param last_lt_key (format_uint lt) taken in
        rw e (x ∷ q.0, ap (λ l. x ∷ l) q.1, (tt, q.2));
  }

  update-Answers : (s : Server) (us : List Provider) → KeepsStore Q (update_lt s us)
  unfolding update_lt
  update-Answers s [] = record { at = λ w q. q }
  update-Answers s (u ∷ us) = record {
    at = λ w q.
        let (taken, e) = update_lt-writes s u us w in
        let x : Write = set_last_tx_lt (lt_updates (u ∷ us)) taken in
        rw e (x ∷ q.0, ap (λ l. x ∷ l) q.1, (tt, q.2));
  }

-- Under a trigger's context, the handler of a binding writes answers.
abbrev pub Handles : Config → Binding → Type 0
Handles cfg b =
    (ctx : Ctx) (base : List Write)
    → KeepsStore (Answers cfg b.cycle_type (job_id_from ctx) base) (b.handler ctx)

module _ (cfg : Config) (out : Outside) where
  abbrev R : String → Ctx → List Write → Rule
  R cycle ctx base = Answers cfg cycle (job_id_from ctx) base

  abbrev sends :
      (cycle : String) (ctx : Ctx) (base : List Write)
      → AllowsResult
          (R cycle ctx base)
          cfg.system.agent_id
          (stream_key cfg "result" cycle)
          (job_id_from ctx)
          cycle
  sends cycle ctx base = result-Answers cfg cycle (job_id_from ctx) base

  pub bindings-Handles : All (Handles cfg) (bindings cfg out)
  unfolding bindings new_discovery new_poll new_proof new_update
  bindings-Handles = (
    (λ ctx base.
        let c = cycle_scan_master in
        collect_new_providers-KeepsStore (R c ctx base) (new_discovery cfg out) ctx
          (sends c ctx base) (set-Answers cfg c (job_id_from ctx) base out.server)),
    (
      (λ ctx base.
          let c = cycle_scan_wallets in
          collect_storage_contracts-KeepsStore (R c ctx base) (new_discovery cfg out) ctx
            (sends c ctx base) (update-Answers cfg c (job_id_from ctx) base out.server)),
      (
        (λ ctx base.
            let c = cycle_resolve_endpoints in
            resolve_endpoints_cycle-KeepsStore (R c ctx base) (new_discovery cfg out) ctx
              (sends c ctx base)),
        (
          (λ ctx base.
              let c = cycle_probe_rates in
              update_provider_rates-KeepsStore (R c ctx base) (new_poll cfg out) ctx
                (sends c ctx base)),
          (
            (λ ctx base.
                let c = cycle_inspect_contracts in
                update_rejected_contracts-KeepsStore (R c ctx base) (new_poll cfg out) ctx
                  (sends c ctx base)),
            (
              (λ ctx base.
                  let c = cycle_check_proofs in
                  check_storage_proofs-KeepsStore (R c ctx base) (new_proof cfg out) ctx
                    (sends c ctx base)),
              (
                (λ ctx base.
                    let c = cycle_lookup_ipinfo in
                    update_ip_info-KeepsStore (R c ctx base) (new_update cfg out) ctx
                      (sends c ctx base)),
                tt,
              ),
            ),
          ),
        ),
      ),
    ),
  )

  -- Whatever the environment answers and however the handler ends, all that the agent writes to
  -- Redis while it processes a trigger of one of its cycles answers that trigger: a message to a
  -- stream bears the agent's id, the trigger's job id (the empty id, if the trigger is not
  -- readable) and the cycle's name, and goes to the cycle's stream of results; an
  -- acknowledgement is of this trigger, on the cycle's stream of triggers; and the last write is
  -- that acknowledgement.
  pub process-Answers :
      (q : Queue) (b : Binding) (ctx : Ctx) (msg : Message) (w : World)
      → Memᴰ b (bindings cfg out)
      → (new : List Write) × (taken : Bool) × ((process (new_consumer cfg q b) ctx msg w).log
          ≡ (xack (stream_key cfg "cycle" b.cycle_type) cfg.redis.group msg.id taken ∷ new)
            ++ w.log)
        × All
            (IsAnswer cfg b.cycle_type (decode_job_id (new_consumer cfg q b) msg) msg.id)
            (xack (stream_key cfg "cycle" b.cycle_type) cfg.redis.group msg.id taken ∷ new)
  unfolding enter handler_ctx new_consumer
  process-Answers q b ctx msg w member =
      let c = new_consumer cfg q b in
      let (new, e, h) =
        (All-Mem (Handles cfg) b (bindings cfg out) bindings-Handles member
            (handler_ctx c ctx msg w) w.log).at
          (enter w) ([], refl, tt) in
      let (taken, last) = process-acks c ctx msg w in
      let x : Write = xack (stream_key cfg "cycle" b.cycle_type) cfg.redis.group msg.id taken in
      (
        new,
        taken,
        last ∙ ap (λ l. x ∷ l) e,
        (
          (refl, refl, refl),
          All-map (IsFinding cfg b.cycle_type (decode_job_id c msg))
              (IsAnswer cfg b.cycle_type (decode_job_id c msg) msg.id)
              (IsFinding-IsAnswer cfg b.cycle_type (decode_job_id c msg) msg.id) new h,
        ),
      )
