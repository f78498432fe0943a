-- ===== src/Poll/Rates/Checkpoint.antt =====
-- `UpdateProviderRates` and what it keeps of the database and the log.
use mytonprovider_agent.Common.{List, [], ◌∷◌, Text}
use mytonprovider_agent.Jobs.{job_id_from, cycle_probe_rates, Ctx}
use mytonprovider_agent.World.{World}
use mytonprovider_agent.World.Actions.KeepsStore.{
  Rule, KeepsStore, bind-KeepsStore, read-bind-KeepsStore, wrapping-KeepsStore,
  unless_done-KeepsStore,
}
use mytonprovider_agent.Workers.Worlds.{fan_out_keeps}
use mytonprovider_agent.Publisher.Keeps.{AllowsResult, publish-KeepsStore}
use mytonprovider_agent.Poll.{Poll}
use mytonprovider_agent.Poll.Rates.{
  raw_key, probe_one, probes, publish_rates, rates_result, probe_all, update_rates,
  update_provider_rates,
}

module _ (Q : Rule) (p : Poll) (ctx : Ctx)
    (allowed : AllowsResult Q p.publisher.agent_id p.cfg.probe_rates_stream
      (job_id_from ctx)
      cycle_probe_rates) where
  probe_one_keeps :
      (pubkey : Text) (w : World)
      → Q w.db w.log
      → Q (probe_one p pubkey w).1.db (probe_one p pubkey w).1.log
  unfolding probe_one
  probe_one_keeps pubkey w h =
      rw
        (
          (p.probe.probe_reads (raw_key pubkey)).same_db w,
          (p.probe.probe_reads (raw_key pubkey)).same_log w,
        )
        h

  probe_all-KeepsStore : (pubkeys : List Text) → KeepsStore Q (probe_all p ctx pubkeys)
  unfolding probe_all probes
  probe_all-KeepsStore pubkeys = record {
    at = fan_out_keeps (probes p ctx) (λ w. Q w.db w.log) (λ w t h. h) probe_one_keeps pubkeys;
  }

  update_rates-KeepsStore : (pubkeys : List Text) → KeepsStore Q (update_rates p ctx pubkeys)
  unfolding update_rates publish_rates
  update_rates-KeepsStore [] = publish-KeepsStore Q _ _ _ _ _ allowed
  update_rates-KeepsStore (k ∷ ks) =
      bind-KeepsStore Q (probe_all p ctx (k ∷ ks)) _ (probe_all-KeepsStore (k ∷ ks)) (λ out.
        unless_done-KeepsStore Q ctx _ (
          wrapping-KeepsStore Q "usecase.poll.UpdateProviderRates"
            (publish_rates p ctx (rates_result out)) (publish-KeepsStore Q _ _ _ _ _ allowed)))

  -- `UpdateProviderRates` keeps what messages do not break.
  pub update_provider_rates-KeepsStore : KeepsStore Q (update_provider_rates p ctx)
  unfolding update_provider_rates
  update_provider_rates-KeepsStore =
      read-bind-KeepsStore Q p.provider_repo.get_all_pubkeys _ p.provider_repo.pubkeys_reads
        (update_rates-KeepsStore)
