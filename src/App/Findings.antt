-- ===== src/App/Findings.antt =====
-- What the agent's scan of the master wallet publishes.
use mytonprovider_agent.Common.{
  All-select, ℕ, List, [], ◌∷◌, All, ltb, Bool-cases, inl, inr, String, Text,
}
use mytonprovider_agent.Domain.{Provider}
use mytonprovider_agent.Jobs.{Ctx, Payload, scan_master, job_id_from, cycle_scan_master}
use mytonprovider_agent.World.{
  World, Write, xadd, xack, set_param, set_last_tx_lt, pure, attempt, ◌>>=◌,
}
use mytonprovider_agent.World.Actions.KeepsStore.{
  OfLog, IsReadOnly-KeepsStore, KeepsStore, bind-KeepsStore, read-bind-KeepsStore,
  ensure-bind-KeepsStore,
}
use mytonprovider_agent.Publisher.{Publisher, publish_result}
use mytonprovider_agent.Publisher.Laws.{publish_result_lem}
use mytonprovider_agent.Discovery.{Discovery}
use mytonprovider_agent.Discovery.NewProviders.{
  is_new, known_set, select_new, advance_master_lt, collect_new_providers,
}
use mytonprovider_agent.Ton.Master.{scan_master_wallet}
use mytonprovider_agent.Ton.Registered.{IsRegistered, IsScan, scan_master_wallet-IsScan}
use mytonprovider_agent.Config.{Config}
use mytonprovider_agent.App.{Outside, new_discovery}

-- what a message may say of new providers
abbrev pub IsSound : Payload → Type 0
IsSound (scan_master r) = All IsRegistered r.new_providers
IsSound _ = Unit {0}

-- every message of the log, taken or not
abbrev pub AreSound : List Write → Type 0
AreSound [] = Unit {0}
AreSound (xadd stream m max_len taken ∷ log) = IsSound m.payload × AreSound log
AreSound (xack stream group id taken ∷ log) = AreSound log
AreSound (set_param key value taken ∷ log) = AreSound log
AreSound (set_last_tx_lt updates taken ∷ log) = AreSound log

publish-AreSound :
    (p : Publisher) (stream id cycle : String) (payload : Payload)
    → IsSound payload
    → KeepsStore (OfLog AreSound) (publish_result p stream id cycle payload)
publish-AreSound p stream id cycle payload s = record {
  at = λ w h. rw (publish_result_lem p stream id cycle payload w) (s, h);
}

advance-AreSound :
    (d : Discovery) (from_lt last_lt : ℕ)
    → KeepsStore (OfLog AreSound) (advance_master_lt d from_lt last_lt)
unfolding advance_master_lt attempt ◌>>=◌ pure
advance-AreSound d from_lt last_lt = record {
  at = λ w h. elim (Bool-cases (ltb from_lt last_lt)) [
    | inl more ↦ rw more (rw (d.system_repo.set_writes last_lt w).1 h)
    | inr same ↦ rw same h
  ];
}

select_new-IsRegistered :
    (known : List Text) (ps : List Provider)
    → All IsRegistered ps
    → All IsRegistered (select_new known ps)
unfolding select_new
select_new-IsRegistered known ps h = All-select IsRegistered (is_new (known_set known)) ps h

-- In the agent that `New` builds, CollectNewProviders publishes only providers with a lower-case
-- key of 32 bytes in hexadecimal and a user-friendly address.
pub collect_new_providers-AreSound :
    (cfg : Config) (out : Outside) (ctx : Ctx) (w : World)
    → AreSound w.log
    → AreSound (collect_new_providers (new_discovery cfg out) ctx w).1.log
unfolding collect_new_providers new_discovery
collect_new_providers-AreSound cfg out ctx w h =
    let d = new_discovery cfg out in
    (read-bind-KeepsStore (OfLog AreSound) d.system_repo.get_master_wallet_lt _
        d.system_repo.get_reads
        λ from_lt.
          read-bind-KeepsStore (OfLog AreSound) d.provider_repo.get_all_pubkeys _
            d.provider_repo.pubkeys_reads
            λ known.
              ensure-bind-KeepsStore (OfLog AreSound) (IsScan from_lt)
                (scan_master_wallet out.ton cfg.ton.master_address from_lt) _
                (IsReadOnly-KeepsStore (OfLog AreSound)
                  (scan_master_wallet out.ton cfg.ton.master_address from_lt)
                  (d.master_scanner.scan_reads cfg.ton.master_address from_lt))
                (scan_master_wallet-IsScan out.ton cfg.ton.master_address from_lt)
                λ found s.
                  bind-KeepsStore (OfLog AreSound)
                    (publish_result d.publisher d.cfg.scan_master_stream (job_id_from ctx)
                      cycle_scan_master _)
                    _
                    (publish-AreSound d.publisher d.cfg.scan_master_stream (job_id_from ctx)
                      cycle_scan_master _ (select_new-IsRegistered known found.0 s.0))
                    (λ u. advance-AreSound d from_lt found.1)).at
      w h
