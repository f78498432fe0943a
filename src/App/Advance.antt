-- ===== src/App/Advance.antt =====
-- The LT of the master wallet that is stored never falls, in any run of the agent.
use mytonprovider_agent.Common.{
  ℕ, ◌^◌, ◌≤◌, ◌<◌, ◌≡◌, refl, sym, ◌∙◌, ltb, List, [], ◌∷◌, Text, inl, inr, Bool-cases, arith, All,
}
use mytonprovider_agent.Domain.{Provider}
use mytonprovider_agent.Jobs.{Ctx}
use mytonprovider_agent.World.{World, ok, pure, attempt, ◌>>=◌}
use mytonprovider_agent.World.Actions.Ensures.{Ensures, ok-injective}
use mytonprovider_agent.World.Actions.KeepsStore.{
  Rule, AllowsXadd, AllowsXack, KeepsStore, IsReadOnly-KeepsStore, bind-KeepsStore,
  read-bind-KeepsStore, ensure-bind-KeepsStore, learn-bind-KeepsStore,
}
use mytonprovider_agent.Publisher.Keeps.{AllowsXadd-AllowsResult, publish-KeepsStore}
use mytonprovider_agent.Postgres.{Server}
use mytonprovider_agent.Postgres.System.{system_repo, get_master_wallet_lt}
use mytonprovider_agent.Postgres.System.Stored.{
  stored_lt, stored_lt-set_master_wallet_lt, get_master_wallet_lt-stored_lt,
}
use mytonprovider_agent.Ton.Ranges.{ApiFits, scan_master_wallet_fits}
use mytonprovider_agent.Discovery.{Discovery}
use mytonprovider_agent.Postgres.Providers.{update_lt}
use mytonprovider_agent.Config.{Config}
use mytonprovider_agent.Discovery.StorageContracts.Checkpoint.{collect_storage_contracts-KeepsStore}
use mytonprovider_agent.App.{Outside, bindings, new_discovery, new_poll, new_proof, new_update}
use mytonprovider_agent.App.Start.{Queue}
use mytonprovider_agent.App.Agent.{KeepsRule, Runs, run_keeps, bindings_of_keep}
use mytonprovider_agent.Discovery.NewProviders.{advance_master_lt, collect_new_providers}

-- The LT that is stored is readable, and is at least `n`.
abbrev pub NotBelow : ℕ → Rule
NotBelow n db log = (m : ℕ) × (n ≤ m) × (m < 2 ^ 64) × (stored_lt db ≡ ok m)

xadd-NotBelow : (n : ℕ) → AllowsXadd (NotBelow n)
xadd-NotBelow n db log stream m max_len taken h = h

xack-NotBelow : (n : ℕ) → AllowsXack (NotBelow n)
xack-NotBelow n db log stream group id taken h = h

-- What the scanner returns for a uint64 is one.
abbrev ScansFit : Discovery → Type 0
ScansFit d =
    (addr : Text) (from_lt : ℕ)
    → from_lt < 2 ^ 64
    → Ensures (λ found. found.1 < 2 ^ 64) (d.master_scanner.scan addr from_lt)

abbrev Between : ℕ → ℕ → Type 0
Between n a = (n ≤ a) × (a < 2 ^ 64)

module _ (s : Server) (d0 : Discovery) (n : ℕ) where
  abbrev d : Discovery
  d = record d0 { system_repo = system_repo s }

  advance-NotBelow :
      (from_lt last_lt : ℕ)
      → Between n from_lt
      → last_lt < 2 ^ 64
      → KeepsStore (NotBelow n) (advance_master_lt d from_lt last_lt)
  unfolding advance_master_lt attempt ◌>>=◌ pure
  advance-NotBelow from_lt last_lt (le, _) small = record {
    at = λ w h. elim (Bool-cases (ltb from_lt last_lt)) [
      | inl more ↦ rw more (elim (stored_lt-set_master_wallet_lt s last_lt w small) [
        | inl stored ↦ (last_lt, ground arith, small, stored)
        | inr same ↦ rw same h
      ])
      | inr less ↦ rw less h
    ];
  }

  get_master_wallet_lt-Between :
      (w : World) (a : ℕ)
      → NotBelow n w.db w.log
      → (get_master_wallet_lt s w).0 ≡ ok a
      → Between n a
  get_master_wallet_lt-Between w a (m, le, small, e) g =
      let same : m ≡ a = ok-injective (sym e ∙ get_master_wallet_lt-stored_lt s w a g) in
      (omega (arith, same), omega (arith, same))

  collect_new_providers-NotBelow :
      ScansFit d0 → (ctx : Ctx) → KeepsStore (NotBelow n) (collect_new_providers d ctx)
  unfolding collect_new_providers
  collect_new_providers-NotBelow fit ctx =
      learn-bind-KeepsStore (NotBelow n) (Between n) (get_master_wallet_lt s) _
        (IsReadOnly-KeepsStore (NotBelow n) (get_master_wallet_lt s) d.system_repo.get_reads)
        get_master_wallet_lt-Between
        λ from_lt b.
          read-bind-KeepsStore (NotBelow n) d.provider_repo.get_all_pubkeys _
            d.provider_repo.pubkeys_reads
            λ known.
              ensure-bind-KeepsStore (NotBelow n) (λ found. found.1 < 2 ^ 64)
                (d.master_scanner.scan d.cfg.master_addr from_lt) _
                (IsReadOnly-KeepsStore (NotBelow n)
                  (d.master_scanner.scan d.cfg.master_addr from_lt)
                  (d.master_scanner.scan_reads d.cfg.master_addr from_lt))
                (fit d.cfg.master_addr from_lt b.1)
                λ found small.
                  bind-KeepsStore (NotBelow n) _ (λ _. advance_master_lt d from_lt found.1)
                    (publish-KeepsStore (NotBelow n) _ _ _ _ _
                      (AllowsXadd-AllowsResult (NotBelow n) (xadd-NotBelow n) _ _ _ _))
                    λ _. advance-NotBelow from_lt found.1 b small

update_lt-params :
    (s : Server) (us : List Provider) (w : World) → (update_lt s us w).1.db.params ≡ w.db.params
unfolding update_lt
update_lt-params s [] w = refl
update_lt-params s (u ∷ us) w = ground arith

update_lt-NotBelow :
    (s : Server) (n : ℕ) (us : List Provider) → KeepsStore (NotBelow n) (update_lt s us)
unfolding stored_lt
update_lt-NotBelow s n us = record { at = λ w h. rw (update_lt-params s us w) h }

module _ (cfg : Config) (out : Outside) (n : ℕ) where
  bindings-NotBelow :
      ScansFit (new_discovery cfg out) → All (KeepsRule (NotBelow n)) (bindings cfg out)
  unfolding bindings new_discovery
  bindings-NotBelow fit =
      let d = new_discovery cfg out in
      bindings_of_keep (NotBelow n) (xadd-NotBelow n) cfg d (new_poll cfg out) (new_proof cfg out)
        (new_update cfg out) (collect_new_providers-NotBelow out.server d n fit)
        (λ ctx.
          collect_storage_contracts-KeepsStore (NotBelow n) d ctx
            (AllowsXadd-AllowsResult (NotBelow n) (xadd-NotBelow n) _ _ _ _)
            (update_lt-NotBelow out.server n))

  -- If the LTs that the lite servers list are uint64 and `n` is the LT of the master wallet that
  -- is stored, then after every run of the agent that `New` builds, in which the turns of its
  -- workers and reapers do not overlap, the stored LT can be read and is at least `n`, whatever
  -- the environment answers.
  pub run-NotBelow :
      (q : Queue) (start w : World)
      → ApiFits (2 ^ 64) out.ton.api
      → n < 2 ^ 64
      → stored_lt start.db ≡ ok n
      → Runs cfg out q start w
      → (m : ℕ) × (n ≤ m) × (m < 2 ^ 64) × (stored_lt w.db ≡ ok m)
  unfolding new_discovery
  run-NotBelow q start w fit small e r =
      run_keeps (NotBelow n) (xack-NotBelow n) cfg out q
        (bindings-NotBelow (scan_master_wallet_fits (2 ^ 64) out.ton fit)) start w r
        (n, omega arith, small, e)
