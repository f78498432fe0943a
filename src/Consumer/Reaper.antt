-- ===== src/Consumer/Reaper.antt =====
-- `claimPending` of reaper.go.
pub mod Diverges
pub mod Safety
pub mod Delivery
use mytonprovider_agent.Common.{
  ℕ, zero, suc, ◌+◌, String, Bool, true, false, Option, none, some, List, ◌&&◌, if◌then◌else◌,
}
use text.Mathlib.Text.{◌==◌ as str_eq}
use mytonprovider_agent.Jobs.{Ctx}
use mytonprovider_agent.World.{World, Metrics, is_done}
use mytonprovider_agent.Consumer.{Consumer, Claimed}
use mytonprovider_agent.Consumer.Worker.{process_all}

count_failure : Option String → World → World
count_failure none w = w
count_failure (some e) w = record w {
  metrics = record (w.metrics) { redis_errors = w.metrics.redis_errors + 1 };
}

-- one turn of the loop, without its test: the messages of this page, and the next cursor
unfoldable pub claim_page : Consumer → Ctx → String → World → String × World
unfolding count_failure
claim_page c ctx cursor w =
    let page = c.auto_claim cursor w.tick in
    let w' = count_failure page.failed (record w { tick = w.tick + 1 }) in
    (page.start, process_all c ctx page.jobs w')

-- the loop, for `n` pages at most; `none` if it has not ended by then
unfoldable pub claim_from : Consumer → Ctx → ℕ → String → World → Option World
unfolding claim_page
claim_from c ctx zero cursor w = none
claim_from c ctx (suc n) cursor w =
    let next = claim_page c ctx cursor w in
    let rest = claim_from c ctx n next.0 next.1 in if str_eq next.0 "0-0" then some next.1 else rest

unfoldable pub claim_pending : Consumer → Ctx → ℕ → World → Option World
unfolding claim_from
claim_pending c ctx n w = claim_from c ctx n "0-0" w

-- `runReaper`, for `n` turns of its loop, each of `pages` pages at most. `chooses t` is whether the
-- select takes `ctx.Done()` at tick `t`, which it may only if the context is done.
unfoldable pub run_reaper : Consumer → Ctx → (ℕ → Bool) → ℕ → ℕ → World → Option World
unfolding claim_pending
run_reaper c ctx chooses pages zero w = some w
run_reaper c ctx chooses pages (suc n) w =
    let woken = record w { tick = w.tick + 1 } in
    elim (is_done ctx w.tick && chooses w.tick) [
      | true ↦ some woken
      | false ↦ elim (claim_pending c ctx pages woken) [
        | none ↦ none
        | some after ↦ run_reaper c ctx chooses pages n after
      ]
    ]
