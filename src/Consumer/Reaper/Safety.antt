-- ===== src/Consumer/Reaper/Safety.antt =====
-- What a page of the reaper keeps.
use mytonprovider_agent.Common.{String, Option, none, some, ◌+◌}
use mytonprovider_agent.Jobs.{Ctx}
use mytonprovider_agent.World.{World}
use mytonprovider_agent.World.Actions.KeepsStore.{Rule, AllowsXack, KeepsStore}
use mytonprovider_agent.Consumer.{Consumer}
use mytonprovider_agent.Consumer.Worker.Safety.{process_all_keeps}
use mytonprovider_agent.Consumer.Reaper.{count_failure, claim_page}

count_failure_keeps :
    (Q : Rule) (e : Option String) (w : World)
    → Q w.db w.log
    → Q (count_failure e w).db (count_failure e w).log
unfolding count_failure
count_failure_keeps Q none w h = h
count_failure_keeps Q (some e) w h = h

-- What the handler keeps and acknowledgements do not break, a page of the reaper keeps.
pub claim_page_keeps :
    (Q : Rule)
    → AllowsXack Q
    → (c : Consumer) → ((ctx : Ctx) → KeepsStore Q (c.handler ctx))
    → (ctx : Ctx) (cursor : String) (w : World) → Q w.db w.log
    → Q (claim_page c ctx cursor w).1.db (claim_page c ctx cursor w).1.log
unfolding claim_page
claim_page_keeps Q allowed c keeps ctx cursor w h =
    let page = c.auto_claim cursor w.tick in
    process_all_keeps Q allowed c keeps ctx page.jobs
      (count_failure page.failed (record w { tick = w.tick + 1 }))
      (count_failure_keeps Q page.failed (record w { tick = w.tick + 1 }) h)
