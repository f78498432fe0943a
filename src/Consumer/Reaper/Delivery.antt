-- ===== src/Consumer/Reaper/Delivery.antt =====
-- What a page of the reaper acknowledges: the messages that it claims.
use mytonprovider_agent.Common.{◌+◌, ◌≡◌, refl, ap, ◌∙◌, String, Option, none, some, ◌++◌}
use mytonprovider_agent.Jobs.{Ctx}
use mytonprovider_agent.World.{World}
use mytonprovider_agent.Consumer.{Consumer}
use mytonprovider_agent.Consumer.Delivery.{acked, on_stream, IsQuiet, process_all-acked}
use mytonprovider_agent.Consumer.Reaper.{count_failure, claim_page}

module _ (c : Consumer) (quiet : IsQuiet c) (ctx : Ctx) where
  count_failure-acked :
      (e : Option String) (w : World) → acked (count_failure e w).log ≡ acked w.log
  unfolding count_failure
  count_failure-acked none w = refl
  count_failure-acked (some e) w = refl

  pub claim_page-acked :
      (cursor : String) (w : World)
      → acked (claim_page c ctx cursor w).1.log
        ≡ acked w.log ++ on_stream c.cfg.stream (c.auto_claim cursor w.tick).jobs
  unfolding claim_page
  claim_page-acked cursor w =
      let page = c.auto_claim cursor w.tick in
      let w' = record w { tick = w.tick + 1 } in
      process_all-acked c quiet ctx page.jobs (count_failure page.failed w')
      ∙ ap (λ l. l ++ on_stream c.cfg.stream page.jobs) (count_failure-acked page.failed w')
