-- ===== src/Consumer/Reaper/Diverges.antt =====
-- When the reaper's loop ends, and when it does not.
use mytonprovider_agent.Common.{ℕ, zero, suc, String, ◌≡◌, refl, none}
use mytonprovider_agent.Jobs.{Ctx}
use mytonprovider_agent.World.{World}
use mytonprovider_agent.Consumer.{Consumer}
use mytonprovider_agent.Consumer.Reaper.{claim_page, claim_from, claim_pending}

diverges_from :
    (c : Consumer) (ctx : Ctx)
    → ((cursor : String) (t : ℕ) → (c.auto_claim cursor t).start ≡ "")
    → (n : ℕ) (cursor : String) (w : World) → claim_from c ctx n cursor w ≡ none
unfolding claim_from claim_page
diverges_from c ctx h zero cursor w = refl
diverges_from c ctx h (suc n) cursor w = rw (h cursor w.tick) (diverges_from c ctx h n _ _)

-- A failed XAUTOCLAIM returns the empty cursor. For as long as it fails, the loop does not end,
-- however many pages it is given: it never tests the error, nor its context.
pub claim_pending-diverges :
    (c : Consumer) (ctx : Ctx)
    → ((cursor : String) (t : ℕ) → (c.auto_claim cursor t).start ≡ "")
    → (n : ℕ) (w : World) → claim_pending c ctx n w ≡ none
unfolding claim_pending
claim_pending-diverges c ctx h n w = diverges_from c ctx h n "0-0" w
