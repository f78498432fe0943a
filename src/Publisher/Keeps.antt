-- ===== src/Publisher/Keeps.antt =====
-- What a call of `PublishResult` keeps of the log.
use mytonprovider_agent.Common.{ℕ, ◌≡◌, refl, String, Bool, Option, List, ◌∷◌}
use mytonprovider_agent.Jobs.{ResultEnvelope, Payload}
use mytonprovider_agent.World.{Database, Write, xadd}
use mytonprovider_agent.World.Actions.KeepsStore.{Rule, AllowsXadd, KeepsStore}
use mytonprovider_agent.Publisher.{Publisher, publish_result}
use mytonprovider_agent.Publisher.Laws.{publish_result_lem}

-- a message of this agent to this stream, for this job and this cycle
abbrev pub IsResult : String → String → String → String → String → ResultEnvelope → Type 0
IsResult agent stream id cycle s m =
    (s ≡ stream) × (m.job_id ≡ id) × (m.cycle ≡ cycle) × (m.agent_id ≡ agent)

-- Such a message does not break the rule.
abbrev pub AllowsResult : Rule → String → String → String → String → Type 0
AllowsResult Q agent stream id cycle =
    (db : Database) (log : List Write) (s : String) (m : ResultEnvelope) (max_len : Option ℕ)
    (taken : Bool)
    → IsResult agent stream id cycle s m
    → Q db log
    → Q db (xadd s m max_len taken ∷ log)

pub AllowsXadd-AllowsResult :
    (Q : Rule)
    → AllowsXadd Q
    → (agent stream id cycle : String) → AllowsResult Q agent stream id cycle
AllowsXadd-AllowsResult Q allowed agent stream id cycle =
    λ db log s m max_len taken r. allowed db log s m max_len taken

pub publish-KeepsStore :
    (Q : Rule) (p : Publisher) (stream id cycle : String) (payload : Payload)
    → AllowsResult Q p.agent_id stream id cycle
    → KeepsStore Q (publish_result p stream id cycle payload)
publish-KeepsStore Q p stream id cycle payload allowed = record {
  at = λ w h.
      rw (publish_result_lem p stream id cycle payload w)
        (allowed _ _ _ _ _ _ (refl, refl, refl, refl) h);
}
