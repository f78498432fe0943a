-- ===== src/Checkpoints/Publishing.antt =====
-- Publishing keeps the rule of the checkpoints, and what follows may rely on the message.
use mytonprovider_agent.Common.{ℕ, ◌≡◌, refl, ap, String, Option, some, ◌∷◌, ◌+◌}
use mytonprovider_agent.Jobs.{Payload, ResultEnvelope}
use mytonprovider_agent.World.{World, Act, Result, ok, err, xadd, continue, ◌>>=◌}
use mytonprovider_agent.World.Actions.KeepsStore.{OfLog, AllowsXadd, KeepsStore}
use mytonprovider_agent.Checkpoints.{IsCheckpointed, last_accepted}
use mytonprovider_agent.Publisher.{Publisher, accepted, publish_result}
use mytonprovider_agent.Publisher.Laws.{publish_result_lem, reply_of}

abbrev Stands : Payload → World → Type 0
Stands payload w = (last_accepted w.log ≡ some payload) × IsCheckpointed w.log

pub xadd-IsCheckpointed : AllowsXadd (OfLog IsCheckpointed)
xadd-IsCheckpointed db log stream m max_len taken h = h

-- What comes after a publish runs only if the message was taken.
module _ (payload : Payload) (k : Unit {0} → Act (Unit {0}))
    (hk : (w : World) → Stands payload w → IsCheckpointed (k tt w).1.log) where
  after_answer :
      (answer : Result (Unit {0})) (w : World) (stream : String) (m : ResultEnvelope)
      (max_len : Option ℕ)
      → m.payload ≡ payload
      → IsCheckpointed w.log
      → IsCheckpointed
          (continue (reply_of answer) k (record w {
            tick = w.tick + 1 + 1;
            log = xadd stream m max_len (accepted answer) ∷ w.log;
          })).1.log
  unfolding continue
  after_answer (ok a) w stream m max_len e h = hk _ (ap some e, h)
  after_answer (err e') w stream m max_len e h = h

  pub publish-bind-KeepsStore :
      (p : Publisher) (stream id cycle : String)
      → KeepsStore (OfLog IsCheckpointed) (publish_result p stream id cycle payload >>= k)
  unfolding ◌>>=◌
  publish-bind-KeepsStore p stream id cycle = record {
    at = λ w h.
        rw (publish_result_lem p stream id cycle payload w)
          (after_answer (p.answer (w.tick + 1)) w stream _ _ refl h);
  }
