-- ===== src/Consumer/Delivery.antt =====
-- What the consumer acknowledges: every message that a worker reads or a reaper claims, in order.
use mathlib.Core.List.{append_assoc, append-nil}
use mytonprovider_agent.Common.{◌≡◌, refl, sym, ap, ◌∙◌, String, List, [], ◌∷◌, ◌++◌, map}
use mytonprovider_agent.Jobs.{Ctx}
use mytonprovider_agent.World.{World, Write, xack, Result, ok, err}
use mytonprovider_agent.Consumer.{Consumer, Message}
use mytonprovider_agent.Consumer.Process.{enter, handler_ctx, process}
use mytonprovider_agent.Consumer.Process.Acks.{process-acks}
use mytonprovider_agent.Consumer.Worker.{process_all}

-- the stream and the id of each acknowledgement, the oldest first
unfoldable pub acked : List Write → List (String × String)
acked [] = []
acked (xack stream group id taken ∷ ws) = acked ws ++ (stream, id) ∷ []
acked (_ ∷ ws) = acked ws

abbrev pub on_stream : String → List Message → List (String × String)
on_stream stream msgs = map (λ m. (stream, m.id)) msgs

-- The handler acknowledges nothing.
abbrev pub IsQuiet : Consumer → Type 0
IsQuiet c = (ctx : Ctx) (w : World) → acked (c.handler ctx w).1.log ≡ acked w.log

-- the messages of one read
abbrev pub messages : Result (List Message) → List Message
messages (ok msgs) = msgs
messages (err e) = []

module _ (c : Consumer) (quiet : IsQuiet c) (ctx : Ctx) where
  process-acked :
      (msg : Message) (w : World)
      → acked (process c ctx msg w).log ≡ acked w.log ++ (c.cfg.stream, msg.id) ∷ []
  unfolding acked enter
  process-acked msg w =
      rw ((process-acks c ctx msg w).1, quiet (handler_ctx c ctx msg w) (enter w)) refl

  pub process_all-acked :
      (msgs : List Message) (w : World)
      → acked (process_all c ctx msgs w).log ≡ acked w.log ++ on_stream c.cfg.stream msgs
  unfolding process_all
  process_all-acked [] w = sym (append-nil (acked w.log))
  process_all-acked (msg ∷ msgs) w =
      process_all-acked msgs (process c ctx msg w)
      ∙ ap (λ l. l ++ on_stream c.cfg.stream msgs) (process-acked msg w)
      ∙ append_assoc (acked w.log) ((c.cfg.stream, msg.id) ∷ []) (on_stream c.cfg.stream msgs)
