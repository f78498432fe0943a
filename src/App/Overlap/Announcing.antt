-- ===== src/App/Overlap/Announcing.antt =====
-- No overlap of turns stores an LT that was not announced before.
use mathlib.Core.Option.{some_inj}
use mytonprovider_agent.Common.{ℕ, zero, suc, ◌≡◌, inl, inr, true, false, some, List, [], ◌∷◌, drop}
use mytonprovider_agent.Jobs.{Payload}
use mytonprovider_agent.World.Actions.KeepsStore.{OfLog}
use mytonprovider_agent.World.{Write, xadd, xack, set_param, set_last_tx_lt}
use mytonprovider_agent.Checkpoints.{IsCheckpointed, last_accepted}
use mytonprovider_agent.Consumer.Worker.Safety.{worker_turn_keeps}
use mytonprovider_agent.Consumer.Reaper.Safety.{claim_page_keeps}
use mytonprovider_agent.App.{bindings_of}
use mytonprovider_agent.App.Start.{new_consumer}
use mytonprovider_agent.App.Agent.{xack-IsCheckpointed, consumer_keeps, checkpoints_keep}
use mytonprovider_agent.App.Overlap.{
  Turn, Interleaves, none_left, from_left, from_right, Overlapped, no_turn, joins, Announced,
  IsAnnounced,
}

-- Turns seen alone keep the rule of the checkpoints.
fresh_keeps : (log : List Write) → log ≡ [] → IsCheckpointed log
fresh_keeps [] e = tt
fresh_keeps (x ∷ log) e = absurd (cc e)

Turn-IsCheckpointed : {l : List Write} → Turn l → IsCheckpointed l
Turn-IsCheckpointed (Turn.works cfg q d p pr u b m ctx w fresh) =
    worker_turn_keeps (OfLog IsCheckpointed) xack-IsCheckpointed (new_consumer cfg q b)
      (consumer_keeps (OfLog IsCheckpointed) xack-IsCheckpointed cfg q (bindings_of cfg d p pr u) b
        (checkpoints_keep cfg d p pr u) m)
      ctx w (fresh_keeps w.log fresh)
Turn-IsCheckpointed (Turn.reaps cfg q d p pr u b m ctx cursor w fresh) =
    claim_page_keeps (OfLog IsCheckpointed) xack-IsCheckpointed (new_consumer cfg q b)
      (consumer_keeps (OfLog IsCheckpointed) xack-IsCheckpointed cfg q (bindings_of cfg d p pr u) b
        (checkpoints_keep cfg d p pr u) m)
      ctx cursor w (fresh_keeps w.log fresh)

-- The rule holds of what was written earlier.
older-IsCheckpointed :
    (x : Write) (log : List Write) → IsCheckpointed (x ∷ log) → IsCheckpointed log
older-IsCheckpointed (xadd stream m max_len taken) log h = h
older-IsCheckpointed (xack stream group id taken) log h = h
older-IsCheckpointed (set_param key value taken) log (p, e, f, h) = h
older-IsCheckpointed (set_last_tx_lt updates taken) log (p, e, f, h) = h

drop-IsCheckpointed : (n : ℕ) (log : List Write) → IsCheckpointed log → IsCheckpointed (drop n log)
drop-IsCheckpointed zero log h = h
drop-IsCheckpointed (suc n) [] h = h
drop-IsCheckpointed (suc n) (x ∷ log) h = drop-IsCheckpointed n log (older-IsCheckpointed x log h)

last_accepted-Announced :
    (P : Payload → Type 0) (log : List Write) (p : Payload)
    → last_accepted log ≡ some p
    → P p
    → Announced P log
last_accepted-Announced P [] p e h = absurd (cc e)
last_accepted-Announced P (xadd stream m max_len true ∷ log) p e h = inl (rw (some_inj.0 e) h)
last_accepted-Announced P (xadd stream m max_len false ∷ log) p e h = absurd (cc e)
last_accepted-Announced P (xack stream group id taken ∷ log) p e h = absurd (cc e)
last_accepted-Announced P (set_param key value taken ∷ log) p e h = absurd (cc e)
last_accepted-Announced P (set_last_tx_lt updates taken ∷ log) p e h = absurd (cc e)

IsCheckpointed-IsAnnounced : (log : List Write) → IsCheckpointed log → IsAnnounced log
IsCheckpointed-IsAnnounced [] h = tt
IsCheckpointed-IsAnnounced (xadd stream m max_len taken ∷ log) h = IsCheckpointed-IsAnnounced log h
IsCheckpointed-IsAnnounced (xack stream group id taken ∷ log) h = IsCheckpointed-IsAnnounced log h
IsCheckpointed-IsAnnounced (set_param key value taken ∷ log) (p, last, lt, h) =
    (last_accepted-Announced _ log p last lt, IsCheckpointed-IsAnnounced log h)
IsCheckpointed-IsAnnounced (set_last_tx_lt updates taken ∷ log) (p, last, lts, h) =
    (last_accepted-Announced _ log p last lts, IsCheckpointed-IsAnnounced log h)

module _ (P : Payload → Type 0) where
  later-Announced : (x : Write) (log : List Write) → Announced P log → Announced P (x ∷ log)
  later-Announced (xadd stream m max_len true) log a = inr a
  later-Announced (xadd stream m max_len false) log a = a
  later-Announced (xack stream group id taken) log a = a
  later-Announced (set_param key value taken) log a = a
  later-Announced (set_last_tx_lt updates taken) log a = a

  same_head :
      (x : Write) (log log' : List Write)
      → (Announced P log → Announced P log')
      → Announced P (x ∷ log)
      → Announced P (x ∷ log')
  same_head (xadd stream m max_len true) log log' f (inl h) = inl h
  same_head (xadd stream m max_len true) log log' f (inr a) = inr (f a)
  same_head (xadd stream m max_len false) log log' f a = f a
  same_head (xack stream group id taken) log log' f a = f a
  same_head (set_param key value taken) log log' f a = f a
  same_head (set_last_tx_lt updates taken) log log' f a = f a

  left-Announced : {l m n : List Write} → Interleaves l m n → Announced P l → Announced P n
  left-Announced none_left a = a
  left-Announced (from_left x i) a = same_head x _ _ (left-Announced i) a
  left-Announced (from_right x i) a = later-Announced x _ (left-Announced i a)

  right-Announced : {l m n : List Write} → Interleaves l m n → Announced P m → Announced P n
  right-Announced none_left a = a
  right-Announced (from_left x i) a = later-Announced x _ (right-Announced i a)
  right-Announced (from_right x i) a = same_head x _ _ (right-Announced i) a

-- One more write, if all that was announced to it is announced in the interleaving too.
write-IsAnnounced :
    (x : Write) (log log' : List Write)
    → ((P : Payload → Type 0) → Announced P log → Announced P log')
    → (IsAnnounced log → IsAnnounced log')
    → IsAnnounced (x ∷ log)
    → IsAnnounced (x ∷ log')
write-IsAnnounced (xadd stream m max_len taken) log log' f g h = g h
write-IsAnnounced (xack stream group id taken) log log' f g h = g h
write-IsAnnounced (set_param key value taken) log log' f g (a, h) = (f _ a, g h)
write-IsAnnounced (set_last_tx_lt updates taken) log log' f g (a, h) = (f _ a, g h)

Interleaves-IsAnnounced :
    {l m n : List Write} → Interleaves l m n → IsAnnounced l → IsAnnounced m → IsAnnounced n
Interleaves-IsAnnounced none_left h k = tt
Interleaves-IsAnnounced (from_left x i) h k =
    write-IsAnnounced x _ _ (λ P. left-Announced P i) (λ h'. Interleaves-IsAnnounced i h' k) h
Interleaves-IsAnnounced (from_right x i) h k =
    write-IsAnnounced x _ _ (λ P. right-Announced P i) (Interleaves-IsAnnounced i h) k

-- However the turns of the workers and reapers of any number of agents overlap, whatever their
-- ports answer and wherever a turn is cut off, each logical time that was to be stored was
-- announced before, by a message of its findings that Redis took.
pub Overlapped-IsAnnounced : {log : List Write} → Overlapped log → IsAnnounced log
Overlapped-IsAnnounced no_turn = tt
Overlapped-IsAnnounced (joins unmade {l = l} t o i) =
    Interleaves-IsAnnounced i
      (IsCheckpointed-IsAnnounced (drop unmade l)
        (drop-IsCheckpointed unmade l (Turn-IsCheckpointed t)))
      (Overlapped-IsAnnounced o)
