-- ===== src/Connections/Pools.antt =====
-- What NewPool leaves open.
use mytonprovider_agent.Common.{◌≡◌, ◌⊎◌, inl, inr, refl, ℕ, ◌+◌, String, ◌∷◌}
use mytonprovider_agent.World.{Error, Result, ok, err}
use mytonprovider_agent.Connections.{
  Handle, pool, Links, Sys, explained, explain, call, opens, closes, answering, new_pool, fail,
  ◌>>=◌, ◌>>◌,
}

-- Nothing is left open that was not open before: the pool did not start, or it did not answer the
-- ping and was closed again.
abbrev pub IsTidy : Links → Handle → Sys → Sys → Type 0
IsTidy l h s s' =
    ((e : Error) × (l.start h s.tick ≡ err e) × (s'.opened ≡ s.opened) × (s'.closed ≡ s.closed))
    ⊎ ((e : Error) × (l.start h s.tick ≡ ok tt)
        × (l.ping h (s.tick + 1) ≡ err e)
        × (s'.opened ≡ h ∷ s.opened)
        × (s'.closed ≡ h ∷ s.closed))

-- A pool that is given has started, has answered the ping, and is open.
abbrev pub IsHeld : Links → Handle → Sys → Result Handle → Sys → Type 0
IsHeld l h s (ok p) s' =
    (l.start h s.tick ≡ ok tt)
    × (l.ping h (s.tick + 1) ≡ ok tt)
    × (p ≡ h)
    × (s'.opened ≡ h ∷ s.opened)
    × (s'.closed ≡ s.closed)
IsHeld l h s (err e) s' = IsTidy l h s s'

pinged :
    (l : Links) (h : Handle) (s : Sys) (r : Result (Unit {0})) (t : ℕ)
    → l.start h s.tick ≡ ok tt
    → l.ping h (s.tick + 1) ≡ r
    → (let s1 : Sys = record { tick = t; opened = h ∷ s.opened; closed = s.closed } in
        let m : Result Handle × Sys = elim r [
          | ok _ ↦ (ok h, s1)
          | err e ↦ explain "postgres.NewPool" (closes h >> fail e) s1
        ] in
        IsHeld l h s m.0 m.1)
unfolding explain closes ◌>>=◌ fail
pinged l h s (ok a) t up e = (up, e, refl, refl, refl)
pinged l h s (err Error.panicked) t up e = inr (_, up, e, refl, refl)
pinged l h s (err _) t up e = inr (_, up, e, refl, refl)

started :
    (l : Links) (h : Handle) (s : Sys) (r : Result (Unit {0}))
    → l.start h s.tick ≡ r
    → (let m : Result Handle × Sys = elim r [
      | ok _ ↦ (ok h, record { tick = s.tick + 1; opened = h ∷ s.opened; closed = s.closed })
      | err e ↦ (err e, record s { tick = s.tick + 1 })
    ] in
        let n : Result Handle × Sys = elim (explained "postgres.NewPool" m.0) [
          | ok p ↦ answering l p m.1
          | err e ↦ (err e, m.1)
        ] in
        IsHeld l h s n.0 n.1)
unfolding answering call
started l h s (ok a) e = pinged l h s (l.ping h (s.tick + 1)) (s.tick + 1 + 1) e refl
started l h s (err Error.panicked) e = inl (_, e, refl, refl)
started l h s (err _) e = inl (_, e, refl, refl)

-- NewPool gives a pool that has started, answered a ping and is open; or it fails, because the pool
-- did not start, or because it did not answer the ping, and then it is closed again.
pub new_pool-IsHeld :
    (l : Links) (dsn : String) (s : Sys)
    → IsHeld l (pool dsn) s (new_pool l dsn s).0 (new_pool l dsn s).1
unfolding new_pool explain ◌>>=◌ opens
new_pool-IsHeld l dsn s = started l (pool dsn) s (l.start (pool dsn) s.tick) refl
