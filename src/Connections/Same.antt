-- ===== src/Connections/Same.antt =====
-- initADNL and adnlclients.New, which repeat each other.
use Prim.Native.String.{◌++◌ as ◌<>◌}
use mytonprovider_agent.Common.{ℕ, ◌≡◌, refl, String, Option, none, some, List}
use mytonprovider_agent.World.{Error, Result, ok, err}
use mytonprovider_agent.Connections.{
  Handle, Links, Sys, Clients, Setup, done, explained, explain, call, opens, until_dht,
  with_transport, set_clients, init_adnl, new_clients, ◌>>=◌, listener, gateway, dht_client,
  transport,
}

-- Both succeed with the same clients, or both fail and there is no transport client.
abbrev pub Agree : Result (Handle × Handle × Handle) → Clients × Option Error → Type 0
Agree (ok (dht, tr, gate)) (c, none) = (c.dht ≡ some dht) × (c.transport_client ≡ some tr)
Agree (err e) (c, some e') = c.transport_client ≡ none
Agree _ _ = ⊥

module _ (l : Links) (key : List ℕ) where
  -- From here on initADNL does as adnlclients.New does.
  abbrev Follows : Setup (Handle × Handle × Handle) → Setup (Handle × Handle) → Type 0
  Follows m n =
      (t : Sys)
      → ((m t).1 ≡ (set_clients l key (n t)).1) × Agree (m t).0 (set_clients l key (n t)).0

  module _ {A : Type 0} (op op' : String) (f : A → Setup (Handle × Handle × Handle))
      (g : A → Setup (Handle × Handle)) (h : (a : A) → Follows (f a) (g a)) where
    explained_on :
        (r : Result A) (s : Sys)
        → (let m : Result (Handle × Handle × Handle) × Sys = elim (explained op r) [
          | ok a ↦ f a s
          | err e ↦ (err e, s)
        ] in
            let n : Result (Handle × Handle) × Sys = elim (explained op' r) [
              | ok a ↦ g a s
              | err e ↦ (err e, s)
            ] in
            (m.1 ≡ (set_clients l key n).1) × Agree m.0 (set_clients l key n).0)
    unfolding set_clients
    explained_on (ok a) s = h a s
    explained_on (err Error.panicked) s = (refl, refl)
    explained_on (err _) s = (refl, refl)

    bind-Follows : (c : Setup A) → Follows (explain op c >>= f) (explain op' c >>= g)
    unfolding explain ◌>>=◌
    bind-Follows c t = explained_on (c t).0 (c t).1

  gate_started :
      (op op' : String) (dht : Handle) (r : Result Handle) (s : Sys)
      → (let m : Result (Handle × Handle × Handle) × Sys = elim (explained op r) [
        | ok gate ↦ (ok (dht, transport gate dht, gate), s)
        | err e ↦ (err e, s)
      ] in
          (m.1 ≡ s) × (Agree m.0 (with_transport dht (explained op' r))))
  unfolding with_transport
  gate_started op op' dht (ok gate) s = (refl, (refl, refl))
  gate_started op op' dht (err Error.panicked) s = (refl, refl)
  gate_started op op' dht (err _) s = (refl, refl)

  last-Follows :
      (dht dl : Handle)
      → Follows
          (explain "main.initADNL: provider gateway" (opens l (gateway key dl)) >>= λ gate.
            done (dht, transport gate dht, gate))
          (done (dht, dl))
  unfolding explain ◌>>=◌ done set_clients
  last-Follows dht dl t =
      gate_started _ _ dht (opens l (gateway key dl) t).0 (opens l (gateway key dl) t).1

-- Whatever the calls answer, initADNL and adnlclients.New make the same calls in the same order,
-- leave the same handles open, and agree on success and on the clients.
pub init_adnl-new_clients :
    (l : Links) (url port : String) (key : List ℕ) (s : Sys)
    → ((init_adnl l url port key s).1 ≡ (new_clients l url port key s).1)
      × Agree (init_adnl l url port key s).0 (new_clients l url port key s).0
unfolding init_adnl new_clients until_dht
init_adnl-new_clients l url port key s =
    bind-Follows l key _ _ _ _
      (λ network.
        bind-Follows l key _ _ _ _
          (λ dht_key.
            bind-Follows l key _ _ _ _
              (λ dl.
                bind-Follows l key _ _ _ _
                  (λ dht_gate.
                    bind-Follows l key _ _ _ (λ dht. done (dht, dl))
                      (λ dht. last-Follows l key dht dl) (opens l (dht_client dht_gate network)))
                  (opens l (gateway dht_key dl)))
              (opens l (listener ("0.0.0.0:" <> port))))
          (call l.generate_key))
      (call (l.get_config url)) s
