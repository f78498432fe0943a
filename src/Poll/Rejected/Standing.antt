-- ===== src/Poll/Rejected/Standing.antt =====
-- Where a relation stands, told from what the chain says of its contract, with no table on the way.
use mytonprovider_agent.Common.{
  ℕ, ◌+◌, ◌≡◌, refl, ap, ◌∙◌, Bool, false, not, ◌&&◌, ◌||◌, Option, none, some, List, [], ◌∷◌, Text,
  text_eq, text_eq_iff, arith, length, if◌then◌else◌, Bool-cases, inl, inr,
}
use mytonprovider_agent.Common.Dict.{Dict, lookup, insert, has, get_or, lookup-insert}
use mytonprovider_agent.Domain.{ContractProviderRelation, OnChainProvider, ContractOnChainState}
use mytonprovider_agent.Strings.Hex.{encode_hex}
use mytonprovider_agent.World.{World, Result, ok, now, pure, ask, continue, ◌>>=◌}
use mytonprovider_agent.Poll.{Poll}
use mytonprovider_agent.Poll.Rejected.Verdicts.{has-insert}
use mytonprovider_agent.Poll.Rejected.{
  ContractInfo, Verdict, is_removed_by_low_balance, bag_sizes, provider_set, state_infos, verdict,
}

-- One of the providers is the given one, and has not run out of balance. The clock is read once for
-- each provider, from tick `t` on.
unfoldable pub serves : (ℕ → ℕ) → ℕ → ℕ → ContractOnChainState → Text → List OnChainProvider → Bool
serves clock t size s key [] = false
serves clock t size s key (prov ∷ provs) =
    (text_eq (encode_hex prov.key) key && not (is_removed_by_low_balance (clock t) size prov s))
    || serves clock (t + 1) size s key provs

-- the last state of an address, if there is one, and the tick at which its providers come up, if
-- those of the first state come up at `t`
unfoldable pub state_of : ℕ → Text → List ContractOnChainState → Option (ℕ × ContractOnChainState)
state_of t a [] = none
state_of t a (s ∷ ss) = elim (state_of (t + length s.providers) a ss) [
  | some s' ↦ some s'
  | none ↦ if text_eq s.address a then some (t, s) else none
]

-- the size that the last relation of an address gives, or `d`
unfoldable pub size_of : Text → ℕ → List ContractProviderRelation → ℕ
size_of a d [] = d
size_of a d (r ∷ rs) = size_of a (if text_eq r.contract_addr a then r.size else d) rs

-- Rejected without a state, skipped with a failed one, and active if its provider still serves the
-- contract.
unfoldable pub standing_in :
    (ℕ → ℕ) → ℕ → Option (ℕ × ContractOnChainState) → ContractProviderRelation → Verdict
unfolding serves
standing_in clock size none rel = Verdict.rejected
standing_in clock size (some (t, s)) rel =
    if s.lite_server_error
    then Verdict.skipped
    else if serves clock t size s rel.provider_pubkey s.providers
    then Verdict.active
    else Verdict.rejected

unfoldable pub standing :
    (ℕ → ℕ)
    → ℕ
    → List ContractProviderRelation
    → List ContractOnChainState
    → ContractProviderRelation
    → Verdict
unfolding standing_in state_of size_of
standing clock t relations states rel =
    standing_in clock (size_of rel.contract_addr 0 relations) (state_of t rel.contract_addr states)
      rel

pub get_or-bag_sizes :
    (a : Text) (rs : List ContractProviderRelation) (m : Dict ℕ)
    → get_or a 0 (bag_sizes rs m) ≡ size_of a (get_or a 0 m) rs
unfolding bag_sizes size_of
get_or-bag_sizes a [] m = refl
get_or-bag_sizes a (r ∷ rs) m =
    get_or-bag_sizes a rs (insert r.contract_addr r.size m)
    ∙ ap (λ d. size_of a d rs) (ground (arith, lookup-insert r.contract_addr a r.size m))

module _ (p : Poll) where
  -- The loop over the providers of a state keeps exactly those that serve it.
  pub record Kept (size : ℕ) (s : ContractOnChainState) (provs : List OnChainProvider)
      (set : Dict (Unit {0})) (w : World) : Type 0 where
    pub kept : Dict (Unit {0})
    pub done : (provider_set p size s provs set w).0 ≡ ok kept
    pub after : (provider_set p size s provs set w).1.tick ≡ w.tick + length provs
    pub exact :
        (key : Text) → has key kept ≡ (has key set || serves p.clock w.tick size s key provs)

  provider_set-Kept :
      (size : ℕ) (s : ContractOnChainState) (provs : List OnChainProvider) (set : Dict (Unit {0}))
      (w : World)
      → Kept size s provs set w
  unfolding provider_set serves pure
  provider_set-Kept size s [] set w = record {
    kept = set;
    done = refl;
    after = omega arith;
    exact = λ key. ground arith;
  }
  provider_set-Kept size s (prov ∷ provs) set w =
      let gone = is_removed_by_low_balance (p.clock w.tick) size prov s in
      let set' = if gone then set else insert (encode_hex prov.key) tt set in
      let rest = provider_set-Kept size s provs set' (record w { tick = w.tick + 1 }) in
      record {
        kept = rest.kept;
        done = unfold now ask ◌>>=◌ in rest.done;
        after = (unfold now ask ◌>>=◌ in rest.after) ∙ (omega arith);
        exact = λ key. ground (arith, rest.exact key, has-insert (encode_hex prov.key) key set);
      }

  -- what the code makes of the entry of a relation's contract
  abbrev pub verdict_in : Option ContractInfo → ContractProviderRelation → Verdict
  verdict_in o rel = elim o [
    | none ↦ Verdict.rejected
    | some info ↦
        if info.skip
        then Verdict.skipped
        else if has rel.provider_pubkey info.providers
        then Verdict.active
        else Verdict.rejected
  ]

  -- where a relation stands by its contract's state, or else by the entry that is there
  abbrev pub by_state :
      ℕ
      → Option (ℕ × ContractOnChainState)
      → Option ContractInfo
      → ContractProviderRelation
      → Verdict
  by_state size none o rel = verdict_in o rel
  by_state size (some s) o rel = standing_in p.clock size (some s) rel

  -- The loop over the states leaves each relation where its contract's last state puts it.
  pub record Inspected (sizes : Dict ℕ) (ss : List ContractOnChainState) (infos : Dict ContractInfo)
      (w : World) : Type 0 where
    pub out : Dict ContractInfo
    pub done : (state_infos p sizes ss infos w).0 ≡ ok out
    pub exact :
        (rel : ContractProviderRelation)
        → verdict out rel
          ≡ by_state
              (get_or rel.contract_addr 0 sizes)
              (state_of w.tick rel.contract_addr ss)
              (lookup rel.contract_addr infos)
              rel

  entered :
      (t : ℕ) (sizes : Dict ℕ) (s : ContractOnChainState) (kept : Dict (Unit {0}))
      (infos : Dict ContractInfo) (rel : ContractProviderRelation)
      → ((key : Text)
          → has key kept ≡ (false || serves p.clock t (get_or s.address 0 sizes) s key s.providers))
      → (later : Option (ℕ × ContractOnChainState))
      → by_state
          (get_or rel.contract_addr 0 sizes)
          later
          (lookup rel.contract_addr
            (insert s.address (record { providers = kept; skip = s.lite_server_error }) infos))
          rel
        ≡ by_state
            (get_or rel.contract_addr 0 sizes)
            (elim later [
              | some s' ↦ some s'
              | none ↦ if text_eq s.address rel.contract_addr then some (t, s) else none
            ])
            (lookup rel.contract_addr infos)
            rel
  unfolding standing_in
  entered t sizes s kept infos rel exact (some s') = refl
  entered t sizes s kept infos rel exact none =
      let info : ContractInfo = record { providers = kept; skip = s.lite_server_error } in
      elim (Bool-cases (text_eq s.address rel.contract_addr)) [
        | inl e ↦
            let same_addr : s.address ≡ rel.contract_addr =
              (text_eq_iff s.address rel.contract_addr).0 e in
            rw
              (
                lookup-insert s.address rel.contract_addr info infos,
                e,
                exact rel.provider_pubkey,
                same_addr,
              )
              refl
        | inr e ↦ rw (lookup-insert s.address rel.contract_addr info infos, e) refl
      ]

  pub state_infos-Inspected :
      (sizes : Dict ℕ) (ss : List ContractOnChainState) (infos : Dict ContractInfo) (w : World)
      → Inspected sizes ss infos w
  unfolding state_infos pure verdict state_of
  state_infos-Inspected sizes [] infos w = record { out = infos; done = refl; exact = λ rel. refl }
  state_infos-Inspected sizes (s ∷ ss) infos w =
      let k = provider_set-Kept (get_or s.address 0 sizes) s s.providers [] w in
      let w' = (provider_set p (get_or s.address 0 sizes) s s.providers [] w).1 in
      let infos' =
        insert s.address (record { providers = k.kept; skip = s.lite_server_error }) infos in
      let rest = state_infos-Inspected sizes ss infos' w' in
      record {
        out = rest.out;
        done =
            ap
              (λ (r : Result (Dict (Unit {0}))).
                (continue r
                  (λ set. state_infos p sizes ss (
                    insert s.address (record { providers = set; skip = s.lite_server_error })
                      infos))
                  w').0)
              k.done
            ∙ rest.done;
        exact = λ rel.
            rest.exact rel
            ∙ ap
                (λ t.
                  by_state (get_or rel.contract_addr 0 sizes) (state_of t rel.contract_addr ss)
                    (lookup rel.contract_addr infos') rel)
                k.after
            ∙ entered w.tick sizes s k.kept infos rel (unfold lookup in k.exact)
                (state_of (w.tick + length s.providers) rel.contract_addr ss);
      }
