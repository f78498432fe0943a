-- ===== src/Poll/Rejected/Skipped.antt =====
-- What a failed inspection of a contract means for its relations.
use mytonprovider_agent.Common.{
  ℕ, ◌≡◌, refl, ap, ◌∙◌, Bool, true, false, Option, none, some, List, [], ◌∷◌, ◌++◌, Text, text_eq,
  text_eq_iff, arith, All,
}
use mytonprovider_agent.Common.Dict.{Dict, lookup, insert, lookup-insert, get_or}
use mytonprovider_agent.Domain.{ContractOnChainState, ContractProviderRelation}
use mytonprovider_agent.World.{World, ok}
use mytonprovider_agent.World.Actions.Ensures.{Ensures, pure-Ensures, bind_any-Ensures}
use mytonprovider_agent.World.Actions.Total.{Succeeds, pure-Succeeds, bind-Succeeds}
use mytonprovider_agent.Poll.{Poll}
use mytonprovider_agent.Poll.Rejected.{ContractInfo, provider_set, state_infos, Verdict, verdict}
use mytonprovider_agent.Poll.Rejected.Verdicts.{provider_set-Succeeds}

-- the flag that is kept for an address
abbrev skip_at : Text → Dict ContractInfo → Option Bool
skip_at a infos = elim (lookup a infos) [ none ↦ none | some info ↦ some info.skip ]

abbrev pub IsOther : Text → ContractOnChainState → Type 0
IsOther a s = text_eq s.address a ≡ false

skip_at-insert :
    (a b : Text) (info : ContractInfo) (infos : Dict ContractInfo)
    → skip_at a (insert b info infos)
      ≡ (elim (text_eq b a) [ true ↦ some info.skip | false ↦ skip_at a infos ])
skip_at-insert a b info infos = ground (arith, lookup-insert b a info infos)

others-Ensures :
    (p : Poll) (sizes : Dict ℕ) (a : Text) (after : List ContractOnChainState)
    (infos : Dict ContractInfo) (flag : Option Bool)
    → All (IsOther a) after
    → skip_at a infos ≡ flag
    → Ensures (λ out. skip_at a out ≡ flag) (state_infos p sizes after infos)
unfolding state_infos
others-Ensures p sizes a [] infos flag h e = pure-Ensures _ infos e
others-Ensures p sizes a (s ∷ after) infos flag h e =
    bind_any-Ensures _ (provider_set p (get_or s.address 0 sizes) s s.providers []) _ λ set.
      others-Ensures p sizes a after _ flag h.1 (
        rw
          (
            skip_at-insert a s.address (record { providers = set; skip = s.lite_server_error })
                infos,
            h.0,
          )
          e)

last-Ensures :
    (p : Poll) (sizes : Dict ℕ) (s : ContractOnChainState)
    (before after : List ContractOnChainState) (infos : Dict ContractInfo)
    → All (IsOther s.address) after
    → Ensures
        (λ out. skip_at s.address out ≡ some s.lite_server_error)
        (state_infos p sizes (before ++ s ∷ after) infos)
unfolding state_infos
last-Ensures p sizes s [] after infos h =
    bind_any-Ensures _ (provider_set p (get_or s.address 0 sizes) s s.providers []) _ λ set.
      others-Ensures p sizes s.address after _ _ h (
        rw
          (
            skip_at-insert s.address s.address
                (record { providers = set; skip = s.lite_server_error }) infos,
            (text_eq_iff s.address s.address).1 refl,
          )
          refl)
last-Ensures p sizes s (b ∷ before) after infos h =
    bind_any-Ensures _ (provider_set p (get_or b.address 0 sizes) b b.providers []) _
      λ set. last-Ensures p sizes s before after _ h

state_infos-Succeeds :
    (p : Poll) (sizes : Dict ℕ) (ss : List ContractOnChainState) (infos : Dict ContractInfo)
    → Succeeds (state_infos p sizes ss infos)
unfolding state_infos
state_infos-Succeeds p sizes [] infos = pure-Succeeds infos
state_infos-Succeeds p sizes (s ∷ ss) infos =
    bind-Succeeds (provider_set p (get_or s.address 0 sizes) s s.providers []) _
      (provider_set-Succeeds p _ s s.providers [])
      (λ set.
        state_infos-Succeeds p sizes ss
          (insert s.address (record { providers = set; skip = s.lite_server_error }) infos))

skip_at-verdict :
    (infos : Dict ContractInfo) (rel : ContractProviderRelation)
    → skip_at rel.contract_addr infos ≡ some true
    → verdict infos rel ≡ Verdict.skipped
unfolding verdict
skip_at-verdict infos rel e = ground (arith, e)

-- If the last state that the inspector gives of a contract has its lite server error set, every
-- relation of the contract is skipped: it is neither rejected nor active.
pub verdict-skipped :
    (p : Poll) (sizes : Dict ℕ) (s : ContractOnChainState)
    (before after : List ContractOnChainState) (rel : ContractProviderRelation) (w : World)
    → s.lite_server_error ≡ true
    → rel.contract_addr ≡ s.address
    → All (IsOther s.address) after
    → (infos : Dict ContractInfo) × ((state_infos p sizes (before ++ s ∷ after) [] w).0 ≡ ok infos)
      × (verdict infos rel ≡ Verdict.skipped)
verdict-skipped p sizes s before after rel w failed same others =
    let (infos, done) = (state_infos-Succeeds p sizes (before ++ s ∷ after) []).at w in
    let flag = (last-Ensures p sizes s before after [] others).at w infos done in
    (
      infos,
      done,
      skip_at-verdict infos rel (ap (λ a. skip_at a infos) same ∙ flag ∙ ap some failed),
    )
