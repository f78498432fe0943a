-- ===== src/Poll/Rejected/Verdicts.antt =====
-- Which providers of a contract the inspection keeps.
use mytonprovider_agent.Common.{
  ℕ, ◌++◌, refl, ◌≤◌, ◌≡◌, Bool, true, false, List, [], ◌∷◌, Text, text_eq, text_eq_iff, arith,
  if◌then◌else◌, All,
}
use mytonprovider_agent.Common.Dict.{Dict, has, insert, lookup-insert}
use mytonprovider_agent.Domain.{OnChainProvider, ContractOnChainState}
use mytonprovider_agent.Strings.Hex.{encode_hex}
use mytonprovider_agent.World.{World, now, ok}
use mytonprovider_agent.World.Actions.Total.{Succeeds, pure-Succeeds, bind-Succeeds}
use mytonprovider_agent.World.Actions.Ensures.{
  Ensures, both-Ensures, imply-Ensures, pure-Ensures, bind_any-Ensures,
}
use mytonprovider_agent.Poll.{Poll}
use mytonprovider_agent.Poll.Rejected.{bounty, is_removed_by_low_balance, provider_set}

abbrev pub Holds : Text → Dict (Unit {0}) → Type 0
Holds k set = has k set ≡ true

pub has-insert :
    (k j : Text) (set : Dict (Unit {0}))
    → has j (insert k tt set) ≡ (if text_eq k j then true else has j set)
has-insert k j set = ground (arith, lookup-insert k j tt set)

set_step :
    (b : Bool) (k j : Text) (set : Dict (Unit {0}))
    → Holds j set
    → Holds j (if b then set else insert k tt set)
set_step b k j set h = ground (arith, has-insert k j set)

provider_set-grows :
    (p : Poll) (size : ℕ) (s : ContractOnChainState) (provs : List OnChainProvider)
    (set : Dict (Unit {0})) (k : Text)
    → Holds k set
    → Ensures (Holds k) (provider_set p size s provs set)
unfolding provider_set
provider_set-grows p size s [] set k h = pure-Ensures _ set h
provider_set-grows p size s (prov ∷ provs) set k h = bind_any-Ensures _ (now p.clock) _ λ time.
    provider_set-grows p size s provs _ k
      (set_step (is_removed_by_low_balance time size prov s) (encode_hex prov.key) k set h)

-- the contract can pay the next bounty of this provider
abbrev pub IsSolvent : ℕ → ContractOnChainState → OnChainProvider → Type 0
IsSolvent size s prov = bounty size prov ≤ s.balance

solvent_kept :
    (time size : ℕ) (s : ContractOnChainState) (prov : OnChainProvider)
    → IsSolvent size s prov
    → is_removed_by_low_balance time size prov s ≡ false
unfolding is_removed_by_low_balance
solvent_kept time size s prov h = ground arith

inserted : (k : Text) (set : Dict (Unit {0})) → Holds k (insert k tt set)
inserted k set = ground (arith, has-insert k k set, text_eq_iff k k)

-- Whenever the clock is read, the inspection keeps each provider whose contract can pay its next
-- bounty.
provider_set-IsSolvent :
    (p : Poll) (size : ℕ) (s : ContractOnChainState) (provs : List OnChainProvider)
    (set : Dict (Unit {0}))
    → Ensures
        (λ kept. All (λ prov. IsSolvent size s prov → Holds (encode_hex prov.key) kept) provs)
        (provider_set p size s provs set)
unfolding provider_set
provider_set-IsSolvent p size s [] set = pure-Ensures _ set tt
provider_set-IsSolvent p size s (prov ∷ provs) set = bind_any-Ensures _ (now p.clock) _ λ time.
    let removed = is_removed_by_low_balance time size prov s in
    let set' = if removed then set else insert (encode_hex prov.key) tt set in
    both-Ensures
      (imply-Ensures (λ h.
        provider_set-grows p size s provs set' (encode_hex prov.key)
          (rw (solvent_kept time size s prov h) (inserted (encode_hex prov.key) set))))
      (provider_set-IsSolvent p size s provs set')

pub provider_set-Succeeds :
    (p : Poll) (size : ℕ) (s : ContractOnChainState) (provs : List OnChainProvider)
    (set : Dict (Unit {0}))
    → Succeeds (provider_set p size s provs set)
unfolding provider_set now
provider_set-Succeeds p size s [] set = pure-Succeeds set
provider_set-Succeeds p size s (prov ∷ provs) set =
    bind-Succeeds (now p.clock) _ (record { at = λ w. (_, refl) })
      (λ time. provider_set-Succeeds p size s provs (
        if is_removed_by_low_balance time size prov s
        then set
        else insert (encode_hex prov.key) tt set))

All-at {ℓ κ} :
    {A : Type ℓ} (P : A → Type κ) (before : List A) (x : A) (after : List A)
    → All P (before ++ x ∷ after)
    → P x
All-at P [] x after h = h.0
All-at P (y ∷ before) x after h = All-at P before x after h.1

-- Whenever the clock is read, the inspection of a contract ends with a set that has each of its
-- providers whose next bounty the balance pays.
provider_set_lem :
    (p : Poll) (size : ℕ) (s : ContractOnChainState) (before after : List OnChainProvider)
    (prov : OnChainProvider) (w : World)
    → IsSolvent size s prov
    → (kept : Dict (Unit {0})) × ((provider_set p size s (before ++ prov ∷ after) [] w).0 ≡ ok kept)
      × Holds (encode_hex prov.key) kept
provider_set_lem p size s before after prov w h =
    let provs = before ++ prov ∷ after in
    let (kept, done) = (provider_set-Succeeds p size s provs []).at w in
    (
      kept,
      done,
      All-at _ before prov after ((provider_set-IsSolvent p size s provs []).at w kept done) h,
    )
