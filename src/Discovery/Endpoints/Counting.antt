-- ===== src/Discovery/Endpoints/Counting.antt =====
-- Every provider that the endpoint cycle looks at is counted once: resolved, skipped or failed.
use mytonprovider_agent.Common.{
  ℕ, suc, ◌+◌, ◌≡◌, refl, false, Option, none, some, List, [], ◌∷◌, Text, arith, length,
  length-append, is_empty, All, All-append, ap, ◌∙◌,
}
use mytonprovider_agent.Common.Dict.{Dict, lookup, get_or}
use mytonprovider_agent.Domain.{ProviderEndpoint}
use mytonprovider_agent.Jobs.{Ctx}
use mytonprovider_agent.World.{pure}
use mytonprovider_agent.World.Actions.Ensures.{
  Ensures, weaken-Ensures, pure-Ensures, if-Ensures, unless_done-Ensures, bind-Ensures,
  attempt_or-Ensures,
}
use mytonprovider_agent.Discovery.{Discovery}
use mytonprovider_agent.Discovery.Endpoints.{
  Progress, is_fresh, decode_pubkey, complete_storage, stamped, keep_found, resolve_one,
  count_outcome, resolve_from,
}

abbrev pub total : Progress → ℕ
total p = length p.resolved + p.skipped + p.failed

abbrev pub HasProviderIp : ProviderEndpoint → Type 0
HasProviderIp ep = is_empty ep.provider.ip ≡ false

-- From progress `p` and `n` pending providers the loop gets to `q`.
pub record Counts (time n : ℕ) (p q : Progress) : Type 0 where
  pub each_once : total q ≡ total p + n
  pub usable : All HasProviderIp p.resolved → All HasProviderIp q.resolved
  pub fresh :
      All (λ ep. ep.updated_at ≡ time) p.resolved → All (λ ep. ep.updated_at ≡ time) q.resolved

abbrev IsUsable : ℕ → Option ProviderEndpoint → Type 0
IsUsable time none = Unit {0}
IsUsable time (some ep) = HasProviderIp ep × (ep.updated_at ≡ time)

complete_storage-provider :
    (d : Discovery) (ep : ProviderEndpoint) (bags : List Text)
    → Ensures (λ full. full.provider ≡ ep.provider) (complete_storage d ep bags)
unfolding complete_storage
complete_storage-provider d ep bags =
    if-Ensures _ (is_empty ep.storage.ip) _ _
      (λ _.
        attempt_or-Ensures _ (d.resolver.resolve_storage_with_overlay ep.provider.ip bags) (pure ep)
          _ (pure-Ensures _ ep refl)
          (λ storage. pure-Ensures _ (record ep { storage = storage }) refl))
      (λ _. pure-Ensures _ ep refl)

keep_found-IsUsable :
    (d : Discovery) (time : ℕ) (pubkey : Text) (bags : List Text) (ep : ProviderEndpoint)
    → Ensures (IsUsable time) (keep_found d time pubkey bags ep)
unfolding keep_found
keep_found-IsUsable d time pubkey bags ep =
    if-Ensures _ (is_empty ep.provider.ip) (pure none) _ (λ _. pure-Ensures _ none tt)
      λ e.
        bind-Ensures _ (λ full. full.provider ≡ ep.provider) (complete_storage d ep bags) _
          (complete_storage-provider d ep bags)
          (λ full same.
            pure-Ensures _ (some (stamped pubkey time full))
              (ap (λ x. is_empty x.ip) same ∙ e, refl))

resolve_one-IsUsable :
    (d : Discovery) (time : ℕ) (pubkey addr : Text) (bags : List Text) (pk : Option (List ℕ))
    → Ensures (IsUsable time) (resolve_one d time pubkey addr bags pk)
unfolding resolve_one
resolve_one-IsUsable d time pubkey addr bags none = pure-Ensures _ none tt
resolve_one-IsUsable d time pubkey addr bags (some pk) =
    attempt_or-Ensures _ (d.resolver.resolve pk addr) (pure none) (keep_found d time pubkey bags)
      (pure-Ensures _ none tt) (keep_found-IsUsable d time pubkey bags)

Counts-skip :
    (time n : ℕ) (p q : Progress)
    → Counts time n (record p { skipped = p.skipped + 1 }) q
    → Counts time (suc n) p q
Counts-skip time n p q c = record {
  each_once = omega (arith, c.each_once);
  usable = c.usable;
  fresh = c.fresh;
}

Counts-outcome :
    (time n : ℕ) (o : Option ProviderEndpoint) (p q : Progress)
    → IsUsable time o
    → Counts time n (count_outcome o p) q
    → Counts time (suc n) p q
unfolding count_outcome
Counts-outcome time n none p q u c = record {
  each_once = omega (arith, c.each_once);
  usable = c.usable;
  fresh = c.fresh;
}
Counts-outcome time n (some ep) p q u c = record {
  each_once = omega (arith, c.each_once, length-append {0} p.resolved (ep ∷ []));
  usable = λ h. c.usable (All-append HasProviderIp p.resolved (ep ∷ []) h (u.0, tt));
  fresh = λ h. c.fresh (All-append (λ x. x.updated_at ≡ time) p.resolved (ep ∷ []) h (u.1, tt));
}

-- If the loop runs to its end, it has counted each pending provider exactly once, as resolved,
-- skipped or failed, and all that it resolved have a provider IP and the time of the cycle.
pub resolve_from-Counts :
    (d : Discovery) (ctx : Ctx) (time : ℕ) (existing : Dict ProviderEndpoint)
    (bags : Dict (List Text)) (pending : Dict Text) (p : Progress)
    → Ensures (Counts time (length pending) p) (resolve_from d ctx time existing bags pending p)
unfolding resolve_from
resolve_from-Counts d ctx time existing bags [] p =
    pure-Ensures _ p (record { each_once = omega arith; usable = λ h. h; fresh = λ h. h })
resolve_from-Counts d ctx time existing bags ((pubkey, addr) ∷ rest) p =
    unless_done-Ensures _ ctx _ (
      if-Ensures _ (is_fresh d time (lookup pubkey existing)) _ _
        (λ _.
          weaken-Ensures (λ q. Counts-skip time (length rest) p q)
            (resolve_from-Counts d ctx time existing bags rest _))
        λ _.
          bind-Ensures _ (IsUsable time)
            (resolve_one d time pubkey addr (get_or pubkey [] bags) (decode_pubkey pubkey)) _
            (resolve_one-IsUsable d time pubkey addr (get_or pubkey [] bags) (decode_pubkey pubkey))
            λ o u.
              weaken-Ensures (λ q. Counts-outcome time (length rest) o p q u)
                (resolve_from-Counts d ctx time existing bags rest (count_outcome o p)))
