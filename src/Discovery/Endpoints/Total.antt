-- ===== src/Discovery/Endpoints/Total.antt =====
-- The loop of `ResolveEndpoints` under a context that is never done.
use mytonprovider_agent.Common.{
  ℕ, ◌+◌, ◌≡◌, Option, none, some, List, [], ◌∷◌, length, All, Text, is_empty, arith,
}
use mytonprovider_agent.Common.Dict.{Dict, lookup, get_or}
use mytonprovider_agent.Domain.{ProviderEndpoint}
use mytonprovider_agent.Jobs.{Ctx}
use mytonprovider_agent.World.{World, ok, pure}
use mytonprovider_agent.World.Actions.Total.{
  Succeeds, pure-Succeeds, if-Succeeds, unless_done-Succeeds, attempt_or-Succeeds, bind-Succeeds,
}
use mytonprovider_agent.Discovery.{Discovery}
use mytonprovider_agent.Discovery.Endpoints.{
  Progress, no_progress, is_fresh, decode_pubkey, complete_storage, stamped, keep_found,
  resolve_one, count_outcome, resolve_from,
}
use mytonprovider_agent.Discovery.Endpoints.Counting.{HasProviderIp, resolve_from-Counts}

keep_found-Succeeds :
    (d : Discovery) (time : ℕ) (pubkey : Text) (bags : List Text) (ep : ProviderEndpoint)
    → Succeeds (keep_found d time pubkey bags ep)
unfolding keep_found complete_storage
keep_found-Succeeds d time pubkey bags ep =
    if-Succeeds (is_empty ep.provider.ip) (pure none) _ (pure-Succeeds none) (
      bind-Succeeds (complete_storage d ep bags) _
        (if-Succeeds (is_empty ep.storage.ip) _ _
          (attempt_or-Succeeds (d.resolver.resolve_storage_with_overlay ep.provider.ip bags)
            (pure ep) _ (pure-Succeeds ep)
            (λ storage. pure-Succeeds (record ep { storage = storage })))
          (pure-Succeeds ep))
        (λ full. pure-Succeeds (some (stamped pubkey time full))))

resolve_one-Succeeds :
    (d : Discovery) (time : ℕ) (pubkey addr : Text) (bags : List Text) (pk : Option (List ℕ))
    → Succeeds (resolve_one d time pubkey addr bags pk)
unfolding resolve_one
resolve_one-Succeeds d time pubkey addr bags none = pure-Succeeds none
resolve_one-Succeeds d time pubkey addr bags (some pk) =
    attempt_or-Succeeds (d.resolver.resolve pk addr) (pure none) (keep_found d time pubkey bags)
      (pure-Succeeds none) (keep_found-Succeeds d time pubkey bags)

resolve_from-Succeeds :
    (d : Discovery) (ctx : Ctx) (time : ℕ) (existing : Dict ProviderEndpoint)
    (bags : Dict (List Text)) (pending : Dict Text) (p : Progress)
    → ctx.done_at ≡ none
    → Succeeds (resolve_from d ctx time existing bags pending p)
unfolding resolve_from
resolve_from-Succeeds d ctx time existing bags [] p e = pure-Succeeds p
resolve_from-Succeeds d ctx time existing bags ((pubkey, addr) ∷ rest) p e =
    unless_done-Succeeds ctx _ e (
      if-Succeeds (is_fresh d time (lookup pubkey existing)) _ _
        (resolve_from-Succeeds d ctx time existing bags rest _ e)
        (bind-Succeeds
          (resolve_one d time pubkey addr (get_or pubkey [] bags) (decode_pubkey pubkey)) _
          (resolve_one-Succeeds d time pubkey addr (get_or pubkey [] bags) (decode_pubkey pubkey))
          (λ o. resolve_from-Succeeds d ctx time existing bags rest (count_outcome o p) e)))

-- If the context is never done, the loop runs to its end whatever the resolver answers. It has then
-- counted each pending provider exactly once, as resolved, skipped or failed, and all that it
-- resolved have a provider IP and the time of the cycle.
pub resolve_from_lem :
    (d : Discovery) (ctx : Ctx) (time : ℕ) (existing : Dict ProviderEndpoint)
    (bags : Dict (List Text)) (pending : Dict Text) (w : World)
    → ctx.done_at ≡ none
    → (q : Progress) × ((resolve_from d ctx time existing bags pending no_progress w).0 ≡ ok q)
      × (length q.resolved + q.skipped + q.failed ≡ length pending)
      × All HasProviderIp q.resolved
      × All (λ ep. ep.updated_at ≡ time) q.resolved
resolve_from_lem d ctx time existing bags pending w e =
    let (q, done) = (resolve_from-Succeeds d ctx time existing bags pending no_progress e).at w in
    let c = (resolve_from-Counts d ctx time existing bags pending no_progress).at w q done in
    (q, done, omega (arith, c.each_once), c.usable tt, c.fresh tt)
