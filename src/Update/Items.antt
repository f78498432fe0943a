-- ===== src/Update/Items.antt =====
-- Which lookups the cycle makes, and what it keeps of the database and the log.
use mathlib.Core.List.{append_assoc, append-nil}
use mytonprovider_agent.Common.{
  sym, ◌∙◌, true, none, ℕ, ◌+◌, ◌≡◌, false, ◌&&◌, List, [], ◌∷◌, ◌++◌, ltb, is_empty,
}
use mytonprovider_agent.Domain.{ProviderEndpoint, IpInfo}
use mytonprovider_agent.Jobs.{job_id_from, cycle_lookup_ipinfo, Ctx, IpInfoUpdate}
use mytonprovider_agent.World.{ok, err, Error, World, Act}
use mytonprovider_agent.World.Actions.Ensures.{
  Ensures, weaken-Ensures, pure-Ensures, if-Ensures, unless_done-Ensures, learn_attempt_or-Ensures,
}
use mytonprovider_agent.World.Actions.Keeps.{
  IsReadOnly, pure-IsReadOnly, if-IsReadOnly, unless_done-IsReadOnly, attempt_or-IsReadOnly,
}
use mytonprovider_agent.World.Actions.Total.{
  Succeeds, pure-Succeeds, if-Succeeds, unless_done-Succeeds, attempt_or-Succeeds,
}
use mytonprovider_agent.World.Actions.KeepsStore.{
  Rule, KeepsStore, read-bind-KeepsStore, wrapping-KeepsStore,
}
use mytonprovider_agent.Publisher.Keeps.{AllowsResult, publish-KeepsStore}
use mytonprovider_agent.Update.{
  Update, cool_down, ip_info_update, look_up_from, publish_items, look_up_all, update_ip_info,
}

-- The items for these endpoints, in their order: none for an endpoint without an IP or whose lookup
-- fails, and the client's answer for any other.
pub data LookedUp (u : Update) : List ProviderEndpoint → List IpInfoUpdate → Type 0 where
  all_done : LookedUp u [] []
  no_ip :
      (ep : ProviderEndpoint) (eps : List ProviderEndpoint) (items : List IpInfoUpdate)
      → is_empty ep.provider.ip ≡ true
      → LookedUp u eps items
      → LookedUp u (ep ∷ eps) items
  failed :
      (ep : ProviderEndpoint) (eps : List ProviderEndpoint) (items : List IpInfoUpdate) (w : World)
      (e : Error)
      → is_empty ep.provider.ip ≡ false
      → (u.ipinfo.get_ip_info ep.provider.ip w).0 ≡ err e
      → LookedUp u eps items
      → LookedUp u (ep ∷ eps) items
  answered :
      (ep : ProviderEndpoint) (eps : List ProviderEndpoint) (items : List IpInfoUpdate) (w : World)
      (info : IpInfo)
      → is_empty ep.provider.ip ≡ false
      → (u.ipinfo.get_ip_info ep.provider.ip w).0 ≡ ok info
      → LookedUp u eps items
      → LookedUp u
          (ep ∷ eps)
          (record { public_key = ep.public_key; ip = ep.provider.ip; info = info } ∷ items)

-- From `items` the loop gets to `out`.
abbrev Extends : Update → List ProviderEndpoint → List IpInfoUpdate → List IpInfoUpdate → Type 0
Extends u eps items out = (new : List IpInfoUpdate) × (out ≡ items ++ new) × LookedUp u eps new

cool_down-Ensures :
    (P : List IpInfoUpdate → Type 0) (u : Update) (ctx : Ctx) (i : ℕ) (m : Act (List IpInfoUpdate))
    → Ensures P m
    → Ensures P (cool_down u ctx i m)
unfolding cool_down
cool_down-Ensures P u ctx i m h =
    if-Ensures P (ltb 0 i && ltb 0 u.cfg.between_ips_cooldown) _ m
      (λ _. unless_done-Ensures P ctx m h) (λ _. h)

-- If the loop runs to its end, it has appended the items for the endpoints.
look_up_from-Extends :
    (u : Update) (ctx : Ctx) (i : ℕ) (eps : List ProviderEndpoint) (items : List IpInfoUpdate)
    → Ensures (Extends u eps items) (look_up_from u ctx i eps items)
unfolding look_up_from
look_up_from-Extends u ctx i [] items = pure-Ensures _ items ([], sym (append-nil items), all_done)
look_up_from-Extends u ctx i (ep ∷ eps) items =
    let rest = look_up_from-Extends u ctx (i + 1) eps items in
    unless_done-Ensures _ ctx _ (
      if-Ensures _ (is_empty ep.provider.ip) _ _
        (λ none. weaken-Ensures (λ out (new, e, l). (new, e, no_ip ep eps new none l)) rest)
        λ some_ip. cool_down-Ensures _ u ctx i _ (
          learn_attempt_or-Ensures _ (u.ipinfo.get_ip_info ep.provider.ip) _ _
            (λ w x no.
              weaken-Ensures (λ out (new, e, l). (new, e, failed ep eps new w x some_ip no l)) rest)
            λ w info yes.
              let item = ip_info_update ep info in
              weaken-Ensures
                (λ out (new, e, l). (
                  item ∷ new,
                  e ∙ append_assoc items (item ∷ []) new,
                  answered ep eps new w info some_ip yes l,
                ))
                (look_up_from-Extends u ctx (i + 1) eps (items ++ item ∷ []))))

cool_down-Succeeds :
    (u : Update) (ctx : Ctx) (i : ℕ) (m : Act (List IpInfoUpdate))
    → ctx.done_at ≡ none
    → Succeeds m
    → Succeeds (cool_down u ctx i m)
unfolding cool_down
cool_down-Succeeds u ctx i m e h =
    if-Succeeds (ltb 0 i && ltb 0 u.cfg.between_ips_cooldown) _ m (unless_done-Succeeds ctx m e h) h

look_up_from-Succeeds :
    (u : Update) (ctx : Ctx) (i : ℕ) (eps : List ProviderEndpoint) (items : List IpInfoUpdate)
    → ctx.done_at ≡ none
    → Succeeds (look_up_from u ctx i eps items)
unfolding look_up_from
look_up_from-Succeeds u ctx i [] items e = pure-Succeeds items
look_up_from-Succeeds u ctx i (ep ∷ eps) items e = unless_done-Succeeds ctx _ e (
    if-Succeeds (is_empty ep.provider.ip) _ _ (look_up_from-Succeeds u ctx (i + 1) eps items e) (
      cool_down-Succeeds u ctx i _ e (
        attempt_or-Succeeds (u.ipinfo.get_ip_info ep.provider.ip) _ _
          (look_up_from-Succeeds u ctx (i + 1) eps items e)
          (λ info. look_up_from-Succeeds u ctx (i + 1) eps _ e))))

-- If the context is never done, the loop of lookups runs to its end, whatever the client answers,
-- with one item for each endpoint that has an IP and whose lookup succeeds, in their order: the
-- endpoint's key, its IP, and what the client answers for that IP. An endpoint without an IP, or
-- for whose IP the client gives an error, has no item.
pub look_up_from_lem :
    (u : Update) (ctx : Ctx) (eps : List ProviderEndpoint) (w : World)
    → ctx.done_at ≡ none
    → (out : List IpInfoUpdate) × ((look_up_from u ctx 0 eps [] w).0 ≡ ok out) × LookedUp u eps out
look_up_from_lem u ctx eps w e =
    let (out, done) = (look_up_from-Succeeds u ctx 0 eps [] e).at w in
    let (new, same, l) = (look_up_from-Extends u ctx 0 eps []).at w out done in
    (out, done, rw same l)

cool_down-IsReadOnly :
    (u : Update) (ctx : Ctx) (i : ℕ) (m : Act (List IpInfoUpdate))
    → IsReadOnly m
    → IsReadOnly (cool_down u ctx i m)
unfolding cool_down
cool_down-IsReadOnly u ctx i m h =
    if-IsReadOnly (ltb 0 i && ltb 0 u.cfg.between_ips_cooldown) _ m (unless_done-IsReadOnly ctx m h)
      h

look_up_from-IsReadOnly :
    (u : Update) (ctx : Ctx) (i : ℕ) (eps : List ProviderEndpoint) (items : List IpInfoUpdate)
    → IsReadOnly (look_up_from u ctx i eps items)
unfolding look_up_from
look_up_from-IsReadOnly u ctx i [] items = pure-IsReadOnly items
look_up_from-IsReadOnly u ctx i (ep ∷ eps) items = unless_done-IsReadOnly ctx _ (
    if-IsReadOnly (is_empty ep.provider.ip) _ _ (look_up_from-IsReadOnly u ctx (i + 1) eps items) (
      cool_down-IsReadOnly u ctx i _ (
        attempt_or-IsReadOnly (u.ipinfo.get_ip_info ep.provider.ip) _ _
          (u.ipinfo.info_reads ep.provider.ip) (look_up_from-IsReadOnly u ctx (i + 1) eps items)
          (λ info. look_up_from-IsReadOnly u ctx (i + 1) eps _))))

module _ (Q : Rule) (u : Update) (ctx : Ctx)
    (allowed : AllowsResult Q u.publisher.agent_id u.cfg.lookup_ip_info_stream
      (job_id_from ctx)
      cycle_lookup_ipinfo) where
  look_up_all-KeepsStore : (eps : List ProviderEndpoint) → KeepsStore Q (look_up_all u ctx eps)
  unfolding look_up_all publish_items
  look_up_all-KeepsStore [] = publish-KeepsStore Q _ _ _ _ _ allowed
  look_up_all-KeepsStore (ep ∷ eps) =
      read-bind-KeepsStore Q (look_up_from u ctx 0 (ep ∷ eps) []) _
        (look_up_from-IsReadOnly u ctx 0 (ep ∷ eps) [])
        (λ items. wrapping-KeepsStore Q _ _ (publish-KeepsStore Q _ _ _ _ _ allowed))

  -- `UpdateIPInfo` keeps what messages do not break.
  pub update_ip_info-KeepsStore : KeepsStore Q (update_ip_info u ctx)
  unfolding update_ip_info
  update_ip_info-KeepsStore =
      read-bind-KeepsStore Q u.ipinfo_repo.get_providers_ips _ u.ipinfo_repo.ips_reads
        (look_up_all-KeepsStore)
