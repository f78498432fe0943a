-- ===== src/Update.antt =====
-- internal/usecase/update/update.go: the lookup_ipinfo cycle.
pub mod Items
use mytonprovider_agent.Common.{
  ℕ, ◌+◌, String, Bool, true, false, ◌&&◌, List, [], ◌∷◌, ◌++◌, ltb, ◌*◌, ◌==◌, if◌then◌else◌,
  is_empty,
}
use mytonprovider_agent.Domain.{ProviderEndpoint, IpInfo}
use mytonprovider_agent.Jobs.{Ctx, job_id_from, IpInfoUpdate, lookup_ipinfo, cycle_lookup_ipinfo}
use mytonprovider_agent.World.{Act, pure, attempt_or, wrapping, unless_done, ◌>>=◌, ◌>>◌}
use mytonprovider_agent.Ports.{IpInfoClient, IpInfoRepo}
use mytonprovider_agent.Publisher.{Publisher, publish_result}

-- A duration that is not positive is 0 here.
pub record Config : Type 0 where
  pub ip_info_timeout : ℕ
  pub between_ips_cooldown : ℕ
  pub lookup_ip_info_stream : String

-- `New` sets what the configuration left out
unfoldable pub with_defaults : Config → Config
with_defaults cfg = record cfg {
  ip_info_timeout = if cfg.ip_info_timeout == 0 then 10 * 1000000000 else cfg.ip_info_timeout;
  between_ips_cooldown =
      if cfg.between_ips_cooldown == 0 then 1000000000 else cfg.between_ips_cooldown;
}

-- `cfg` is what `New` has completed
pub record Update : Type 0 where
  pub cfg : Config
  pub ipinfo : IpInfoClient
  pub ipinfo_repo : IpInfoRepo
  pub publisher : Publisher

-- `i > 0 && cooldown > 0`: a wait, which ends early with an error if the context is done
cool_down {ℓ} : {A : Type ℓ} → Update → Ctx → ℕ → Act A → Act A
unfolding unless_done
cool_down u ctx i m = if ltb 0 i && ltb 0 u.cfg.between_ips_cooldown then unless_done ctx m else m

abbrev ip_info_update : ProviderEndpoint → IpInfo → IpInfoUpdate
ip_info_update ep info = record { public_key = ep.public_key; ip = ep.provider.ip; info = info }

-- the loop `for i, ep := range endpoints`
pub look_up_from :
    Update → Ctx → ℕ → List ProviderEndpoint → List IpInfoUpdate → Act (List IpInfoUpdate)
unfolding unless_done attempt_or cool_down pure
look_up_from u ctx i [] items = pure items
look_up_from u ctx i (ep ∷ eps) items = unless_done ctx (
    if is_empty ep.provider.ip
    then look_up_from u ctx (i + 1) eps items
    else cool_down u ctx i (
        attempt_or (u.ipinfo.get_ip_info ep.provider.ip) (look_up_from u ctx (i + 1) eps items)
          (λ info. look_up_from u ctx (i + 1) eps (items ++ ip_info_update ep info ∷ []))))

publish_items : Update → Ctx → List IpInfoUpdate → Act (Unit {0})
publish_items u ctx items =
    publish_result u.publisher u.cfg.lookup_ip_info_stream (job_id_from ctx) cycle_lookup_ipinfo
      (lookup_ipinfo (record { items = items }))

look_up_all : Update → Ctx → List ProviderEndpoint → Act (Unit {0})
unfolding ◌>>=◌ wrapping look_up_from publish_items
look_up_all u ctx [] = publish_items u ctx []
look_up_all u ctx (ep ∷ eps) = do
  items ← look_up_from u ctx 0 (ep ∷ eps) []
  wrapping "usecase.update.UpdateIPInfo" (publish_items u ctx items)

unfoldable pub update_ip_info : Update → Ctx → Act (Unit {0})
unfolding ◌>>=◌ look_up_all
update_ip_info u ctx = do endpoints ← u.ipinfo_repo.get_providers_ips; look_up_all u ctx endpoints
