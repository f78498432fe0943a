-- ===== src/Discovery/NewProviders.antt =====
-- `CollectNewProviders`: the scan_master cycle of internal/usecase/discovery/discovery.go.
use mytonprovider_agent.Common.{
  ℕ, Bool, not, List, [], ◌∷◌, ltb, if◌then◌else◌, length, select, Text,
}
pub mod Checkpoint
use mytonprovider_agent.Common.Dict.{Dict, insert, has}
use mytonprovider_agent.Domain.{Provider}
use mytonprovider_agent.Jobs.{Ctx, job_id_from, scan_master, cycle_scan_master}
use mytonprovider_agent.World.{Act, pure, attempt, ◌>>=◌, ◌>>◌}
use mytonprovider_agent.Strings.{to_lower}
use mytonprovider_agent.Publisher.{publish_result}
use mytonprovider_agent.Discovery.{Discovery}

-- `known[strings.ToLower(pk)] = struct{}{}` for every known key
pub known_set : List Text → Dict (Unit {0})
known_set [] = []
known_set (pk ∷ pks) = insert (to_lower pk) tt (known_set pks)

pub is_new : Dict (Unit {0}) → Provider → Bool
is_new known p = not (has (to_lower p.public_key) known)

unfoldable pub select_new : List Text → List Provider → List Provider
unfolding known_set is_new
select_new known_pubkeys scanned = select (is_new (known_set known_pubkeys)) scanned

unfoldable pub advance_master_lt : Discovery → ℕ → ℕ → Act (Unit {0})
advance_master_lt d from_lt last_lt =
    if ltb from_lt last_lt
    then (attempt (d.system_repo.set_master_wallet_lt last_lt) >>= λ _. pure tt)
    else pure tt

unfoldable pub collect_new_providers : Discovery → Ctx → Act (Unit {0})
unfolding advance_master_lt ◌>>=◌
collect_new_providers d ctx = do
  from_lt ← d.system_repo.get_master_wallet_lt
  known_pubkeys ← d.provider_repo.get_all_pubkeys
  found ← d.master_scanner.scan d.cfg.master_addr from_lt
  publish_result d.publisher d.cfg.scan_master_stream (job_id_from ctx) cycle_scan_master (
      scan_master (record {
        new_providers = select_new known_pubkeys found.0;
        last_lt = found.1;
        scanned_count = length found.0;
      }))
  advance_master_lt d from_lt found.1
