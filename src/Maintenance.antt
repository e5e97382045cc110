-- ===== src/Maintenance.antt =====
-- The maintenance package: src/uptime_platform/maintenance/{entities,in_memory_repository}.py.
pub mod Active
pub mod Service
use uptime_platform.Base.{
  ℕ, String, Bool, true, false, not, ◌&&◌, Option, none, some, List, [], ◌∷◌, leb, ltb, ◌==◌,
  if◌then◌else◌, is_none, filter, mem, map,
}
use uptime_platform.Base.Sort.{sort}
use uptime_platform.Base.Dict
use uptime_platform.Base.Dict.{Dict, values}
use uptime_platform.Monitors.Repository
use uptime_platform.Monitors.Repository.{MonitorRepository}

pub record MaintenanceWindow : Type 0 where
  pub id : ℕ
  pub monitor_id : ℕ
  pub starts_at : ℕ
  pub ends_at : ℕ
  pub reason : Option String
  pub created_at : ℕ

unfoldable pub is_active : MaintenanceWindow → ℕ → Bool
is_active w now = leb w.starts_at now && ltb now w.ends_at

unfoldable pub create : Dict MaintenanceWindow → MaintenanceWindow → Dict MaintenanceWindow
create r window = Dict.put r window.id window

unfoldable pub get_by_id : Dict MaintenanceWindow → ℕ → Option MaintenanceWindow
get_by_id r window_id = Dict.get r window_id

unfoldable pub get_all : Dict MaintenanceWindow → List ℕ → List MaintenanceWindow
get_all r monitor_ids =
    sort (λ v w. leb w.starts_at v.starts_at)
      (filter (λ w. mem w.monitor_id monitor_ids) (values r))

-- Python's `max` keeps the first of the greatest.
unfoldable pub latest : MaintenanceWindow → List MaintenanceWindow → MaintenanceWindow
latest best [] = best
latest best (w ∷ ws) = latest (if ltb best.starts_at w.starts_at then w else best) ws

abbrev latest_of : List MaintenanceWindow → Option MaintenanceWindow
latest_of [] = none
latest_of (w ∷ ws) = some (latest w ws)

abbrev pub active_for : ℕ → ℕ → MaintenanceWindow → Bool
active_for monitor_id now w = w.monitor_id == monitor_id && is_active w now

unfoldable pub get_active : Dict MaintenanceWindow → ℕ → ℕ → Option MaintenanceWindow
get_active r monitor_id now = latest_of (filter (active_for monitor_id now) (values r))

unfoldable pub delete : Dict MaintenanceWindow → ℕ → Dict MaintenanceWindow × Bool
delete r window_id =
    if is_none (Dict.get r window_id) then (r, false) else (Dict.del r window_id, true)
