-- ===== src/Incidents.antt =====
-- The incidents package: src/uptime_platform/incidents/{entities,in_memory_repository,service}.py.
pub mod Counts
pub mod Service
use uptime_platform.Base.{
  ℕ, Bool, true, false, ◌&&◌, Option, none, some, List, leb, ◌==◌, if◌then◌else◌, is_none, filter,
  find?, take, mem,
}
use uptime_platform.Base.Sort.{sort}
use uptime_platform.Base.Dict
use uptime_platform.Base.Dict.{Dict, values}

pub data IncidentStatus : Type 0 where
  opened resolved : IncidentStatus

pub record Incident : Type 0 where
  pub id : ℕ
  pub monitor_id : ℕ
  pub status : IncidentStatus
  pub started_at : ℕ
  pub resolved_at : Option ℕ

abbrev pub is_open : IncidentStatus → Bool
is_open opened = true
is_open resolved = false

-- `incident.status is status`
abbrev pub has_status : IncidentStatus → IncidentStatus → Bool
has_status opened s = is_open s
has_status resolved opened = false
has_status resolved resolved = true

abbrev pub IncidentRepository : Type 0
IncidentRepository = Dict Incident

unfoldable pub create : IncidentRepository → Incident → IncidentRepository
create r incident = Dict.put r incident.id incident

unfoldable pub get_by_id : IncidentRepository → ℕ → Option Incident
get_by_id r incident_id = Dict.get r incident_id

-- The test of the loop in `get_open_by_monitor_id`.
abbrev pub open_for : ℕ → Incident → Bool
open_for monitor_id i = i.monitor_id == monitor_id && is_open i.status

unfoldable pub get_open_by_monitor_id : IncidentRepository → ℕ → Option Incident
get_open_by_monitor_id r monitor_id = find? (open_for monitor_id) (values r)

abbrev newest_first : Incident → Incident → Bool
newest_first i j = leb j.started_at i.started_at

abbrev with_status : Option IncidentStatus → List Incident → List Incident
with_status none incidents = incidents
with_status (some status) incidents = filter (λ i. has_status i.status status) incidents

unfoldable pub get_all :
    IncidentRepository
    → Option IncidentStatus
    → (monitor_ids : List ℕ) → (limit : ℕ) → List Incident
get_all r status monitor_ids limit =
    take limit (
      sort newest_first
        (with_status status (filter (λ i. mem i.monitor_id monitor_ids) (values r))))

unfoldable pub update : IncidentRepository → Incident → IncidentRepository × Option Incident
update r incident =
    if is_none (Dict.get r incident.id)
    then (r, none)
    else (Dict.put r incident.id incident, some incident)

unfoldable pub get_by_monitor_id : IncidentRepository → ℕ → ℕ → List Incident
get_by_monitor_id r monitor_id limit =
    take limit (sort newest_first (filter (λ i. i.monitor_id == monitor_id) (values r)))
