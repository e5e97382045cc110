-- ===== src/Checks/Service.antt =====
-- src/uptime_platform/checks/service.py: recording a check result, with the maintenance window,
-- the status machine, the incident, the outbox event and the lease.
pub mod Transition
pub mod Consistency
pub mod Effects
pub mod Keyed
pub mod Recordings
pub mod Silence
use uptime_platform.Base.{ℕ, ◌+◌, not, ◌&&◌, Option, none, some, List, if◌then◌else◌, or_else}
use uptime_platform.Base.Dict.{Dict}
use uptime_platform.Base.Time.{seconds}
use uptime_platform.Monitors.Entities.{Monitor, MonitorStatus, is_down, is_up}
use uptime_platform.Monitors.State.{apply_check_result}
use uptime_platform.Monitors.Repository
use uptime_platform.Monitors.Repository.{MonitorRepository}
use uptime_platform.Incidents
use uptime_platform.Incidents.{Incident, opened, resolved}
use uptime_platform.Outbox
use uptime_platform.Outbox.{OutboxEvent, incident_opened, incident_resolved}
use uptime_platform.Maintenance
use uptime_platform.Maintenance.{MaintenanceWindow}
use uptime_platform.Checks.Entities.{Check, CheckResult}
use uptime_platform.Checks.Repository as CheckRepository
use uptime_platform.Notifications.Content.{Filters, IncidentPayload, incident_payload}

-- The repositories that the service holds.
pub record Store : Type 0 where
  pub monitors : MonitorRepository
  pub checks : List Check
  pub incidents : Dict Incident
  pub outbox : Dict (OutboxEvent IncidentPayload)
  pub windows : Dict MaintenanceWindow

-- What one call reads of the clock and of `uuid4`.
pub record Draws : Type 0 where
  pub locked_at : ℕ  -- the clock when the lease is tested
  pub checked_at : ℕ  -- the clock when the check is stored
  pub incident_id : ℕ
  pub event_id : ℕ

-- `if lease_token is not None: await release_check_lease(…)`
abbrev pub release : Store → ℕ → Option ℕ → Store
release s monitor_id none = s
release s monitor_id (some token) = record s {
  monitors = (Repository.release_check_lease s.monitors monitor_id token).0;
}

-- `replace(m, next_check_at=…)` and its `update`.
unfoldable pub reschedule : Store → Monitor → (checked_at : ℕ) → Store
reschedule s m checked_at = record s {
  monitors =
      (Repository.update s.monitors
        (record m { next_check_at = checked_at + seconds m.interval_seconds })).0;
}

module _ (lib : Filters) where
  -- The first branch of `_handle_incident_transition`: the monitor went down.
  unfoldable pub open_incident :
      Store → (monitor_id organization_id : ℕ) → Draws → Monitor → CheckResult → Store
  open_incident s monitor_id organization_id draws shown result =
      let incident : Incident = record {
        id = draws.incident_id;
        monitor_id = monitor_id;
        status = opened;
        started_at = draws.checked_at;
        resolved_at = none;
      } in
      record s {
        incidents = Incidents.create s.incidents incident;
        outbox = Outbox.create s.outbox (record {
          id = draws.event_id;
          organization_id = organization_id;
          event_type = incident_opened;
          payload = incident_payload lib shown incident result;
          created_at = draws.checked_at;
          processed_at = none;
        });
      }

  -- The second branch, once the open incident is found.
  unfoldable pub close_incident :
      Store → Incident → (organization_id : ℕ) → Draws → Monitor → CheckResult → Store
  close_incident s incident organization_id draws shown result =
      let closed = record incident { status = resolved; resolved_at = some draws.checked_at } in
      record s {
        outbox = Outbox.create s.outbox (record {
          id = draws.event_id;
          organization_id = organization_id;
          event_type = incident_resolved;
          payload = incident_payload lib shown closed result;
          created_at = draws.checked_at;
          processed_at = none;
        });
        incidents = (Incidents.update s.incidents closed).0;
      }

  abbrev close_found :
      Store → Option Incident → (organization_id : ℕ) → Draws → Monitor → CheckResult → Store
  close_found s none organization_id draws shown result = s
  close_found s (some incident) organization_id draws shown result =
      close_incident s incident organization_id draws shown result

  unfoldable pub handle_incident_transition :
      Store
      → (previous current : MonitorStatus) (monitor_id organization_id : ℕ) → Draws
      → Monitor
      → CheckResult
      → Store
  unfolding open_incident close_incident
  handle_incident_transition s previous current monitor_id organization_id draws shown result =
      if not (is_down previous) && is_down current
      then open_incident s monitor_id organization_id draws shown result
      else if is_down previous && is_up current
      then close_found s (Incidents.get_open_by_monitor_id s.incidents monitor_id) organization_id
          draws shown result
      else s

  -- The rest of `record` once the monitor is locked and the check is stored.
  unfoldable pub settle :
      Store
      → (monitor_id : ℕ) → Monitor
      → CheckResult
      → Option MaintenanceWindow
      → (lease_token : Option ℕ) → (checked_monitor : Option Monitor) → Draws
      → Store
  unfolding reschedule handle_incident_transition
  settle s monitor_id m result (some window) lease_token checked_monitor draws =
      release (reschedule s m draws.checked_at) monitor_id lease_token
  settle s monitor_id m result none lease_token checked_monitor draws =
      let m' = apply_check_result m result.success in
      release
        (handle_incident_transition (reschedule s m' draws.checked_at) m.status m'.status m.id
          m.organization_id draws (or_else checked_monitor m) result)
        monitor_id lease_token

  unfoldable pub record_check :
      Store
      → (monitor_id : ℕ) → CheckResult
      → (lease_token : Option ℕ) → (checked_monitor : Option Monitor) → Draws
      → Store × Option Check
  record_check s monitor_id result lease_token checked_monitor draws =
      elim (Repository.get_by_id_for_update s.monitors monitor_id none lease_token
        draws.locked_at) [
          | none ↦ (s, none)
          | some m ↦
              let (checks, check) = CheckRepository.create s.checks m.id result draws.checked_at in
              let window = Maintenance.get_active s.windows m.id draws.checked_at in
              (
                settle (record s { checks = checks }) monitor_id m result window lease_token
                    checked_monitor draws,
                some check,
              )
        ]

  -- `run` of the organization's service; `probe` is the result that the checker returns.
  unfoldable pub run :
      Store
      → (organization_id monitor_id : ℕ) (probe : Monitor → CheckResult) → Draws
      → Store × Option Check
  run s organization_id monitor_id probe draws =
      elim (Repository.get_by_id s.monitors monitor_id organization_id) [
        | none ↦ (s, none)
        | some m ↦ record_check s m.id (probe m) none (some m) draws
      ]

unfoldable pub get_history : Store → (organization_id monitor_id limit : ℕ) → Option (List Check)
get_history s organization_id monitor_id limit =
    elim (Repository.get_by_id s.monitors monitor_id organization_id) [
      | none ↦ none
      | some m ↦ some (CheckRepository.get_by_monitor_id s.checks monitor_id limit)
    ]
