-- ===== src/Checks/Service/Keyed.antt =====
-- About the monitors that `record` of src/uptime_platform/checks/service.py leaves.
use uptime_platform.Base.{
  ℕ, Option, none, some, Bool-cases, Option-cases, inl, inr, or_else, is_none,
}
use uptime_platform.Base.Dict
use uptime_platform.Base.Dict.{Dict, IsKeyed, put-IsKeyed}
use uptime_platform.Monitors.Entities.{Monitor}
use uptime_platform.Monitors.State.{apply_check_result}
use uptime_platform.Monitors.Repository
use uptime_platform.Monitors.Repository.Leases.{IsWellFormed}
use uptime_platform.Maintenance
use uptime_platform.Maintenance.{MaintenanceWindow}
use uptime_platform.Checks.Entities.{CheckResult}
use uptime_platform.Checks.Repository as CheckRepository
use uptime_platform.Checks.Service.{Store, Draws, reschedule, settle, record_check}
use uptime_platform.Checks.Service.Consistency.{release-monitors}
use uptime_platform.Checks.Service.Transition.{transition-monitors}
use uptime_platform.Notifications.Content.{Filters}

reschedule-IsWellFormed :
    (s : Store) (m : Monitor) (t : ℕ)
    → IsWellFormed s.monitors
    → IsWellFormed (reschedule s m t).monitors
unfolding reschedule Repository.update
reschedule-IsWellFormed s m t h = elim (Bool-cases (is_none (Dict.get s.monitors.monitors m.id))) [
  | inl e ↦ rw e h
  | inr e ↦ rw e (put-IsKeyed (λ m. m.id) s.monitors.monitors _ h)
]

settle-IsWellFormed :
    (lib : Filters) (s : Store) (k : ℕ) (m : Monitor) (result : CheckResult)
    (window : Option MaintenanceWindow) (token : Option ℕ) (checked : Option Monitor)
    (draws : Draws)
    → IsWellFormed s.monitors
    → IsWellFormed (settle lib s k m result window token checked draws).monitors
unfolding settle
settle-IsWellFormed lib s k m result none token checked draws h =
    let m' = apply_check_result m result.success in
    let moved = reschedule s m' draws.checked_at in
    rw
      (
        (release-monitors _ k token).0,
        transition-monitors lib moved m.id m.organization_id draws (or_else checked m) result
            m.status m'.status,
      )
      (reschedule-IsWellFormed s m' draws.checked_at h)
settle-IsWellFormed lib s k m result (some w) token checked draws h =
    rw ((release-monitors (reschedule s m draws.checked_at) k token).0)
      (reschedule-IsWellFormed s m draws.checked_at h)

-- Recording a result keeps each monitor under its identifier.
pub record_check-IsWellFormed :
    (lib : Filters) (s : Store) (k : ℕ) (result : CheckResult) (token : Option ℕ)
    (checked : Option Monitor) (draws : Draws)
    → IsWellFormed s.monitors
    → IsWellFormed (record_check lib s k result token checked draws).0.monitors
unfolding record_check
record_check-IsWellFormed lib s k result token checked draws h =
    elim (Option-cases (Repository.get_by_id_for_update s.monitors k none token draws.locked_at)) [
      | inl e ↦ rw (e, record_check) h
      | inr (m, e) ↦
          rw (e, record_check)
            (settle-IsWellFormed lib
              (record s {
                checks = (CheckRepository.create s.checks m.id result draws.checked_at).0;
              })
              k m result (Maintenance.get_active s.windows m.id draws.checked_at) token checked
              draws h)
    ]
