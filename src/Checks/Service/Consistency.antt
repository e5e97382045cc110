-- ===== src/Checks/Service/Consistency.antt =====
-- About monitors and their incidents in `record` of src/uptime_platform/checks/service.py.
use mathlib.Core.Path.{subst}
use uptime_platform.Base.{
  count, ℕ, ◌+◌, ◌≡◌, ◌⊎◌, refl, Bool, Option, none, some, if◌then◌else◌, ◌==◌, bit, arith, inl,
  inr, Option-cases, or_else, ap, sym, ◌∙◌,
}
use uptime_platform.Base.Dict
use uptime_platform.Base.Dict.{put-IsKeyed_at, values, Dict, IsKeyed, get-put, get-id, put-IsKeyed}
use uptime_platform.Base.Time.{seconds}
use uptime_platform.Monitors.Entities.{Monitor, is_down, up, down}
use uptime_platform.Monitors.State.{apply_check_result}
use uptime_platform.Monitors.Repository
use uptime_platform.Incidents.{open_for}
use uptime_platform.Maintenance
use uptime_platform.Maintenance.{MaintenanceWindow}
use uptime_platform.Checks.Repository as CheckRepository
use uptime_platform.Checks.Entities.{CheckResult}
use uptime_platform.Checks.Service.{
  release, Store, Draws, handle_incident_transition, reschedule, settle, record_check,
}
use uptime_platform.Checks.Service.Transition.{
  transition-monitors, transition-IsKeyed, open_count, transition-count,
}
use uptime_platform.Notifications.Content.{Filters}

-- A stored monitor has one open incident if it is down, and none otherwise.
pub record IsConsistent (s : Store) : Type 0 where
  pub keyed_monitors : IsKeyed (λ m. m.id) s.monitors.monitors
  pub keyed_incidents : IsKeyed (λ i. i.id) s.incidents
  pub one_open :
      (k : ℕ) (m : Monitor)
      → Dict.get s.monitors.monitors k ≡ some m
      → open_count s k ≡ bit (is_down m.status)

machine_edge :
    (m : Monitor) (success : Bool)
    → (m.status ≡ down
        → ((apply_check_result m success).status ≡ down)
          ⊎ ((apply_check_result m success).status ≡ up))
unfolding apply_check_result
machine_edge m success = ground arith

id-apply_check_result : (m : Monitor) (success : Bool) → (apply_check_result m success).id ≡ m.id
unfolding apply_check_result
id-apply_check_result m success = ground arith

pub release-monitors :
    (s : Store) (k : ℕ) (token : Option ℕ)
    → ((release s k token).monitors.monitors ≡ s.monitors.monitors)
      × ((release s k token).incidents ≡ s.incidents)
      × ((release s k token).outbox ≡ s.outbox)
      × ((release s k token).checks ≡ s.checks)
unfolding Repository.release_check_lease
release-monitors s k token = (ground arith, ground arith, ground arith, ground arith)

abbrev pub rescheduled : Monitor → ℕ → Monitor
rescheduled m t = record m { next_check_at = t + seconds m.interval_seconds }

pub reschedule-monitors :
    (s : Store) (m x : Monitor) (k t : ℕ)
    → m.id ≡ k
    → Dict.get s.monitors.monitors k ≡ some x
    → ((reschedule s m t).monitors.monitors ≡ Dict.put s.monitors.monitors k (rescheduled m t))
      × ((reschedule s m t).incidents ≡ s.incidents)
unfolding reschedule Repository.update
reschedule-monitors s m x k t e h = (ground arith, refl)

-- What a recorded result leaves of the monitor: the machine's step, unless a window is running.
abbrev pub stepped : Monitor → CheckResult → Option MaintenanceWindow → Monitor
stepped m result none = apply_check_result m result.success
stepped m result (some _) = m

module _ (lib : Filters) (s : Store) (monitor_id : ℕ) (m : Monitor) (result : CheckResult)
    (lease_token : Option ℕ) (checked : Option Monitor) (draws : Draws) (inv : IsConsistent s)
    (stored : Dict.get s.monitors.monitors monitor_id ≡ some m)
    (fresh : Dict.get s.incidents draws.incident_id ≡ none) where
  abbrev settled : Option MaintenanceWindow → Store
  settled window = settle lib s monitor_id m result window lease_token checked draws

  id_eq : m.id ≡ monitor_id
  id_eq = get-id (λ m. m.id) s.monitors.monitors inv.keyed_monitors stored

  -- The store after the monitor's write, before the incidents.
  abbrev moved : Option MaintenanceWindow → Store
  moved window = reschedule s (stepped m result window) draws.checked_at

  moved-frame :
      (window : Option MaintenanceWindow)
      → ((moved window).monitors.monitors
          ≡ Dict.put s.monitors.monitors monitor_id
              (rescheduled (stepped m result window) draws.checked_at))
        × ((moved window).incidents ≡ s.incidents)
  moved-frame none =
      reschedule-monitors s (apply_check_result m result.success) m monitor_id draws.checked_at
        (id-apply_check_result m result.success ∙ id_eq) stored
  moved-frame (some w) = reschedule-monitors s m m monitor_id draws.checked_at id_eq stored

  abbrev transitioned : Store
  transitioned =
      handle_incident_transition lib (moved none) m.status
        (apply_check_result m result.success).status m.id m.organization_id draws
        (or_else checked m) result

  settled-monitors :
      (window : Option MaintenanceWindow)
      → (settled window).monitors.monitors
        ≡ Dict.put s.monitors.monitors monitor_id
            (rescheduled (stepped m result window) draws.checked_at)
  unfolding settle
  settled-monitors none =
      (release-monitors transitioned monitor_id lease_token).0
      ∙ ap (λ r. r.monitors)
          (transition-monitors lib (moved none) m.id m.organization_id draws (or_else checked m)
            result m.status (apply_check_result m result.success).status)
      ∙ (moved-frame none).0
  settled-monitors (some w) =
      (release-monitors (moved (some w)) monitor_id lease_token).0 ∙ (moved-frame (some w)).0

  settled-IsKeyed :
      (window : Option MaintenanceWindow) → IsKeyed (λ i. i.id) (settled window).incidents
  unfolding settle
  settled-IsKeyed none = rw ((release-monitors transitioned monitor_id lease_token).1) (
      transition-IsKeyed lib (moved none) m.id m.organization_id draws (or_else checked m) result
        m.status (apply_check_result m result.success).status
        (rw ((moved-frame none).1) inv.keyed_incidents))
  settled-IsKeyed (some w) =
      rw ((release-monitors (moved (some w)) monitor_id lease_token).1)
        (rw ((moved-frame (some w)).1) inv.keyed_incidents)

  settled-count :
      (window : Option MaintenanceWindow) (j : ℕ)
      → open_count (settled window) j ≡ (
          if monitor_id == j
          then bit (is_down (stepped m result window).status)
          else open_count s j)
  unfolding settle
  settled-count none j =
      let told =
        transition-count lib (moved none) m.id m.organization_id draws (or_else checked m) result
          m.status (apply_check_result m result.success).status inv.keyed_incidents fresh
          (machine_edge m result.success)
          (subst (λ k. open_count s k ≡ bit (is_down m.status)) (sym id_eq)
            (inv.one_open monitor_id m stored))
          j in
      ground (
        arith,
        ap (λ d. count (open_for j) (values d))
            ((release-monitors transitioned monitor_id lease_token).1),
        told,
        id_eq,
      )
  settled-count (some w) j = ground (
    arith,
    ap (λ d. count (open_for j) (values d))
        ((release-monitors (moved (some w)) monitor_id lease_token).1),
    inv.one_open monitor_id m stored,
    id_eq,
  )

  stepped_id : (window : Option MaintenanceWindow) → (stepped m result window).id ≡ monitor_id
  stepped_id none = id-apply_check_result m result.success ∙ id_eq
  stepped_id (some w) = id_eq

  settled-IsConsistent : (window : Option MaintenanceWindow) → IsConsistent (settled window)
  settled-IsConsistent window = record {
    keyed_monitors = rw (settled-monitors window) (
        put-IsKeyed_at (λ m. m.id) s.monitors.monitors monitor_id _ (stepped_id window)
          inv.keyed_monitors);
    keyed_incidents = settled-IsKeyed window;
    one_open = λ k x e. ground (
      arith,
      settled-count window k,
      settled-monitors window,
      get-put s.monitors.monitors monitor_id k
          (rescheduled (stepped m result window) draws.checked_at),
      inv.one_open k x,
    );
  }

stored_of_lock :
    (r : Repository.MonitorRepository) (k : ℕ) (token : Option ℕ) (now : ℕ) (m : Monitor)
    → Repository.get_by_id_for_update r k none token now ≡ some m
    → Dict.get r.monitors k ≡ some m
unfolding Repository.get_by_id_for_update
stored_of_lock r k token now m h = ground arith

-- Recording a result, with or without a lease, in or out of a maintenance window, keeps the store
-- consistent: monitors and incidents stand under their identifiers, and every stored monitor has
-- one open incident while it is DOWN and none otherwise; the identifier drawn for a new incident
-- is assumed unused.
pub record_check-IsConsistent :
    (lib : Filters) (s : Store) (monitor_id : ℕ) (result : CheckResult) (lease_token : Option ℕ)
    (checked : Option Monitor) (draws : Draws)
    → IsConsistent s
    → Dict.get s.incidents draws.incident_id ≡ none
    → IsConsistent (record_check lib s monitor_id result lease_token checked draws).0
unfolding record_check
record_check-IsConsistent lib s k result token checked draws inv fresh =
    elim (Option-cases (Repository.get_by_id_for_update s.monitors k none token draws.locked_at)) [
      | inl e ↦ rw (e, record_check) inv
      | inr (m, e) ↦
          rw (e, record_check)
            (settled-IsConsistent lib
              (record s {
                checks = (CheckRepository.create s.checks m.id result draws.checked_at).0;
              })
              k m result token checked draws
              (record {
                keyed_monitors = inv.keyed_monitors;
                keyed_incidents = inv.keyed_incidents;
                one_open = inv.one_open;
              })
              (stored_of_lock s.monitors k token draws.locked_at m e) fresh
              (Maintenance.get_active s.windows m.id draws.checked_at))
    ]
