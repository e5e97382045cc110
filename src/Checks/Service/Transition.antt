-- ===== src/Checks/Service/Transition.antt =====
-- About `_handle_incident_transition` of src/uptime_platform/checks/service.py.
use uptime_platform.Base.{
  ℕ, ◌+◌, ◌≡◌, ◌⊎◌, refl, not, ◌&&◌, Option, none, some, if◌then◌else◌, ◌==◌, bit, count, arith,
  inl, inr, Bool-cases, Option-cases,
}
use uptime_platform.Base.Dict
use uptime_platform.Base.Dict.{Dict, values, IsKeyed, tally, count-put, put-IsKeyed, get-find?}
use uptime_platform.Monitors.Entities.{Monitor, MonitorStatus, is_down, is_up, up, down}
use uptime_platform.Incidents
use uptime_platform.Incidents.{Incident, open_for, opened, resolved}
use uptime_platform.Incidents.Counts.{
  count-put_opened, count-put_resolved, get_open_by_monitor_id-stored, get_open_by_monitor_id-none,
  update-IsKeyed,
}
use uptime_platform.Checks.Entities.{CheckResult}
use uptime_platform.Checks.Service.{
  Store, Draws, open_incident, close_incident, close_found, handle_incident_transition,
}
use uptime_platform.Notifications.Content.{Filters}

abbrev pub open_count : Store → ℕ → ℕ
open_count s k = count (open_for k) (values s.incidents)

module _ (lib : Filters) (s : Store) (k organization_id : ℕ) (draws : Draws) (shown : Monitor)
    (result : CheckResult) where
  open_incident-count :
      Dict.get s.incidents draws.incident_id ≡ none
      → (j : ℕ)
      → open_count (open_incident lib s k organization_id draws shown result) j
        ≡ open_count s j + bit (k == j)
  unfolding open_incident Incidents.create
  open_incident-count fresh j = count-put_opened s.incidents _ j fresh refl

  close_incident-count :
      (i : Incident)
      → IsKeyed (λ i. i.id) s.incidents
      → Incidents.get_open_by_monitor_id s.incidents k ≡ some i
      → (j : ℕ)
      → open_count (close_incident lib s i organization_id draws shown result) j + bit (k == j)
        ≡ open_count s j
  unfolding close_incident Incidents.update Incidents.get_open_by_monitor_id
  close_incident-count i keyed found j =
      let (stored, named, is_opened) = get_open_by_monitor_id-stored s.incidents k i keyed found in
      rw (← named, stored) (count-put_resolved s.incidents i _ j stored is_opened refl)

  -- Whatever the two statuses, if the count of the monitor's open incidents told the previous
  -- status then it tells the current one, and no other monitor's count moves.
  pub transition-count :
      (previous current : MonitorStatus)
      → IsKeyed (λ i. i.id) s.incidents
      → Dict.get s.incidents draws.incident_id ≡ none
      → (previous ≡ down → (current ≡ down) ⊎ (current ≡ up))
      → open_count s k ≡ bit (is_down previous)
      → (j : ℕ)
      → open_count
          (handle_incident_transition lib s previous current k organization_id draws shown result)
          j
        ≡ (if k == j then bit (is_down current) else open_count s j)
  unfolding handle_incident_transition
  transition-count previous current keyed fresh edge told j =
      elim (Option-cases (Incidents.get_open_by_monitor_id s.incidents k)) [
        | inl e ↦ rw e (
            ground
              (arith, get_open_by_monitor_id-none s.incidents k e, open_incident-count fresh j))
        | inr (i, e) ↦
            rw e (ground (arith, close_incident-count i keyed e j, open_incident-count fresh j))
      ]

  pub transition-monitors :
      (previous current : MonitorStatus)
      → (handle_incident_transition lib s previous current k organization_id draws shown
          result).monitors
        ≡ s.monitors
  unfolding handle_incident_transition
  transition-monitors previous current = ground arith

  close_found-IsKeyed :
      (found : Option Incident)
      → IsKeyed (λ i. i.id) s.incidents
      → IsKeyed (λ i. i.id) (close_found lib s found organization_id draws shown result).incidents
  unfolding close_incident
  close_found-IsKeyed none h = h
  close_found-IsKeyed (some i) h = update-IsKeyed s.incidents _ h

  pub transition-IsKeyed :
      (previous current : MonitorStatus)
      → IsKeyed (λ i. i.id) s.incidents
      → IsKeyed
          (λ i. i.id)
          (handle_incident_transition lib s previous current k organization_id draws shown
            result).incidents
  unfolding handle_incident_transition Incidents.create
  transition-IsKeyed previous current h =
      elim (Bool-cases (not (is_down previous) && is_down current)) [
        | inl e ↦ rw e (put-IsKeyed (λ i. i.id) s.incidents _ h)
        | inr e ↦ rw e (elim (Bool-cases (is_down previous && is_up current)) [
          | inl e' ↦ rw e' (close_found-IsKeyed (Incidents.get_open_by_monitor_id s.incidents k) h)
          | inr e' ↦ rw e' h
        ])
      ]
