-- ===== src/Checks/Service/Effects.antt =====
-- About the lease and the maintenance window in `record` of
-- src/uptime_platform/checks/service.py.
use uptime_platform.Base.{
  ℕ, ◌≡◌, ◌↔◌, refl, Option, none, some, if◌then◌else◌, inl, inr, Bool-cases, is_none,
}
use uptime_platform.Base.Dict
use uptime_platform.Base.Dict.{Dict, get-put, get-del}
use uptime_platform.Monitors.Entities.{Monitor}
use uptime_platform.Monitors.Repository
use uptime_platform.Monitors.Repository.{lease_lost}
use uptime_platform.Maintenance
use uptime_platform.Maintenance.{MaintenanceWindow}
use uptime_platform.Checks.Entities.{CheckResult}
use uptime_platform.Checks.Repository as CheckRepository
use uptime_platform.Checks.Service.{Store, Draws, settle, record_check}
use uptime_platform.Notifications.Content.{Filters}

module _ (lib : Filters) (s : Store) (monitor_id : ℕ) (result : CheckResult)
    (checked : Option Monitor) (draws : Draws) where
  pub record_check-none :
      (token : Option ℕ)
      → Repository.get_by_id_for_update s.monitors monitor_id none token draws.locked_at ≡ none
      → record_check lib s monitor_id result token checked draws ≡ (s, none)
  unfolding record_check
  record_check-none token e = rw (e, record_check)

  abbrev pub checked_store : Monitor → Store
  checked_store m = record s {
    checks = (CheckRepository.create s.checks m.id result draws.checked_at).0;
  }

  pub record_check-some :
      (token : Option ℕ) (m : Monitor)
      → Repository.get_by_id_for_update s.monitors monitor_id none token draws.locked_at ≡ some m
      → record_check lib s monitor_id result token checked draws ≡ (
        settle lib
            (checked_store m)
            monitor_id
            m
            result
            (Maintenance.get_active s.windows m.id draws.checked_at)
            token
            checked
            draws,
        some (CheckRepository.create s.checks m.id result draws.checked_at).1,
      )
  unfolding record_check
  record_check-some token m e = rw (e, record_check)

  locked_by :
      (token : ℕ)
      → Repository.get_by_id_for_update s.monitors monitor_id none (some token) draws.locked_at ≡ (
          if lease_lost (Dict.get s.monitors.claims monitor_id) token draws.locked_at
          then none
          else Dict.get s.monitors.monitors monitor_id)
  unfolding Repository.get_by_id_for_update
  locked_by token = refl

  -- For a stored monitor, a worker's result is discarded, with nothing returned and nothing
  -- written, exactly when the worker's lease was lost, by expiry, by release or by a claim under
  -- another token.
  pub record_check-fenced :
      (token : ℕ) (m : Monitor)
      → Dict.get s.monitors.monitors monitor_id ≡ some m
      → (is_none (record_check lib s monitor_id result (some token) checked draws).1
          ≡ lease_lost (Dict.get s.monitors.claims monitor_id) token draws.locked_at)
        × ((record_check lib s monitor_id result (some token) checked draws).1 ≡ none
            ↔ record_check lib s monitor_id result (some token) checked draws ≡ (s, none))
  record_check-fenced token m stored =
      elim (Bool-cases (lease_lost (Dict.get s.monitors.claims monitor_id) token draws.locked_at)) [
        | inl lost ↦
            let eq = record_check-none (some token) (rw (locked_by token, lost)) in
            rw (eq, lost) (refl, ((λ _. refl), (λ _. refl)))
        | inr held ↦
            let eq = record_check-some (some token) m (rw (locked_by token, held) stored) in
            rw (eq, held) (refl, ((λ e. cc), (λ e. cc)))
      ]
