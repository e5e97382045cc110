-- ===== src/Monitors/State.antt =====
-- src/uptime_platform/monitors/state.py: the status machine that one check result drives.
pub mod Runs
use uptime_platform.Base.{
  ℕ, ◌+◌, ◌≤◌, ◌<◌, ◌≡◌, ◌⊎◌, Bool, true, false, ◌&&◌, ◌||◌, List, [], ◌∷◌, arith, leb,
  if◌then◌else◌,
}
use uptime_platform.Monitors.Entities.{
  Monitor, MonitorStatus, pending, up, down, paused, is_paused, is_pending, is_down,
}

unfoldable pub apply_check_result : Monitor → Bool → Monitor
apply_check_result m success =
    if is_paused m.status
    then m
    else if success
    then record m {
      status =
          if is_pending m.status
            || (is_down m.status && leb m.recovery_threshold (m.consecutive_successes + 1))
          then up
          else m.status;
      consecutive_failures = 0;
      consecutive_successes = m.consecutive_successes + 1;
    }
    else record m {
      status = if leb m.failure_threshold (m.consecutive_failures + 1) then down else m.status;
      consecutive_failures = m.consecutive_failures + 1;
      consecutive_successes = 0;
    }

-- Thresholds are positive (the schemas demand it), one of the two runs is empty, and no run has
-- reached the threshold that would have changed the status.
pub record IsValid (m : Monitor) : Type 0 where
  pub failure_positive : 1 ≤ m.failure_threshold
  pub recovery_positive : 1 ≤ m.recovery_threshold
  pub one_run : (m.consecutive_failures ≡ 0) ⊎ (m.consecutive_successes ≡ 0)
  pub pending_run : m.status ≡ pending → m.consecutive_successes ≡ 0
  pub alive_run :
      (m.status ≡ pending) ⊎ (m.status ≡ up) → m.consecutive_failures < m.failure_threshold
  pub down_run : m.status ≡ down → m.consecutive_successes < m.recovery_threshold

-- Every check result keeps a valid monitor valid: its thresholds are positive, one of its two runs
-- is empty, and no run has reached the threshold that would have changed the status.
pub apply_check_result-IsValid :
    (m : Monitor) (success : Bool) → IsValid m → IsValid (apply_check_result m success)
unfolding apply_check_result
apply_check_result-IsValid m success v = ground arith

-- The edges of the status machine, with the result that drives each.
pub data Edge : MonitorStatus → Bool → MonitorStatus → Type 0 where
  stay : (s : MonitorStatus) (success : Bool) → Edge s success s
  start : Edge pending true up
  recover : Edge down true up
  fail : Edge pending false down
  break : Edge up false down

-- Whatever the monitor and the result, the status stays as it is, or goes to UP by a success from
-- PENDING or DOWN, or to DOWN by a failure from PENDING or UP.
pub apply_check_result-Edge :
    (m : Monitor) (success : Bool) → Edge m.status success (apply_check_result m success).status
unfolding apply_check_result
apply_check_result-Edge m success = grind (arith, stay, start, recover, fail, break)
