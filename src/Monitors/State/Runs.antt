-- ===== src/Monitors/State/Runs.antt =====
-- About runs of equal results of src/uptime_platform/monitors/state.py.
use uptime_platform.Base.{
  ℕ, zero, suc, ◌+◌, ◌≡◌, ◌≢◌, ◌⊎◌, Bool, true, false, arith, leb, if◌then◌else◌,
}
use uptime_platform.Monitors.Entities.{Monitor, up, down, paused}
use uptime_platform.Monitors.State.{apply_check_result}

-- The monitor after `n` more results that are all `success`.
pub after_run : Monitor → Bool → ℕ → Monitor
after_run m success zero = m
after_run m success (suc n) = after_run (apply_check_result m success) success n

-- After one or more failures in a row of a monitor that is not paused, the count of failures has
-- grown by as many, and the monitor is DOWN if the count has reached the threshold; otherwise its
-- status is what it was.
pub after_failures :
    (m : Monitor) (n : ℕ)
    → m.status ≢ paused
    → ((after_run m false (suc n)).consecutive_failures ≡ m.consecutive_failures + suc n)
      × ((after_run m false (suc n)).status
          ≡ (if leb m.failure_threshold (m.consecutive_failures + suc n) then down else m.status))
unfolding after_run apply_check_result
after_failures m zero h = ground arith
after_failures m (suc n) h = ground (arith, after_failures (apply_check_result m false) n)

-- After one or more successes in a row of a monitor that is DOWN or UP, the count of successes has
-- grown by as many, and the monitor is UP if the count has reached the recovery threshold;
-- otherwise its status is what it was.
pub after_successes :
    (m : Monitor) (n : ℕ)
    → (m.status ≡ down) ⊎ (m.status ≡ up)
    → ((after_run m true (suc n)).consecutive_successes ≡ m.consecutive_successes + suc n)
      × ((after_run m true (suc n)).status
          ≡ (if leb m.recovery_threshold (m.consecutive_successes + suc n) then up else m.status))
unfolding after_run apply_check_result
after_successes m zero h = ground arith
after_successes m (suc n) h = ground (arith, after_successes (apply_check_result m true) n)
