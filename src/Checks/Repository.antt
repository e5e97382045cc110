-- ===== src/Checks/Repository.antt =====
-- src/uptime_platform/checks/in_memory_repository.py. The details of a result are not stored.
use uptime_platform.Base.{
  ℕ, ◌+◌, ◌-◌, none, List, [], ◌∷◌, ◌++◌, ◌==◌, if◌then◌else◌, length, filter, drop,
}
use mathlib.Core.List.{reverse}
use uptime_platform.Checks.Entities.{Check, CheckResult}

unfoldable pub create : List Check → (monitor_id : ℕ) → CheckResult → (now : ℕ) → List Check × Check
create checks monitor_id result now =
    let check : Check = record {
      id = length checks + 1;
      monitor_id = monitor_id;
      success = result.success;
      response_time_ms = result.response_time_ms;
      status_code = result.status_code;
      error = result.error;
      checked_at = now;
      details = none;
    } in
    (checks ++ check ∷ [], check)

-- checks[-limit:], where -0 is 0
abbrev last {ℓ} : {A : Type ℓ} → ℕ → List A → List A
last limit xs = if limit == 0 then xs else drop (length xs - limit) xs

unfoldable pub get_by_monitor_id : List Check → (monitor_id limit : ℕ) → List Check
get_by_monitor_id checks monitor_id limit =
    reverse (last limit (filter (λ c. c.monitor_id == monitor_id) checks))
