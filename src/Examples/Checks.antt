-- ===== src/Examples/Checks.antt =====
-- The recording of a check at concrete stores.
use uptime_platform.Base.{◌≡◌, ◌↔◌, refl, none, some, [], ◌∷◌, arith, is_none, count, List}
use uptime_platform.Base.Dict
use uptime_platform.Monitors.Repository.{lease_lost}
use uptime_platform.Maintenance.{MaintenanceWindow}
use uptime_platform.Checks.Service.{Store, Draws, record_check}
use uptime_platform.Checks.Service.Consistency.{IsConsistent, record_check-IsConsistent}
use uptime_platform.Checks.Service.Effects.{record_check-fenced}
use uptime_platform.Checks.Service.Recordings.{Recording, Answered, present}
use uptime_platform.Checks.Service.Silence.{Silenced, record_each, record_each-Silenced}
use uptime_platform.Examples.Data.{api, api_claim, claimed_monitor, refused, filters}

abbrev quiet : Store
quiet = record {
  monitors = claimed_monitor;
  checks = [];
  incidents = [];
  outbox = [];
  windows = [];
}

abbrev window : MaintenanceWindow
window = record {
  id = 5;
  monitor_id = 1;
  starts_at = 0;
  ends_at = 9000000;
  reason = none;
  created_at = 0;
}

abbrev in_window : Store
in_window = record quiet { windows = (5, window) ∷ [] }

abbrev draws : Draws
draws = record { locked_at = 200; checked_at = 300; incident_id = 11; event_id = 12 }

quiet-IsConsistent : IsConsistent quiet
unfolding Dict.get count
quiet-IsConsistent = record {
  keyed_monitors = (refl, refl, tt);
  keyed_incidents = tt;
  one_open = λ k m e. ground arith;
}

record_check-IsConsistent_example :
    IsConsistent (record_check filters quiet 1 refused (some 40) none draws).0
unfolding Dict.get
record_check-IsConsistent_example =
    record_check-IsConsistent filters quiet 1 refused (some 40) none draws quiet-IsConsistent refl

record_check-fenced_example :
    (is_none (record_check filters quiet 1 refused (some 41) none draws).1
      ≡ lease_lost (some api_claim) 41 200)
    × ((record_check filters quiet 1 refused (some 41) none draws).1 ≡ none
        ↔ record_check filters quiet 1 refused (some 41) none draws ≡ (quiet, none))
unfolding Dict.get
record_check-fenced_example = record_check-fenced filters quiet 1 refused none draws 41 api refl

-- A result without a lease, and one of a worker whose lease was lost.
abbrev recordings : List Recording
recordings =
    record { monitor_id = 1; result = refused; lease_token = none; checked = none; draws = draws }
    ∷ record {
      monitor_id = 1;
      result = refused;
      lease_token = some 41;
      checked = none;
      draws = draws;
    }
    ∷ []

record_each-Silenced_example :
    Silenced filters in_window
      (record_each filters recordings in_window).0
      (present (record_each filters recordings in_window).1)
    × Answered in_window.monitors.monitors recordings (record_each filters recordings in_window).1
unfolding Dict.get uptime_platform.Maintenance.get_active uptime_platform.Base.filter
    uptime_platform.Maintenance.is_active uptime_platform.Maintenance.latest
record_each-Silenced_example =
    record_each-Silenced filters recordings in_window (refl, refl, tt)
      ((window, refl), ((window, refl), tt))
