-- ===== src/Examples/Scheduler.antt =====
-- A cycle over one due monitor whose probe is refused.
use uptime_platform.Base.{
  ℕ, ◌≤◌, ◌≡◌, refl, sym, ap, ◌∙◌, true, false, Option, none, some, List, [], ◌∷◌, length, arith,
}
use uptime_platform.Base.Result.{Result, ok, err}
use uptime_platform.Checks.Service.{Store}
use uptime_platform.Base.Waves.{Cycled}
use uptime_platform.Scheduler.{Settings, World, SchedulerError, answered, run_once}
use uptime_platform.Scheduler.Cycle.{IsExpected, run_once_stops}
use uptime_platform.Base.Distinct.{IsDistinct}
use uptime_platform.Scheduler.Attempts.{run_once-attempted}
use uptime_platform.Examples.Data.{one_monitor, refused, filters}

abbrev settings : Settings
settings = record { batch_size = 2; concurrency = 1; lease_grace = 1000 }

abbrev world : World
world = record {
  answers = λ i. true;
  now = λ i. 200;
  uuid4 = λ i j. 40;
  probe = λ i claim. answered refused;
  draws = λ i claim. record { locked_at = 300; checked_at = 400; incident_id = 11; event_id = 12 };
  cleanup = λ i. true;
}

abbrev store : Store
store = record { monitors = one_monitor; checks = []; incidents = []; outbox = []; windows = [] }

run_once_stops_example :
    (out : Result SchedulerError (Cycled Store)) × (run_once filters settings world store
      ≡ some out)
    × IsExpected world out
run_once_stops_example = run_once_stops filters settings world (omega arith) (omega arith) store

-- The first wave checks the monitor, and the second finds none that is due.
abbrev cycled_of : Option (Result SchedulerError (Cycled Store)) → Cycled Store
cycled_of (some (ok out)) = out
cycled_of _ = record { store = store; attempted = []; successful = false }

abbrev cycled : Cycled Store
cycled = cycled_of (run_once filters settings world store)

cycled_ok : run_once filters settings world store ≡ some (ok cycled)
cycled_ok =
    let (out, e, end) = run_once_stops filters settings world (omega arith) (omega arith) store in
    of_end out e end
  where
    of_end :
        (out : Result SchedulerError (Cycled Store))
        → run_once filters settings world store ≡ some out
        → IsExpected world out
        → run_once filters settings world store ≡ some (ok cycled)
    of_end (ok out) e end = e ∙ ap (λ o. some (ok (cycled_of o))) (sym e)
    of_end (err x) e (_, (i, missed)) = cc

run_once-attempted_example : (length cycled.attempted ≤ 2) × IsDistinct cycled.attempted
unfolding uptime_platform.Base.Dict.get
run_once-attempted_example =
    run_once-attempted filters settings world store cycled (refl, refl, tt) cycled_ok
