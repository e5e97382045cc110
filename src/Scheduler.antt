-- ===== src/Scheduler.antt =====
-- src/uptime_platform/scheduler/scheduler.py: one cycle of the scheduler, in waves of claims. What
-- the network answers, the clock and the identifiers that are drawn are the fields of `World`; the
-- recordings of a wave, each one transaction, stand in the order of its claims.
pub mod Cycle
pub mod Attempts
use uptime_platform.Base.{
  ℕ, zero, suc, ◌-◌, min, Bool, true, false, not, ◌&&◌, Option, none, some, List, [], ◌∷◌, ◌++◌,
  map, ltb, is_none, length, if◌then◌else◌,
}
use uptime_platform.Base.Result.{Result, ok, err, ValueError}
use uptime_platform.Base.Waves.{Cycled, waves}
use uptime_platform.Monitors.Entities.{MonitorClaim}
use uptime_platform.Monitors.Repository
use uptime_platform.Monitors.Repository.{MonitorRepository}
use uptime_platform.Checks.Entities.{Check, CheckResult}
use uptime_platform.Checks.Service.{Store, Draws, record_check}
use uptime_platform.Notifications.Content.{Filters}

-- The limits of the constructor; the grace is a duration.
pub record Settings : Type 0 where
  pub batch_size : ℕ
  pub concurrency : ℕ
  pub lease_grace : ℕ

-- How a probe ended: with a result, by the monitor's timeout after so long, or by an exception.
pub data Probed : Type 0 where
  answered : CheckResult → Probed
  timed_out : (response_time_ms : ℕ) → Probed
  crashed : Probed

-- An exception that ends a cycle: of the repository, or of a claim's transaction that failed or took
-- longer than the grace.
pub data SchedulerError : Type 0 where
  invalid : SchedulerError
  database : SchedulerError

-- What the waves of one cycle meet, by the number of the wave.
pub record World : Type 0 where
  pub answers : ℕ → Bool  -- the wave's claim went through in time
  pub now : ℕ → ℕ  -- the clock when the wave is claimed
  pub uuid4 : ℕ → ℕ → ℕ  -- the tokens that the wave draws
  pub probe : ℕ → MonitorClaim → Probed
  pub draws : ℕ → MonitorClaim → Draws
  pub cleanup : ℕ → Bool  -- the cleanup's transaction went through

-- The result that a TimeoutError becomes.
abbrev pub timeout_result : ℕ → CheckResult
timeout_result response_time_ms = record {
  success = false;
  response_time_ms = response_time_ms;
  status_code = none;
  error = some "Check exceeded its total timeout";
  details = none;
}

abbrev pub ids : List MonitorClaim → List ℕ
ids claims = map (λ c. c.monitor.id) claims

module _ (lib : Filters) where
  abbrev pub record_result : Store → MonitorClaim → CheckResult → Draws → Store × Bool
  record_result s claim result draws =
      let (s', check) =
        record_check lib s claim.monitor.id result (some claim.token) (some claim.monitor) draws in
      (s', not (is_none check))

  unfoldable pub check_monitor : Store → MonitorClaim → Probed → Draws → Store × Bool
  check_monitor s claim (answered result) draws = record_result s claim result draws
  check_monitor s claim (timed_out ms) draws = record_result s claim (timeout_result ms) draws
  check_monitor s claim crashed draws = (s, false)

  -- The task group of one wave: whether all its checks were recorded.
  unfoldable pub check_wave : World → ℕ → List MonitorClaim → Store → Store × Bool
  check_wave world i [] s = (s, true)
  check_wave world i (claim ∷ claims) s =
      let (s', done) = check_monitor s claim (world.probe i claim) (world.draws i claim) in
      let (s'', rest) = check_wave world i claims s' in (s'', done && rest)

  unfoldable pub release_each : List MonitorClaim → MonitorRepository → MonitorRepository
  release_each [] r = r
  release_each (claim ∷ claims) r =
      release_each claims (Repository.release_check_lease r claim.monitor.id claim.token).0

  -- `_release_claims`: a cleanup that fails rolls back.
  unfoldable pub release_claims : Bool → List MonitorClaim → Store → Store × Bool
  unfolding release_each
  release_claims true claims s = (record s { monitors = release_each claims s.monitors }, true)
  release_claims false claims s = (s, false)

  -- The store after a wave and its cleanup, and whether both went well.
  unfoldable pub run_wave : World → ℕ → List MonitorClaim → Store → Store × Bool
  run_wave world i claims s =
      let (s', done) = check_wave world i claims s in
      let (s'', released) = release_claims (world.cleanup i) claims s' in (s'', done && released)

  module _ (self : Settings) (world : World) where
    abbrev claimed :
        Store
        → Result ValueError (MonitorRepository × List MonitorClaim)
        → Result SchedulerError (Store × List MonitorClaim)
    claimed s (ok (r, claims)) = ok (record s { monitors = r }, claims)
    claimed s (err e) = err invalid

    -- The store with the claims, and the claims of the wave. A transaction that fails writes
    -- nothing, and its exception ends the cycle.
    unfoldable pub claim_monitors :
        (i : ℕ) (attempted : List ℕ) → Store → Result SchedulerError (Store × List MonitorClaim)
    claim_monitors i attempted s =
        if world.answers i
        then claimed s (
            Repository.claim_due s.monitors
              (min self.concurrency (self.batch_size - length attempted)) self.lease_grace attempted
              (world.now i) (world.uuid4 i))
        else err database

    -- The fuel is one wave for each place of the batch and one more.
    unfoldable pub run_once : Store → Option (Result SchedulerError (Cycled Store))
    unfolding claim_monitors run_wave
    run_once s =
        waves self.batch_size (λ claim. claim.monitor.id) claim_monitors (run_wave world)
          (suc self.batch_size) 0 [] true s
