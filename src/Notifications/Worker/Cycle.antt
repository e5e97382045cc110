-- ===== src/Notifications/Worker/Cycle.antt =====
-- About the end of `run_once` of src/uptime_platform/notifications/worker.py.
use uptime_platform.Base.{
  ap, refl, Option, ℕ, ◌+◌, ◌*◌, ◌-◌, ◌≤◌, ◌<◌, ◌≡◌, min, true, take, [], some, List, length, arith,
}
use uptime_platform.Base.Time.{seconds}
use uptime_platform.Base.Result.{Result, ok, err}
use uptime_platform.Base.Waves.{Cycled, IsEnd, waves_stop}
use uptime_platform.Base.Dict.{Dict}
use uptime_platform.Notifications.Entities.{NotificationDelivery}
use uptime_platform.Notifications.Deliveries
use uptime_platform.Notifications.Service.{FanoutStore}
use uptime_platform.Notifications.Worker.{
  Arguments, NotificationWorker, init, WorkerError, database, World, run_wave, claim_deliveries,
  fan_out_pending_events, run_once, counted, deliver, waves_of,
}

-- The settings of a worker that the constructor has accepted.
pub record IsPositive (self : NotificationWorker) : Type 0 where
  pub batch_size : 1 ≤ self.arguments.batch_size
  pub concurrency : 1 ≤ self.arguments.concurrency
  pub max_attempts : 1 ≤ self.arguments.max_attempts
  pub lease : 1 ≤ self.lease
  pub enough :
      self.arguments.notification_timeout + 3 * self.arguments.database_timeout + seconds 1
      ≤ self.lease
  pub timeout : 1 ≤ self.arguments.notification_timeout

pub init-IsPositive :
    (a : Arguments) (self : NotificationWorker) → init a ≡ ok self → IsPositive self
unfolding init
init-IsPositive a self h = record {
  batch_size = ground arith;
  concurrency = ground arith;
  max_attempts = ground arith;
  lease = ground arith;
  enough = ground arith;
  timeout = ground arith;
}

-- The ends of a cycle: a result, or a database that did not answer.
abbrev pub IsExpected : {A : Type 0} → Result WorkerError A → Type 0
IsExpected (ok out) = Unit
IsExpected (err e) = e ≡ database

counted-IsExpected :
    {S : Type 0} (n : ℕ) (x : Option (Result WorkerError (Cycled S)))
    (out : Result WorkerError (Cycled S))
    → x ≡ some out
    → IsEnd (λ e. e ≡ database) out
    → (out : Result WorkerError (ℕ × Cycled S)) × (counted n x ≡ some out) × IsExpected out
counted-IsExpected n x (ok out) e h = (ok (n, out), ap (counted n) e, tt)
counted-IsExpected n x (err f) e h = (err f, ap (counted n) e, h)

module _ {Payload : Type 0} (self : NotificationWorker) (world : World Payload)
    (positive : IsPositive self) where
  claim_pending-ok :
      (r : Dict NotificationDelivery) (limit : ℕ) (ex : List ℕ) (now : ℕ) (uuid4 : ℕ → ℕ)
      → 1 ≤ limit
      → Deliveries.claim_pending r limit self.arguments.max_attempts self.lease ex now uuid4
        ≡ ok (
            Deliveries.claim_each uuid4 0
              (now + self.lease)
              (take limit (Deliveries.pending_list r ex self.arguments.max_attempts now))
              r)
  unfolding Deliveries.claim_pending
  claim_pending-ok r limit ex now uuid4 le = ground (arith, positive.max_attempts, positive.lease)

  claim_raises_database :
      (i : ℕ) (attempted : List ℕ) (s : FanoutStore Payload) (e : WorkerError)
      → length attempted < self.arguments.batch_size
      → claim_deliveries self world i attempted s ≡ err e
      → e ≡ database
  unfolding claim_deliveries
  claim_raises_database i attempted s e lt h =
      let limit = min self.arguments.concurrency (self.arguments.batch_size - length attempted) in
      ground (
        arith,
        claim_pending-ok s.deliveries limit attempted (world.now i) (world.uuid4 i)
            (omega (arith, positive.concurrency)),
      )

  fan_out_raises_database :
      (s : FanoutStore Payload) (e : WorkerError)
      → fan_out_pending_events self world s ≡ err e
      → e ≡ database
  unfolding fan_out_pending_events
  fan_out_raises_database s e h = ground arith

  deliver_ends :
      (x : Result WorkerError (FanoutStore Payload × ℕ))
      → ((e : WorkerError) → x ≡ err e → e ≡ database)
      → (out : Result WorkerError (ℕ × Cycled (FanoutStore Payload))) × (deliver self world x
          ≡ some out)
        × IsExpected out
  deliver_ends (err e) raises = (err e, refl, raises e refl)
  deliver_ends (ok (s, n)) raises =
      let (out, stopped, end) =
        waves_stop self.arguments.batch_size (λ d. d.id) (claim_deliveries self world)
          (run_wave self world) (λ e. e ≡ database) claim_raises_database self.arguments.batch_size
          0 [] true s (omega arith) in
      counted-IsExpected n (waves_of self world s) out stopped end

-- A cycle of a worker that the constructor accepted ends, within its fuel of one wave for each place
-- of the batch and one more: with a count and a result, or with the exception of a database that
-- did not answer, and never because the limits are refused.
pub run_once-IsExpected :
    {Payload : Type 0} (arguments : Arguments) (self : NotificationWorker) (world : World Payload)
    (s : FanoutStore Payload)
    → init arguments ≡ ok self
    → (out : Result WorkerError (ℕ × Cycled (FanoutStore Payload))) × (run_once self world s
        ≡ some out)
      × IsExpected out
unfolding run_once
run_once-IsExpected a self world s h =
    let positive = init-IsPositive a self h in
    deliver_ends self world positive (fan_out_pending_events self world s)
      (fan_out_raises_database self world positive s)
