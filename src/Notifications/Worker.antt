-- ===== src/Notifications/Worker.antt =====
-- src/uptime_platform/notifications/worker.py: one cycle of the worker, over the in-memory
-- repositories of the same protocols. What the channels answer, the clocks, the drawn identifiers
-- and whether each database transaction goes through are the fields of `World`; the deliveries of a
-- wave stand in the order of their claims. Every duration is in microseconds.
pub mod Cycle
pub mod Attempts
pub mod Timing
use uptime_platform.Base.{
  ℕ, suc, ◌+◌, ◌-◌, ◌*◌, min, max, String, Bool, true, false, not, ◌&&◌, ◌||◌, Option, none, some,
  List, [], ◌∷◌, ltb, leb, is_none, length, if◌then◌else◌,
}
use uptime_platform.Base.Time.{seconds}
use uptime_platform.Base.Result.{Result, ok, err, ValueError, value_error}
use uptime_platform.Base.Maybe.{◌>>=◌, ◌>>◌, guard, caught}
use uptime_platform.Base.Waves.{Cycled, waves}
use uptime_platform.Base.Dict.{Dict}
use uptime_platform.Outbox
use uptime_platform.Outbox.{OutboxEvent}
use uptime_platform.Notifications.Entities.{NotificationDelivery, NotificationDestination}
use uptime_platform.Notifications.Destinations
use uptime_platform.Notifications.Deliveries
use uptime_platform.Notifications.Service.{Sent, FanoutStore, process, fan_out}
use uptime_platform.Notifications.Service
use uptime_platform.Notifications.Factory.{NotificationChannel, create_notification_channel}

-- The arguments of the constructor, and those of the NotificationService that it makes.
pub record Arguments : Type 0 where
  pub poll_interval : ℕ
  pub batch_size : ℕ
  pub concurrency : ℕ
  pub max_attempts : ℕ
  pub lease : ℕ
  pub notification_timeout : ℕ
  pub database_timeout : ℕ
  pub cleanup_timeout : ℕ
  pub public_app_url : String
  pub service : Service.Settings

-- `lease` is the one that the constructor computes.
pub record NotificationWorker : Type 0 where
  pub arguments : Arguments
  pub lease : ℕ

unfoldable pub init : Arguments → Result ValueError NotificationWorker
init a =
    if leb a.poll_interval 0
      || leb a.batch_size 0
      || leb a.concurrency 0
      || leb a.max_attempts 0
      || leb a.lease 0
      || leb a.notification_timeout 0
      || leb a.database_timeout 0
      || leb a.cleanup_timeout 0
    then err value_error
    else ok (record {
      arguments = a;
      lease = max a.lease (a.notification_timeout + 3 * a.database_timeout + seconds 1);
    })

-- An exception that ends a cycle: of the repository, or of a database that does not answer.
pub data WorkerError : Type 0 where
  invalid : WorkerError
  database : WorkerError

-- What the processing of one delivery meets.
pub record Turn : Type 0 where
  pub connected : Bool  -- the transactions before the send went through
  pub read_at : ℕ  -- the database's clock at `remaining_lease_seconds`
  pub elapsed : ℕ  -- `loop.time() - started`
  pub sent_at : ℕ  -- the clock after the send
  pub written : Bool  -- the transaction of the update went through
  pub updated_at : ℕ  -- the database's clock at the update

pub record World (Payload : Type 0) : Type 0 where
  pub fanned_out : Bool  -- the fan-out's transaction went through
  pub fanned_at : ℕ → ℕ  -- the clock of each event's fan-out
  pub delivery_uuid : ℕ → ℕ → ℕ  -- the identifiers that it draws
  pub answers : ℕ → Bool  -- the wave's claim went through
  pub now : ℕ → ℕ
  pub uuid4 : ℕ → ℕ → ℕ
  pub turn : ℕ → NotificationDelivery → Turn
  pub send : ℕ → NotificationChannel → OutboxEvent Payload → (timeout : ℕ) → Sent
  pub cleanup : ℕ → Bool  -- the release's transaction went through

abbrev pub counted :
    {A : Type 0} → ℕ → Option (Result WorkerError A) → Option (Result WorkerError (ℕ × A))
counted n none = none
counted n (some (ok a)) = some (ok (n, a))
counted n (some (err e)) = some (err e)

module _ {Payload : Type 0} where
  unfoldable pub load_delivery_data :
      FanoutStore Payload
      → NotificationDelivery
      → Option (OutboxEvent Payload) × Option NotificationDestination
  load_delivery_data s d = elim (Outbox.get_by_id s.outbox d.event_id) [
    | none ↦ (none, none)
    | some event ↦
        (some event, Destinations.get_by_id s.destinations d.destination_id event.organization_id)
  ]

  module _ (self : NotificationWorker) (world : World Payload) where
    -- The time that a send gets, none when there is none left; the subtraction stops at 0, where
    -- the source's is not positive.
    unfoldable pub time_left :
        FanoutStore Payload → NotificationDelivery → (lease_token : ℕ) → Turn → Option ℕ
    time_left s d lease_token turn = do
      remaining ← Deliveries.remaining_lease_seconds s.deliveries d.id lease_token turn.read_at
      let timeout =
          min self.arguments.notification_timeout
            (remaining - turn.elapsed - self.arguments.database_timeout)
      guard (ltb 0 timeout)
      some timeout

    -- The delivery as it is to be written, none when nothing is: `_process_delivery` up to the
    -- update.
    unfoldable pub sending :
        (i : ℕ)
        → FanoutStore Payload
        → NotificationDelivery
        → (lease_token : ℕ) → Option NotificationDelivery
    unfolding load_delivery_data time_left
    sending i s d lease_token = do
      let turn = world.turn i d
      guard turn.connected
      event ← (load_delivery_data s d).0
      destination ← (load_delivery_data s d).1
      timeout ← time_left s d lease_token turn
      channel ← caught (
          create_notification_channel destination self.arguments.notification_timeout
            self.arguments.public_app_url)
      process self.arguments.service d (world.send i channel event timeout) turn.sent_at

    -- The update's transaction, and whether it wrote.
    abbrev pub write :
        FanoutStore Payload
        → Option NotificationDelivery
        → (lease_token : ℕ) → Turn
        → FanoutStore Payload × Bool
    write s none lease_token turn = (s, false)
    write s (some updated) lease_token turn =
        if turn.written
        then (let (r, found) = Deliveries.update s.deliveries updated lease_token turn.updated_at in
            (record s { deliveries = r }, not (is_none found)))
        else (s, false)

    abbrev pub process_under :
        (i : ℕ) → FanoutStore Payload → NotificationDelivery → Option ℕ → FanoutStore Payload × Bool
    process_under i s d none = (s, false)
    process_under i s d (some lease_token) =
        write s (sending i s d lease_token) lease_token (world.turn i d)

    -- `_process_delivery_safely`: an exception writes nothing.
    unfoldable pub process_delivery :
        (i : ℕ) → FanoutStore Payload → NotificationDelivery → FanoutStore Payload × Bool
    process_delivery i s d = process_under i s d d.lease_token

    -- The task group of one wave: whether all its deliveries were written.
    unfoldable pub process_wave :
        (i : ℕ) → List NotificationDelivery → FanoutStore Payload → FanoutStore Payload × Bool
    unfolding process_delivery
    process_wave i [] s = (s, true)
    process_wave i (d ∷ ds) s =
        let (s', done) = process_delivery i s d in
        let (s'', rest) = process_wave i ds s' in (s'', done && rest)

    abbrev release : Dict NotificationDelivery → ℕ → Option ℕ → Dict NotificationDelivery
    release r delivery_id none = r
    release r delivery_id (some lease_token) = (Deliveries.release_lock r delivery_id lease_token).0

    unfoldable pub release_each :
        List NotificationDelivery → Dict NotificationDelivery → Dict NotificationDelivery
    release_each [] r = r
    release_each (d ∷ ds) r = release_each ds (release r d.id d.lease_token)

    -- A cleanup that fails rolls back.
    unfoldable pub release_claims :
        Bool → List NotificationDelivery → FanoutStore Payload → FanoutStore Payload × Bool
    unfolding release_each
    release_claims true ds s = (record s { deliveries = release_each ds s.deliveries }, true)
    release_claims false ds s = (s, false)

    -- The store after a wave and its cleanup, and whether both went well.
    unfoldable pub run_wave :
        (i : ℕ) → List NotificationDelivery → FanoutStore Payload → FanoutStore Payload × Bool
    unfolding process_wave release_claims
    run_wave i ds s =
        let (s', done) = process_wave i ds s in
        let (s'', released) = release_claims (world.cleanup i) ds s' in (s'', done && released)

    abbrev claimed :
        FanoutStore Payload
        → Result ValueError (Dict NotificationDelivery × List NotificationDelivery)
        → Result WorkerError (FanoutStore Payload × List NotificationDelivery)
    claimed s (ok (r, ds)) = ok (record s { deliveries = r }, ds)
    claimed s (err e) = err invalid

    unfoldable pub claim_deliveries :
        (i : ℕ) (attempted : List ℕ)
        → FanoutStore Payload
        → Result WorkerError (FanoutStore Payload × List NotificationDelivery)
    claim_deliveries i attempted s =
        if world.answers i
        then claimed s (
            Deliveries.claim_pending s.deliveries
              (min self.arguments.concurrency (self.arguments.batch_size - length attempted))
              self.arguments.max_attempts self.lease attempted (world.now i) (world.uuid4 i))
        else err database

    -- The loop of `_fan_out_pending_events`; `j` is the number of the event.
    unfoldable pub fan_out_each :
        (j : ℕ) → List (OutboxEvent Payload) → FanoutStore Payload → FanoutStore Payload
    fan_out_each j [] s = s
    fan_out_each j (event ∷ events) s =
        fan_out_each (suc j) events (fan_out s event (world.fanned_at j) (world.delivery_uuid j)).0

    unfoldable pub fan_out_pending_events :
        FanoutStore Payload → Result WorkerError (FanoutStore Payload × ℕ)
    unfolding fan_out_each
    fan_out_pending_events s =
        let events = Outbox.claim_pending s.outbox self.arguments.batch_size in
        if world.fanned_out then ok (fan_out_each 0 events s, length events) else err database

    abbrev pub waves_of :
        FanoutStore Payload → Option (Result WorkerError (Cycled (FanoutStore Payload)))
    waves_of s =
        waves self.arguments.batch_size (λ d. d.id) claim_deliveries run_wave
          (suc self.arguments.batch_size) 0 [] true s

    abbrev pub deliver :
        Result WorkerError (FanoutStore Payload × ℕ)
        → Option (Result WorkerError (ℕ × Cycled (FanoutStore Payload)))
    deliver (err e) = some (err e)
    deliver (ok (s, fanout_count)) = counted fanout_count (waves_of s)

    -- The number of events that were fanned out, and what the waves leave. The fuel is one wave for
    -- each place of the batch and one more.
    unfoldable pub run_once :
        FanoutStore Payload → Option (Result WorkerError (ℕ × Cycled (FanoutStore Payload)))
    unfolding fan_out_pending_events claim_deliveries run_wave
    run_once s = deliver (fan_out_pending_events s)
