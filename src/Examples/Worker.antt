-- ===== src/Examples/Worker.antt =====
-- A cycle of the worker over one waiting delivery whose channel takes the message.
use uptime_platform.Base.{
  ℕ, ◌+◌, ◌*◌, ◌≤◌, ◌<◌, ◌≡◌, refl, sym, ap, ◌∙◌, inl, true, false, Bool, Option, none, some, List,
  [], ◌∷◌, All, String, arith, length,
}
use uptime_platform.Base.Time.{seconds}
use uptime_platform.Base.Result.{Result, ok, err, value_error}
use uptime_platform.Base.Waves.{Cycled}
use uptime_platform.Base.Distinct.{IsDistinct}
use uptime_platform.Base.Dict
use uptime_platform.Base.Dict.{Dict, values}
use uptime_platform.Notifications.Entities.{NotificationDelivery, NotificationDestinationType}
use uptime_platform.Notifications.Deliveries.{claim_pending}
use uptime_platform.Notifications.Deliveries.Leases.{IsWellFormed}
use uptime_platform.Notifications.DestinationService.{
  DestinationConfigCreate, DestinationConfigUpdate, unset, set,
}
use uptime_platform.Notifications.DestinationService.Configs.{HasChannel}
use uptime_platform.Notifications.Slack.{validate_slack_webhook_url}
use uptime_platform.Notifications.DestinationService.Channels.{
  Request, creation, updating, run, run-HasChannel,
}
use uptime_platform.Notifications.Factory.{webhook_channel}
use uptime_platform.Notifications.Service.{FanoutStore, Sent, delivered}
use uptime_platform.Notifications.Worker.{
  Arguments, NotificationWorker, WorkerError, World, Turn, init, time_left, process_delivery,
  run_once,
}
use uptime_platform.Notifications.Worker.Cycle.{IsExpected, run_once-IsExpected}
use uptime_platform.Notifications.Worker.Attempts.{run_once-Bounded}
use uptime_platform.Notifications.Worker.Timing.{fresh_claim-time_left, process_delivery-written}
use uptime_platform.Examples.Data.{uuids}
use uptime_platform.Examples.Notifications.{settings, waiting, other, destination, event}

-- One organization makes a webhook and a Slack destination, another tries to change the first, and a
-- bad URL for the second is refused.
abbrev requests : List Request
requests =
    creation 7
      (record {
        name = "hook";
        destination_type = NotificationDestinationType.webhook;
        enabled = true;
        config = DestinationConfigCreate.webhook "https://h" "0123456789abcdef";
      })
      30 0
    ∷ creation 7
        (record {
          name = "slack";
          destination_type = NotificationDestinationType.slack;
          enabled = true;
          config = DestinationConfigCreate.slack "https://hooks.slack.com/services/T0/B-1/x_Y";
        })
        31 0
    ∷ updating 8 30 (record {
      name = none;
      enabled = some false;
      config = some (DestinationConfigUpdate.telegram (set (some "t")) unset);
    })
    ∷ updating 7 31 (record {
      name = none;
      enabled = none;
      config = some (DestinationConfigUpdate.slack (set (some "https://hooks.slack.com/")));
    })
    ∷ []

-- The check takes a URL of either host, and refuses one without its three segments.
slack_urls :
    (validate_slack_webhook_url "https://hooks.slack-gov.com/services/T0/B-1/x_Y"
      ≡ ok "https://hooks.slack-gov.com/services/T0/B-1/x_Y")
    × (validate_slack_webhook_url "https://hooks.slack.com/services/T0/B-1/" ≡ err value_error)
unfolding validate_slack_webhook_url uptime_platform.Notifications.Slack.fullmatch
slack_urls = (refl, refl)

run-HasChannel_example : All HasChannel (values (run ((30, destination) ∷ []) requests))
run-HasChannel_example = run-HasChannel requests ((30, destination) ∷ []) ((refl, tt), tt)

abbrev arguments : Arguments
arguments = record {
  poll_interval = seconds 5;
  batch_size = 2;
  concurrency = 1;
  max_attempts = 5;
  lease = seconds 60;
  notification_timeout = seconds 5;
  database_timeout = seconds 5;
  cleanup_timeout = seconds 5;
  public_app_url = "";
  service = settings;
}

abbrev worker : NotificationWorker
worker = record { arguments = arguments; lease = seconds 60 }

init-worker : init arguments ≡ ok worker
unfolding init
init-worker = refl

abbrev turn : Turn
turn = record {
  connected = true;
  read_at = 300;
  elapsed = 10;
  sent_at = 400;
  written = true;
  updated_at = 500;
}

abbrev world : World String
world = record {
  fanned_out = true;
  fanned_at = λ j. 100;
  delivery_uuid = λ j k. 50;
  answers = λ i. true;
  now = λ i. 200;
  uuid4 = λ i j. 40;
  turn = λ i d. turn;
  send = λ i channel e timeout. delivered;
  cleanup = λ i. true;
}

abbrev one : Dict NotificationDelivery
one = (3, waiting) ∷ []

abbrev store : FanoutStore String
store = record {
  destinations = (30, destination) ∷ [];
  deliveries = one;
  outbox = (12, event) ∷ [];
}

run_once-IsExpected_example :
    (out : Result WorkerError (ℕ × Cycled (FanoutStore String))) × (run_once worker world store
      ≡ some out)
    × IsExpected out
run_once-IsExpected_example = run_once-IsExpected arguments worker world store init-worker

-- The first wave sends the delivery, and the second finds none that is pending.
abbrev end_of :
    Option (Result WorkerError (ℕ × Cycled (FanoutStore String))) → ℕ × Cycled (FanoutStore String)
end_of (some (ok out)) = out
end_of _ = (0, record { store = store; attempted = []; successful = false })

abbrev claimed : NotificationDelivery
claimed = record waiting { locked_until = some 60000200; lease_token = some 0 }

abbrev leased : FanoutStore String
leased = record store { deliveries = (3, claimed) ∷ [] }

claim_one : claim_pending one 1 5 (seconds 60) [] 200 uuids ≡ ok (leased.deliveries, claimed ∷ [])
unfolding claim_pending uptime_platform.Notifications.Deliveries.claim_each
    uptime_platform.Base.Sort.sort uptime_platform.Base.filter
    uptime_platform.Notifications.Deliveries.is_pending uptime_platform.Base.mem Dict.put
claim_one = refl

fresh_claim-time_left_example : time_left worker world leased claimed 0 turn ≡ some (seconds 5)
unfolding Dict.get
fresh_claim-time_left_example =
    fresh_claim-time_left worker world leased one [] 1 5 [] 200 uuids (claimed ∷ []) claimed
      arguments 0 turn init-worker (refl, refl, tt) claim_one (inl refl) refl (omega arith)

-- Two deliveries wait, and a batch for each is drawn while the first is sent.
abbrev first_leased : FanoutStore String
first_leased = record store { deliveries = (3, claimed) ∷ (4, other) ∷ [] }

abbrev other_claimed : NotificationDelivery
other_claimed = record other { locked_until = some 60000400; lease_token = some 0 }

abbrev written : NotificationDelivery
written = record waiting { processed_at = some 400; attempts = 1 }

process_delivery-written_example :
    ((process_delivery worker world 0 leased claimed).1 ≡ true)
    × (Dict.get (process_delivery worker world 0 leased claimed).0.deliveries 3 ≡ some written)
unfolding uptime_platform.Notifications.Worker.load_delivery_data uptime_platform.Outbox.get_by_id
    Dict.get uptime_platform.Notifications.Destinations.get_by_id time_left
    uptime_platform.Notifications.Deliveries.remaining_lease_seconds
    uptime_platform.Notifications.Factory.create_notification_channel
    uptime_platform.Notifications.Service.process
process_delivery-written_example =
    process_delivery-written worker world 0 leased claimed 0 (seconds 5) event destination
      (webhook_channel (record { url = "https://h"; secret = "s" }) (seconds 5) "") written claimed
      60000200 refl refl refl refl refl refl refl refl refl (omega arith)

abbrev cycled : ℕ × Cycled (FanoutStore String)
cycled = end_of (run_once worker world store)

cycled_ok : run_once worker world store ≡ some (ok cycled)
unfolding run_once uptime_platform.Base.Waves.waves claim_pending
    uptime_platform.Notifications.Deliveries.claim_each uptime_platform.Base.Sort.sort
    uptime_platform.Base.filter uptime_platform.Outbox.claim_pending
    uptime_platform.Notifications.Service.fan_out uptime_platform.Notifications.Service.create_each
    uptime_platform.Notifications.Service.drawn
    uptime_platform.Notifications.Destinations.get_enabled
    uptime_platform.Notifications.Deliveries.create_if_missing uptime_platform.Base.any
    uptime_platform.Notifications.Deliveries.is_pending uptime_platform.Base.mem
    uptime_platform.Notifications.Deliveries.release_lock Dict.get Dict.put
    uptime_platform.Base.Sort.insert uptime_platform.Notifications.Deliveries.attempt_before
    uptime_platform.Notifications.Deliveries.remaining_lease_seconds
    uptime_platform.Notifications.Deliveries.update
    uptime_platform.Notifications.Destinations.get_by_id
    uptime_platform.Notifications.Factory.create_notification_channel
    uptime_platform.Notifications.Service.process uptime_platform.Notifications.Service.retry_delay
    uptime_platform.Notifications.Worker.claim_deliveries
    uptime_platform.Notifications.Worker.fan_out_each
    uptime_platform.Notifications.Worker.fan_out_pending_events
    uptime_platform.Notifications.Worker.load_delivery_data process_delivery
    uptime_platform.Notifications.Worker.process_wave
    uptime_platform.Notifications.Worker.release_claims
    uptime_platform.Notifications.Worker.release_each uptime_platform.Notifications.Worker.run_wave
    uptime_platform.Notifications.Worker.sending time_left uptime_platform.Outbox.get_by_id
    uptime_platform.Outbox.update
cycled_ok = refl

run_once-Bounded_example :
    (length (cycled.1.attempted) ≤ 2)
    × IsDistinct (cycled.1.attempted)
    × IsWellFormed (cycled.1.store.deliveries)
unfolding Dict.get
run_once-Bounded_example =
    run_once-Bounded worker world store (cycled.0) (cycled.1) (refl, refl, tt) cycled_ok
