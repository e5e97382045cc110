-- ===== src/Examples/Notifications.antt =====
-- Deliveries of a concrete event to a concrete destination.
use uptime_platform.Base.{
  ℕ, ◌+◌, ◌*◌, ◌≤◌, ◌<◌, ◌≡◌, refl, inr, true, false, not, ◌&&◌, Bool, Option, none, some, List, [],
  ◌∷◌, arith, All, In, String, ltb, leb, mem, min, is_none,
}
use uptime_platform.Base.Time.{seconds}
use uptime_platform.Base.Dict
use uptime_platform.Base.Dict.{Dict, values}
use uptime_platform.Outbox.{OutboxEvent, incident_opened}
use uptime_platform.Notifications.Entities.{
  NotificationDelivery, NotificationDestination, NotificationDestinationType,
  NotificationDestinationConfig,
}
use uptime_platform.Notifications.Destinations
use uptime_platform.Notifications.Deliveries.{is_pending, update, release_lock}
use uptime_platform.Notifications.Deliveries.Processed.{
  IsSettled, here, next, updated, lock_released, Reach-IsSettled,
}
use uptime_platform.Notifications.Service.{
  Settings, Sent, failed, delivered, process, retry_delay, FanoutStore, fan_out,
}
use uptime_platform.Notifications.Service.Retry.{
  is_failed, retry_delay-double, retry_delay-bounds, process-is_pending, failures_exhausted,
}
use uptime_platform.Notifications.Service.Fanout.{pair_count, IsUnique, IsFresh, fan_out-once}
use uptime_platform.Examples.Data.{uuids}

abbrev pub settings : Settings
settings = record { slice = λ text n. text; retry_base_seconds = 5; retry_max_seconds = 300 }

abbrev pub waiting : NotificationDelivery
waiting = record {
  id = 3;
  event_id = 12;
  destination_id = 30;
  created_at = 0;
  processed_at = none;
  attempts = 0;
  last_error = none;
  next_attempt_at = 100;
  locked_until = none;
  lease_token = none;
}

abbrev pub other : NotificationDelivery
other = record waiting { id = 4; destination_id = 31; next_attempt_at = 150 }

abbrev retried : NotificationDelivery
retried = record waiting { attempts = 1; last_error = some "refused"; next_attempt_at = 5000200 }

process-is_pending_example : is_pending [] 5 6000000 retried ≡ (
    is_failed (failed "refused")
    && not (mem 3 [])
    && ltb (0 + 1) 5
    && leb (200 + seconds (retry_delay settings (0 + 1))) 6000000)
unfolding process
process-is_pending_example =
    process-is_pending settings waiting retried (failed "refused") 200 [] 5 6000000 refl refl

failures_exhausted_example : is_pending [] 1 6000000 retried ≡ false
unfolding uptime_platform.Notifications.Service.Retry.after_errors process
failures_exhausted_example =
    failures_exhausted settings waiting retried (("refused", 200) ∷ []) [] 1 6000000 (omega arith)
      refl

abbrev pub two : Dict NotificationDelivery
two = (3, waiting) ∷ (4, other) ∷ []

abbrev first_claim : NotificationDelivery
first_claim = record waiting { locked_until = some 1200; lease_token = some 0 }

abbrev second_claim : NotificationDelivery
second_claim = record other { locked_until = some 1300; lease_token = some 0 }

abbrev after_first : Dict NotificationDelivery
after_first = (3, first_claim) ∷ (4, other) ∷ []

abbrev after_second : Dict NotificationDelivery
after_second = (3, first_claim) ∷ (4, second_claim) ∷ []

abbrev done : NotificationDelivery
done = record waiting { processed_at = some 400; attempts = 1 }

abbrev settled : Dict NotificationDelivery
settled = (3, done) ∷ []

Reach-IsSettled_example : IsSettled 3 done (release_lock (update settled first_claim 0 500).0 3 0).0
unfolding Dict.get
Reach-IsSettled_example =
    Reach-IsSettled 3 done (next (next here (updated first_claim 0 500)) (lock_released 3 0))
      (record { keyed = (refl, refl, tt); stored = refl; processed = refl; unleased = refl })

abbrev pub destination : NotificationDestination
destination = record {
  id = 30;
  organization_id = 7;
  name = "hook";
  destination_type = NotificationDestinationType.webhook;
  enabled = true;
  config = NotificationDestinationConfig.webhook (record { url = "https://h"; secret = "s" });
  created_at = 0;
}

abbrev pub event : OutboxEvent String
event = record {
  id = 12;
  organization_id = 7;
  event_type = incident_opened;
  payload = "";
  created_at = 0;
  processed_at = none;
}

abbrev store : FanoutStore String
store = record { destinations = (30, destination) ∷ []; deliveries = []; outbox = (12, event) ∷ [] }

store-IsFresh : IsFresh uuids 0 []
unfolding Dict.get
store-IsFresh = record { unused = λ j le. refl; distinct = λ j k e. e }

fan_out-once_example :
    All
      (λ d. pair_count (fan_out store event 400 uuids).0.deliveries 12 d.id ≡ 1)
      (Destinations.get_enabled store.destinations 7)
    × IsUnique (fan_out store event 400 uuids).0.deliveries
unfolding uptime_platform.Base.count
fan_out-once_example = fan_out-once store event 400 uuids (λ e k. omega arith) store-IsFresh
