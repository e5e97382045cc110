-- ===== src/Notifications/Service.antt =====
-- src/uptime_platform/notifications/service.py. How the channel's `send` ended is the argument
-- `Sent`: only a NotificationDeliveryError or a TimeoutError becomes a retry, any other exception
-- leaves `process` as it is.
pub mod Retry
pub mod Fanout
use text.Mathlib.Text.{◌==◌ as str_eq}
use uptime_platform.Base.{
  ℕ, ◌+◌, ◌-◌, ◌*◌, ◌^◌, min, String, Bool, Option, none, some, List, [], ◌∷◌, if◌then◌else◌,
}
use uptime_platform.Base.Time.{seconds}
use uptime_platform.Base.Dict.{Dict}
use uptime_platform.Outbox
use uptime_platform.Outbox.{OutboxEvent}
use uptime_platform.Notifications.Entities.{NotificationDelivery, NotificationDestination}
use uptime_platform.Notifications.Destinations
use uptime_platform.Notifications.Deliveries

-- The arguments of the service's constructor, and Python's slice `text[:n]`.
pub record Settings : Type 0 where
  pub slice : String → ℕ → String
  pub retry_base_seconds : ℕ
  pub retry_max_seconds : ℕ

-- The end of `channel.send`; the text is `str` of the exception.
pub data Sent : Type 0 where
  delivered : Sent
  failed : (error : String) → Sent
  crashed : Sent

unfoldable pub retry_delay : Settings → (attempts : ℕ) → ℕ
retry_delay self attempts =
    min (self.retry_base_seconds * 2 ^ (attempts - 1)) self.retry_max_seconds

-- `(str(exc) or "…")[:2000]`
abbrev pub error_text : Settings → String → String
error_text self error =
    let text =
      if str_eq error "" then "Notification delivery exceeded its total timeout" else error in
    self.slice text 2000

-- `none` is an exception that `process` passes on.
unfoldable pub process :
    Settings → NotificationDelivery → Sent → (now : ℕ) → Option NotificationDelivery
unfolding retry_delay
process self d (failed error) now =
    let attempts = d.attempts + 1 in
    some (record d {
      attempts = attempts;
      last_error = some (error_text self error);
      next_attempt_at = now + seconds (retry_delay self attempts);
      locked_until = none;
      lease_token = none;
    })
process self d crashed now = none
process self d delivered now = some (record d {
  processed_at = some now;
  attempts = d.attempts + 1;
  last_error = none;
  locked_until = none;
  lease_token = none;
})

-- The delivery that `fan_out` makes for a destination.
abbrev pub new_delivery :
    (event_id now : ℕ) → NotificationDestination → (uuid4 : ℕ) → NotificationDelivery
new_delivery event_id now destination uuid4 = record {
  id = uuid4;
  event_id = event_id;
  destination_id = destination.id;
  created_at = now;
  processed_at = none;
  attempts = 0;
  last_error = none;
  next_attempt_at = now;
  locked_until = none;
  lease_token = none;
}

-- The loop of `fan_out`; each turn draws an identifier from the list, which has one for each
-- destination.
unfoldable pub create_each :
    (event_id now : ℕ)
    → List (NotificationDestination × ℕ)
    → Dict NotificationDelivery
    → Dict NotificationDelivery × List NotificationDelivery
create_each event_id now [] r = (r, [])
create_each event_id now ((destination, uuid4) ∷ rest) r =
    let delivery = new_delivery event_id now destination uuid4 in
    let (r', created) = Deliveries.create_if_missing r delivery in
    let (r'', deliveries) = create_each event_id now rest r' in
    (r'', if created then delivery ∷ deliveries else deliveries)

-- The i-th identifier that a call draws is `uuid4 i`.
unfoldable pub drawn :
    (uuid4 : ℕ → ℕ) (i : ℕ) → List NotificationDestination → List (NotificationDestination × ℕ)
drawn uuid4 i [] = []
drawn uuid4 i (d ∷ ds) = (d, uuid4 i) ∷ drawn uuid4 (i + 1) ds

-- The repositories of NotificationFanoutService.
pub record FanoutStore (Payload : Type 0) : Type 0 where
  pub destinations : Dict NotificationDestination
  pub deliveries : Dict NotificationDelivery
  pub outbox : Dict (OutboxEvent Payload)

unfoldable pub fan_out :
    {Payload : Type 0}
    → FanoutStore Payload
    → OutboxEvent Payload
    → (now : ℕ) (uuid4 : ℕ → ℕ) → FanoutStore Payload × List NotificationDelivery
fan_out s event now uuid4 =
    let destinations = Destinations.get_enabled s.destinations event.organization_id in
    let (deliveries, created) =
      create_each event.id now (drawn uuid4 0 destinations) s.deliveries in
    (
      record s {
        deliveries = deliveries;
        outbox = (Outbox.update s.outbox (record event { processed_at = some now })).0;
      },
      created,
    )
