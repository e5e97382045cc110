-- ===== src/Retention.antt =====
-- src/uptime_platform/retention/{repository,service}.py: the rows that a cleanup deletes. The
-- sessions of the four tables are parameters (Base.Session); rows that other transactions lock,
-- which `skip_locked` passes over, are not in the model.
pub mod Kept
use uptime_platform.Base.{
  ℕ, ◌-◌, Bool, true, false, not, ◌&&◌, Option, none, some, List, [], ◌∷◌, ltb, leb, ◌==◌, is_none,
  length, if◌then◌else◌,
}
use uptime_platform.Base.Time.{days}
use uptime_platform.Base.Session.{Session}
use uptime_platform.Checks.Entities.{Check}
use uptime_platform.Incidents.{Incident, IncidentStatus, resolved}
use uptime_platform.Outbox.{OutboxEvent}
use uptime_platform.Notifications.Entities.{NotificationDelivery}

pub record Settings : Type 0 where
  pub retention_enabled : Bool
  pub retention_checks_days : ℕ
  pub retention_incidents_days : ℕ
  pub retention_notifications_days : ℕ
  pub retention_batch_size : ℕ

-- `timestamp < cutoff` of a nullable column.
abbrev pub expired : Option ℕ → ℕ → Bool
expired none cutoff = false
expired (some t) cutoff = ltb t cutoff

-- The order of the timestamps among rows that have one.
abbrev pub earlier : Option ℕ → Option ℕ → Bool
earlier none u = true
earlier (some t) none = false
earlier (some t) (some u) = leb t u

module _ {Row Db : Type 0} (session : Session Row Db) (id : Row → ℕ) where
  unfoldable pub remove_each : List Row → Db → Db
  remove_each [] db = db
  remove_each (row ∷ rows) db = remove_each rows (session.remove db (id row))

  abbrev pub candidates :
      Db → (timestamp : Row → Option ℕ) (cutoff limit : ℕ) (conditions : Row → Bool) → List Row
  candidates db timestamp cutoff limit conditions =
      session.select db (λ row. expired (timestamp row) cutoff && conditions row)
        (λ row other. earlier (timestamp row) (timestamp other)) (some limit)

  -- The table without the batch, and the size of the batch.
  unfoldable pub delete_batch :
      Db → (timestamp : Row → Option ℕ) (cutoff limit : ℕ) (conditions : Row → Bool) → Db × ℕ
  unfolding remove_each
  delete_batch db timestamp cutoff limit conditions =
      let rows = candidates db timestamp cutoff limit conditions in
      (remove_each rows db, length rows)

-- The tables that a cleanup deletes from.
pub record Tables (Checks Incidents Deliveries Events : Type 0) : Type 0 where
  pub checks : Checks
  pub incidents : Incidents
  pub deliveries : Deliveries
  pub events : Events

pub record Counts : Type 0 where
  pub checks : ℕ
  pub incidents : ℕ
  pub deliveries : ℕ
  pub events : ℕ

pub record Sessions (Payload Checks Incidents Deliveries Events : Type 0) : Type 0 where
  pub checks : Session Check Checks
  pub incidents : Session Incident Incidents
  pub deliveries : Session NotificationDelivery Deliveries
  pub events : Session (OutboxEvent Payload) Events

abbrev pub is_resolved : IncidentStatus → Bool
is_resolved resolved = true
is_resolved _ = false

abbrev pub is_empty : {A : Type 0} → List A → Bool
is_empty [] = true
is_empty (x ∷ xs) = false

module _ {Payload C I D E : Type 0} (sessions : Sessions Payload C I D E) where
  -- The conditions on a delivery: no lease, and an event that is processed.
  abbrev pub delivery_conditions : E → NotificationDelivery → Bool
  delivery_conditions events d =
      is_none d.lease_token
      && is_none d.locked_until
      && not (
          is_none
            (sessions.events.one events d.event_id (λ event. not (is_none event.processed_at))))

  -- The condition on an event: no delivery of it.
  abbrev pub event_conditions : D → OutboxEvent Payload → Bool
  event_conditions deliveries event =
      is_empty
        (sessions.deliveries.select deliveries (λ d. d.event_id == event.id) (λ d e. true) none)

  unfoldable pub cleanup : Settings → (now : ℕ) → Tables C I D E → Tables C I D E × Counts
  unfolding delete_batch
  cleanup settings now t =
      let limit = settings.retention_batch_size in
      let notification_cutoff = now - days settings.retention_notifications_days in
      let (checks, deleted_checks) =
        delete_batch sessions.checks (λ c. c.id) t.checks (λ c. some c.checked_at)
          (now - days settings.retention_checks_days) limit (λ c. true) in
      let (incidents, deleted_incidents) =
        delete_batch sessions.incidents (λ i. i.id) t.incidents (λ i. i.resolved_at)
          (now - days settings.retention_incidents_days) limit (λ i. is_resolved i.status) in
      let (deliveries, deleted_deliveries) =
        delete_batch sessions.deliveries (λ d. d.id) t.deliveries (λ d. d.processed_at)
          notification_cutoff limit (delivery_conditions t.events) in
      let (events, deleted_events) =
        delete_batch sessions.events (λ e. e.id) t.events (λ e. e.processed_at) notification_cutoff
          limit (event_conditions deliveries) in
      (
        record { checks = checks; incidents = incidents; deliveries = deliveries; events = events },
        record {
          checks = deleted_checks;
          incidents = deleted_incidents;
          deliveries = deleted_deliveries;
          events = deleted_events;
        },
      )

  -- `run_once` of the service; `none` is its empty dict of counts.
  unfoldable pub run_once : Settings → (now : ℕ) → Tables C I D E → Tables C I D E × Option Counts
  unfolding cleanup
  run_once settings now t =
      if not settings.retention_enabled
      then (t, none)
      else (let (t', counts) = cleanup settings now t in (t', some counts))
