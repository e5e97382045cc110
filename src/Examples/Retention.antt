-- ===== src/Examples/Retention.antt =====
-- A cleanup over one waiting delivery of a processed event.
use uptime_platform.Base.{ℕ, ◌≡◌, refl, true, some, [], ◌∷◌, String}
use uptime_platform.Base.Time.{days}
use uptime_platform.Base.Dict
use uptime_platform.Checks.Entities.{Check}
use uptime_platform.Incidents.{Incident}
use uptime_platform.Outbox.{OutboxEvent}
use uptime_platform.Notifications.Entities.{NotificationDelivery}
use uptime_platform.Retention.{Settings, Sessions, Tables, cleanup}
use uptime_platform.Retention.Kept.{cleanup-kept, cleanup-events}
use uptime_platform.Examples.Tables.{Table, session, session-IsSession}
use uptime_platform.Examples.Notifications.{waiting, event}

abbrev check_id : Check → ℕ
check_id c = c.id

abbrev incident_id : Incident → ℕ
incident_id i = i.id

abbrev delivery_id : NotificationDelivery → ℕ
delivery_id d = d.id

abbrev event_id : OutboxEvent String → ℕ
event_id e = e.id

abbrev sessions :
    Sessions String (Table check_id) (Table incident_id) (Table delivery_id) (Table event_id)
sessions = record {
  checks = session check_id;
  incidents = session incident_id;
  deliveries = session delivery_id;
  events = session event_id;
}

abbrev settings : Settings
settings = record {
  retention_enabled = true;
  retention_checks_days = 30;
  retention_incidents_days = 90;
  retention_notifications_days = 30;
  retention_batch_size = 100;
}

abbrev old_event : OutboxEvent String
old_event = record event { processed_at = some 5 }

abbrev tables : Tables (Table check_id) (Table incident_id) (Table delivery_id) (Table event_id)
unfolding Dict.get
tables = record {
  checks = record { rows = []; keyed = tt };
  incidents = record { rows = []; keyed = tt };
  deliveries = record { rows = (3, waiting) ∷ []; keyed = (refl, refl, tt) };
  events = record { rows = (12, old_event) ∷ []; keyed = (refl, refl, tt) };
}

cleanup-events_example :
    Dict.get (cleanup sessions settings (days 40) tables).0.events.rows 12 ≡ some old_event
unfolding Dict.get
cleanup-events_example =
    cleanup-events sessions (session-IsSession delivery_id) (session-IsSession event_id) settings
      (days 40) tables 3 waiting old_event
      (cleanup-kept sessions (session-IsSession delivery_id) (session-IsSession event_id) settings
        (days 40) tables 3 waiting refl refl)
      refl
