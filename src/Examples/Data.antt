-- ===== src/Examples/Data.antt =====
-- Concrete objects that the examples share: one HTTP monitor of organization 7, and its results.
use uptime_platform.Base.{ℕ, true, false, none, some, [], ◌∷◌, or_else}
use uptime_platform.Monitors.Entities.{
  Monitor, MonitorConfig, MonitorType, HttpMethod, MonitorClaim, HttpMonitorConfig, up,
}
use uptime_platform.Monitors.Repository.{MonitorRepository}
use uptime_platform.Checks.Entities.{CheckResult}
use uptime_platform.Notifications.Content.{Filters}

abbrev pub http_config : HttpMonitorConfig
http_config = record {
  url = "https://api.example";
  method = HttpMethod.get;
  expected_status_codes = none;
  body_contains = none;
  follow_redirects = true;
  verify_tls = true;
}

abbrev pub api : Monitor
api = record {
  id = 1;
  organization_id = 7;
  name = "api";
  monitor_type = MonitorType.http;
  config = MonitorConfig.http http_config;
  interval_seconds = 60;
  timeout_seconds = 5;
  status = up;
  created_at = 0;
  next_check_at = 100;
  failure_threshold = 1;
  recovery_threshold = 2;
  consecutive_failures = 0;
  consecutive_successes = 3;
}

abbrev pub api_claim : MonitorClaim
api_claim = record { monitor = api; token = 40; expires_at = 9000000 }

abbrev pub one_monitor : MonitorRepository
one_monitor = record { claims = []; monitors = (1, api) ∷ [] }

abbrev pub claimed_monitor : MonitorRepository
claimed_monitor = record { claims = (1, api_claim) ∷ []; monitors = (1, api) ∷ [] }

abbrev pub refused : CheckResult
refused = record {
  success = false;
  response_time_ms = 3;
  status_code = none;
  error = some "refused";
  details = none;
}

abbrev pub filters : Filters
filters = record {
  safe_url = λ url. some url;
  safe_text = λ value limit. or_else value "Unavailable";
  is_host = λ host. true;
  is_expiry = λ error. false;
  status_phrase = λ code. none;
  print = λ n. "n";
}

abbrev pub uuids : ℕ → ℕ
uuids i = i
