-- ===== src/Notifications/Content.antt =====
-- src/uptime_platform/notifications/content.py: `check_reason` and `incident_payload`. The text
-- filters that are written with `re` and `urllib` are the fields of `Filters`; the dict of the
-- payload is a record, with identifiers and instants instead of their printed forms.
use Prim.Native.String.{◌++◌}
use text.Mathlib.Text.{◌==◌ as str_eq, find?}
use uptime_platform.Base.{
  ℕ, ◌-◌, ◌/◌, String, Bool, not, ◌&&◌, ◌||◌, Option, none, some, List, [], ◌∷◌, if◌then◌else◌,
  or_else, is_none, ◌==◌,
}
use uptime_platform.Monitors.Entities.{Monitor, MonitorType, MonitorConfig}
use uptime_platform.Incidents.{Incident}
use uptime_platform.Checks.Entities.{CheckResult, Detail, str, Details}

pub record Filters : Type 0 where
  pub safe_url : String → Option String  -- urlsplit, safe_path, urlunsplit
  pub safe_text : Option String → ℕ → String  -- re.sub and the slice; none is a value of another class
  pub is_host : String → Bool  -- re.fullmatch(r"[\w.:%-]+", host)
  pub is_expiry : String → Bool  -- re.fullmatch(r"TLS certificate expires in \d+ days", error)
  pub status_phrase : ℕ → Option String  -- HTTPStatus(code).phrase, none for ValueError
  pub print : ℕ → String  -- str(n)

-- REASONS
abbrev reasons : List (String × String)
reasons =
    ("timeout", "Check timed out")
    ∷ ("dns", "DNS resolution failed")
    ∷ ("tls_certificate", "TLS certificate verification failed")
    ∷ ("tls", "TLS handshake failed")
    ∷ ("connection_refused", "Connection refused")
    ∷ ("connection", "Connection failed")
    ∷ ("redirects", "Too many HTTP redirects")
    ∷ ("protocol", "HTTP protocol error")
    ∷ ("unknown", "Check failed; reason unavailable")
    ∷ []

unfoldable pub lookup {ℓ} : {V : Type ℓ} → String → List (String × V) → Option V
lookup k [] = none
lookup k ((j, v) ∷ d) = if str_eq j k then some v else lookup k d

abbrev is_plain : String → Bool
is_plain error =
    str_eq error "Expected text was not found in response body"
    || str_eq error "No ICMP reply received"
    || str_eq error "TLS connection has no SSL object"
    || str_eq error "TLS certificate expiration date is missing"

-- `(result.details or {}).get("failure_kind")`, if it is a text.
abbrev kind_text : Option Detail → Option String
kind_text (some (str kind)) = some kind
kind_text _ = none

abbrev failure_kind : Option Details → Option String
failure_kind none = none
failure_kind (some details) = kind_text (lookup "failure_kind" details)

-- `kind in REASONS and kind != "unknown"`
abbrev known_reason : Option String → Option String
known_reason none = none
known_reason (some kind) = if str_eq kind "unknown" then none else lookup kind reasons

pub record IncidentPayload : Type 0 where
  pub monitor_id : ℕ
  pub incident_id : ℕ
  pub monitor_name : String
  pub monitor_type : MonitorType
  pub target : String
  pub started_at : ℕ
  pub resolved_at : Option ℕ
  pub duration_seconds : Option ℕ
  pub reason : Option String
  pub status_code : Option ℕ

-- `max(0, int((resolved - started).total_seconds()))`: whole seconds, 0 for a negative span.
unfoldable pub duration_seconds : (started : ℕ) → Option ℕ → Option ℕ
duration_seconds started none = none
duration_seconds started (some resolved) = some ((resolved - started) / 1000000)

module _ (lib : Filters) where
  open lib use {safe_url, safe_text, is_host, is_expiry, status_phrase, print}

  abbrev status_reason : Option ℕ → String
  status_reason none = "Check failed; reason unavailable"
  status_reason (some code) =
      "HTTP " ++ (print code ++ (" " ++ or_else (status_phrase code) "Unexpected status"))

  unfoldable pub check_reason : CheckResult → String
  unfolding lookup
  check_reason result =
      let error = or_else result.error "" in
      if is_plain error
      then error
      else if str_eq error "Check exceeded its total timeout"
      then "Check timed out"
      else if is_expiry error
      then error
      else or_else (known_reason (failure_kind result.details)) (status_reason result.status_code)

  -- `config.host` of the classes that have one.
  abbrev host_target : String → Option ℕ → String
  host_target raw port =
      let host = (let h = safe_text (some raw) 255 in if is_host h then h else "Unavailable") in
      let bracketed = if is_none (find? host ":") then host else "[" ++ (host ++ "]") in
      elim port [
        | none ↦ host
        | some p ↦
            if not (p == 0) && not (str_eq host "Unavailable")
            then bracketed ++ (":" ++ print p)
            else host
      ]

  unfoldable pub target : MonitorConfig → String
  target (MonitorConfig.http c) = safe_text (safe_url c.url) 400
  target (MonitorConfig.tcp c) = host_target c.host (some c.port)
  target (MonitorConfig.dns c) = host_target c.host none
  target (MonitorConfig.tls c) = host_target c.host (some c.port)
  target (MonitorConfig.icmp c) = host_target c.host none

  unfoldable pub incident_payload : Monitor → Incident → CheckResult → IncidentPayload
  unfolding check_reason target duration_seconds
  incident_payload monitor incident result = record {
    monitor_id = monitor.id;
    incident_id = incident.id;
    monitor_name = safe_text (some monitor.name) 100;
    monitor_type = monitor.monitor_type;
    target = target monitor.config;
    started_at = incident.started_at;
    resolved_at = incident.resolved_at;
    duration_seconds = duration_seconds incident.started_at incident.resolved_at;
    reason = if result.success then none else some (check_reason result);
    status_code = result.status_code;
  }
