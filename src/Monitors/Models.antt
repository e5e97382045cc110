-- ===== src/Monitors/Models.antt =====
-- MonitorModel of src/uptime_platform/monitors/models.py, and what a row holds of a monitor:
-- `_config_to_dict` and `_to_entity` of sqlalchemy_repository.py.
use text.Mathlib.Text.{◌==◌ as str_eq}
use uptime_platform.Base.{ℕ, String, true, false, Option, none, some, List, [], ◌∷◌, if◌then◌else◌}
use uptime_platform.Base.Result.{Result, ok, err, ◌>>=◌}
use uptime_platform.Base.Json.{
  Json, null, string, number, flag, numbers, Conversions, ConversionError, conversion_error, Object,
  find, item, default, to_bool, to_str, to_int, to_ints,
}
use uptime_platform.Monitors.Entities.{
  Monitor, MonitorConfig, MonitorType, MonitorStatus, HttpMethod, DnsRecordType,
}

pub record MonitorModel : Type 0 where
  pub id : ℕ
  pub organization_id : ℕ
  pub name : String
  pub monitor_type : MonitorType
  pub config : Object
  pub interval_seconds : ℕ
  pub timeout_seconds : ℕ
  pub status : MonitorStatus
  pub created_at : ℕ
  pub next_check_at : ℕ
  pub check_lease_token : Option ℕ
  pub check_lease_until : Option ℕ
  pub failure_threshold : ℕ
  pub recovery_threshold : ℕ
  pub consecutive_failures : ℕ
  pub consecutive_successes : ℕ

-- HttpMethod.value and HttpMethod(text)
abbrev pub method_value : HttpMethod → String
method_value HttpMethod.get = "GET"
method_value HttpMethod.head = "HEAD"

abbrev pub method_of : String → Result ConversionError HttpMethod
method_of s =
    if str_eq s "GET"
    then ok HttpMethod.get
    else if str_eq s "HEAD"
    then ok HttpMethod.head
    else err conversion_error

-- DnsRecordType.value and DnsRecordType(text)
abbrev pub record_type_value : DnsRecordType → String
record_type_value DnsRecordType.a = "A"
record_type_value DnsRecordType.aaaa = "AAAA"
record_type_value DnsRecordType.cname = "CNAME"
record_type_value DnsRecordType.mx = "MX"
record_type_value DnsRecordType.txt = "TXT"

abbrev pub record_type_of : String → Result ConversionError DnsRecordType
record_type_of s =
    if str_eq s "A"
    then ok DnsRecordType.a
    else if str_eq s "AAAA"
    then ok DnsRecordType.aaaa
    else if str_eq s "CNAME"
    then ok DnsRecordType.cname
    else if str_eq s "MX"
    then ok DnsRecordType.mx
    else if str_eq s "TXT"
    then ok DnsRecordType.txt
    else err conversion_error

-- `list(codes) if codes is not None else None`
abbrev pub codes_json : Option (List ℕ) → Json
codes_json none = null
codes_json (some codes) = numbers codes

abbrev pub text_json : Option String → Json
text_json none = null
text_json (some s) = string s

unfoldable pub config_to_dict : MonitorConfig → Object
config_to_dict (MonitorConfig.http c) =
    ("url", string c.url)
    ∷ ("method", string (method_value c.method))
    ∷ ("expected_status_codes", codes_json c.expected_status_codes)
    ∷ ("body_contains", text_json c.body_contains)
    ∷ ("follow_redirects", flag c.follow_redirects)
    ∷ ("verify_tls", flag c.verify_tls)
    ∷ []
config_to_dict (MonitorConfig.tcp c) = ("host", string c.host) ∷ ("port", number c.port) ∷ []
config_to_dict (MonitorConfig.dns c) =
    ("host", string c.host) ∷ ("record_type", string (record_type_value c.record_type)) ∷ []
config_to_dict (MonitorConfig.tls c) =
    ("host", string c.host)
    ∷ ("port", number c.port)
    ∷ ("expiry_threshold_days", number c.expiry_threshold_days)
    ∷ []
config_to_dict (MonitorConfig.icmp c) = ("host", string c.host) ∷ []

module _ (lib : Conversions) where
  -- `tuple(…) if raw is not None else None`, and the same of a text.
  abbrev pub codes_of : Option Json → Result ConversionError (Option (List ℕ))
  codes_of none = ok none
  codes_of (some null) = ok none
  codes_of (some v) = do codes ← to_ints lib v; ok (some codes)

  abbrev pub text_of : Option Json → Option String
  text_of none = none
  text_of (some null) = none
  text_of (some v) = some (to_str lib v)

  -- The configuration of `_to_entity`.
  unfoldable pub config_of : MonitorType → Object → Result ConversionError MonitorConfig
  unfolding find
  config_of MonitorType.http config = do
    url ← item (find config "url")
    method ← method_of (to_str lib (default (find config "method") (string "GET")))
    codes ← codes_of (find config "expected_status_codes")
    ok (
        MonitorConfig.http (record {
          url = to_str lib url;
          method = method;
          expected_status_codes = codes;
          body_contains = text_of (find config "body_contains");
          follow_redirects = to_bool (default (find config "follow_redirects") (flag false));
          verify_tls = to_bool (default (find config "verify_tls") (flag true));
        }))
  config_of MonitorType.tcp config = do
    host ← item (find config "host")
    raw_port ← item (find config "port")
    port ← to_int lib raw_port
    ok (MonitorConfig.tcp (record { host = to_str lib host; port = port }))
  config_of MonitorType.dns config = do
    host ← item (find config "host")
    raw_type ← item (find config "record_type")
    record_type ← record_type_of (to_str lib raw_type)
    ok (MonitorConfig.dns (record { host = to_str lib host; record_type = record_type }))
  config_of MonitorType.tls config = do
    host ← item (find config "host")
    port ← to_int lib (default (find config "port") (number 443))
    days ← to_int lib (default (find config "expiry_threshold_days") (number 14))
    ok (
        MonitorConfig.tls
          (record { host = to_str lib host; port = port; expiry_threshold_days = days }))
  config_of MonitorType.icmp config = do
    host ← item (find config "host")
    ok (MonitorConfig.icmp (record { host = to_str lib host }))

  unfoldable pub to_entity : MonitorModel → Result ConversionError Monitor
  unfolding config_of
  to_entity model = do
    config ← config_of model.monitor_type model.config
    ok (record {
      id = model.id;
      organization_id = model.organization_id;
      name = model.name;
      monitor_type = model.monitor_type;
      config = config;
      interval_seconds = model.interval_seconds;
      timeout_seconds = model.timeout_seconds;
      status = model.status;
      created_at = model.created_at;
      next_check_at = model.next_check_at;
      failure_threshold = model.failure_threshold;
      recovery_threshold = model.recovery_threshold;
      consecutive_failures = model.consecutive_failures;
      consecutive_successes = model.consecutive_successes;
    })

-- The object that `create` adds: no lease.
unfoldable pub new_model : Monitor → MonitorModel
unfolding config_to_dict
new_model m = record {
  id = m.id;
  organization_id = m.organization_id;
  name = m.name;
  monitor_type = m.monitor_type;
  config = config_to_dict m.config;
  interval_seconds = m.interval_seconds;
  timeout_seconds = m.timeout_seconds;
  status = m.status;
  created_at = m.created_at;
  next_check_at = m.next_check_at;
  check_lease_token = none;
  check_lease_until = none;
  failure_threshold = m.failure_threshold;
  recovery_threshold = m.recovery_threshold;
  consecutive_failures = m.consecutive_failures;
  consecutive_successes = m.consecutive_successes;
}

-- The two columns of the lease.
abbrev pub with_lease : MonitorModel → (token until : Option ℕ) → MonitorModel
with_lease model token until = record model { check_lease_token = token; check_lease_until = until }

-- The assignments of `update`.
unfoldable pub assigned : MonitorModel → Monitor → MonitorModel
unfolding config_to_dict
assigned model m = record model {
  name = m.name;
  monitor_type = m.monitor_type;
  config = config_to_dict m.config;
  interval_seconds = m.interval_seconds;
  timeout_seconds = m.timeout_seconds;
  status = m.status;
  next_check_at = m.next_check_at;
  failure_threshold = m.failure_threshold;
  recovery_threshold = m.recovery_threshold;
  consecutive_failures = m.consecutive_failures;
  consecutive_successes = m.consecutive_successes;
}
