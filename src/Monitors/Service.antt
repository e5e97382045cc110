-- ===== src/Monitors/Service.antt =====
-- src/uptime_platform/monitors/service.py. What pydantic makes of a raw configuration is taken as
-- the parameter `Validators`: a validated update of the class that the monitor's configuration
-- asks for, or its ValidationError.
pub mod Configs
use uptime_platform.Base.{
  ℕ, String, Bool, true, false, ◌&&◌, not, Option, none, some, List, or_else, if◌then◌else◌,
  is_none,
}
use uptime_platform.Base.Result.{Result, ok, err, ◌>>=◌}
use uptime_platform.Monitors.Entities.{
  HttpMonitorConfig, TcpMonitorConfig, DnsMonitorConfig, TlsMonitorConfig, IcmpMonitorConfig,
  HttpMethod, DnsRecordType, MonitorType, MonitorConfig, Monitor, pending,
}
use uptime_platform.Monitors.Repository
use uptime_platform.Monitors.Repository.{MonitorRepository}

-- The validated bodies of the requests (monitors/schemas.py).
pub record MonitorCreate : Type 0 where
  pub name : String
  pub monitor_type : MonitorType
  pub config : MonitorConfig
  pub interval_seconds : ℕ
  pub timeout_seconds : ℕ
  pub failure_threshold : ℕ
  pub recovery_threshold : ℕ

-- `expected_status_codes_set` and `body_contains_set`: the name is in `model_fields_set`.
pub record HttpMonitorConfigUpdate : Type 0 where
  pub url : Option String
  pub method : Option HttpMethod
  pub expected_status_codes : Option (List ℕ)
  pub expected_status_codes_set : Bool
  pub body_contains : Option String
  pub body_contains_set : Bool
  pub follow_redirects : Option Bool
  pub verify_tls : Option Bool

pub record TcpMonitorConfigUpdate : Type 0 where
  pub host : Option String
  pub port : Option ℕ

pub record DnsMonitorConfigUpdate : Type 0 where
  pub host : Option String
  pub record_type : Option DnsRecordType

pub record TlsMonitorConfigUpdate : Type 0 where
  pub host : Option String
  pub port : Option ℕ
  pub expiry_threshold_days : Option ℕ

pub record IcmpMonitorConfigUpdate : Type 0 where
  pub host : Option String

-- `Raw` is the unvalidated dict of a request.
pub record MonitorUpdate (Raw : Type 0) : Type 0 where
  pub name : Option String
  pub config : Option Raw
  pub interval_seconds : Option ℕ
  pub timeout_seconds : Option ℕ
  pub failure_threshold : Option ℕ
  pub recovery_threshold : Option ℕ

-- monitors/exceptions.py; pydantic's ValidationError becomes this one too.
pub data InvalidMonitorConfigError : Type 0 where
  invalid_monitor_config : InvalidMonitorConfigError

-- `model_validate` of each update model, with its ValidationError as the service re-raises it.
pub record Validators (Raw : Type 0) : Type 0 where
  pub http_update : Raw → Result InvalidMonitorConfigError HttpMonitorConfigUpdate
  pub tcp_update : Raw → Result InvalidMonitorConfigError TcpMonitorConfigUpdate
  pub dns_update : Raw → Result InvalidMonitorConfigError DnsMonitorConfigUpdate
  pub tls_update : Raw → Result InvalidMonitorConfigError TlsMonitorConfigUpdate
  pub icmp_update : Raw → Result InvalidMonitorConfigError IcmpMonitorConfigUpdate

abbrev is_head : HttpMethod → Bool
is_head HttpMethod.head = true
is_head HttpMethod.get = false

unfoldable pub updated_http : HttpMonitorConfig → HttpMonitorConfigUpdate → HttpMonitorConfig
updated_http current update = record {
  url = or_else update.url current.url;
  method = or_else update.method current.method;
  expected_status_codes =
      if update.expected_status_codes_set
      then update.expected_status_codes
      else current.expected_status_codes;
  body_contains = if update.body_contains_set then update.body_contains else current.body_contains;
  follow_redirects = or_else update.follow_redirects current.follow_redirects;
  verify_tls = or_else update.verify_tls current.verify_tls;
}

abbrev checked_http : HttpMonitorConfig → Result InvalidMonitorConfigError MonitorConfig
checked_http c =
    if is_head c.method && not (is_none c.body_contains)
    then err invalid_monitor_config
    else ok (MonitorConfig.http c)

module _ {Raw : Type 0} (validate : Validators Raw) where
  open validate use {http_update, tcp_update, dns_update, tls_update, icmp_update}

  -- `_update_config_validated`, under the handler of `_update_config`.
  unfoldable pub update_config :
      MonitorConfig → Raw → Result InvalidMonitorConfigError MonitorConfig
  unfolding updated_http
  update_config (MonitorConfig.http current) raw = do
    update ← http_update raw
    checked_http (updated_http current update)
  update_config (MonitorConfig.tcp current) raw = do
    update ← tcp_update raw
    ok (
        MonitorConfig.tcp (record {
          host = or_else update.host current.host;
          port = or_else update.port current.port;
        }))
  update_config (MonitorConfig.dns current) raw = do
    update ← dns_update raw
    ok (
        MonitorConfig.dns (record {
          host = or_else update.host current.host;
          record_type = or_else update.record_type current.record_type;
        }))
  update_config (MonitorConfig.tls current) raw = do
    update ← tls_update raw
    ok (
        MonitorConfig.tls (record {
          host = or_else update.host current.host;
          port = or_else update.port current.port;
          expiry_threshold_days =
              or_else update.expiry_threshold_days current.expiry_threshold_days;
        }))
  update_config (MonitorConfig.icmp current) raw = do
    update ← icmp_update raw
    ok (MonitorConfig.icmp (record { host = or_else update.host current.host }))

  abbrev new_config : MonitorConfig → Option Raw → Result InvalidMonitorConfigError MonitorConfig
  new_config current none = ok current
  new_config current (some raw) = update_config current raw

  -- `replace(monitor, …)` of `MonitorService.update`.
  unfoldable pub updated_monitor : Monitor → MonitorUpdate Raw → MonitorConfig → Monitor
  updated_monitor m change config = record m {
    name = or_else change.name m.name;
    config = config;
    interval_seconds = or_else change.interval_seconds m.interval_seconds;
    timeout_seconds = or_else change.timeout_seconds m.timeout_seconds;
    failure_threshold = or_else change.failure_threshold m.failure_threshold;
    recovery_threshold = or_else change.recovery_threshold m.recovery_threshold;
  }

  store_update :
      MonitorRepository
      → Monitor
      → MonitorUpdate Raw
      → Result InvalidMonitorConfigError (MonitorRepository × Option Monitor)
  store_update r m change = do
    config ← new_config m.config change.config
    ok (Repository.update r (updated_monitor m change config))

  -- `MonitorService.update` of the organization's service; `none` is the `None` for a monitor that
  -- the organization does not have.
  unfoldable pub update :
      MonitorRepository
      → (organization_id monitor_id : ℕ) → MonitorUpdate Raw
      → (now : ℕ) → Result InvalidMonitorConfigError (MonitorRepository × Option Monitor)
  unfolding store_update
  update r organization_id monitor_id change now =
      elim (Repository.get_by_id_for_update r monitor_id (some organization_id) none now) [
        | none ↦ ok (r, none)
        | some m ↦ store_update r m change
      ]

-- `MonitorService.create`: the identifier and the instant come from outside.
unfoldable pub create :
    MonitorRepository
    → (organization_id : ℕ) → MonitorCreate
    → (uuid4 now : ℕ) → MonitorRepository × Monitor
create r organization_id body uuid4 now = Repository.create r (record {
  id = uuid4;
  organization_id = organization_id;
  name = body.name;
  monitor_type = body.monitor_type;
  config = body.config;
  interval_seconds = body.interval_seconds;
  timeout_seconds = body.timeout_seconds;
  status = pending;
  created_at = now;
  next_check_at = now;
  failure_threshold = body.failure_threshold;
  recovery_threshold = body.recovery_threshold;
  consecutive_failures = 0;
  consecutive_successes = 0;
})

unfoldable pub delete :
    MonitorRepository → (organization_id monitor_id : ℕ) → MonitorRepository × Bool
delete r organization_id monitor_id = Repository.delete r monitor_id organization_id
