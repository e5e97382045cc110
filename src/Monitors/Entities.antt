-- ===== src/Monitors/Entities.antt =====
-- src/uptime_platform/monitors/entities.py. A UUID is a number.
use uptime_platform.Base.{ℕ, String, Bool, true, false, Option, List}

pub data MonitorStatus : Type 0 where
  pending up down paused : MonitorStatus

pub data MonitorType : Type 0 where
  http tcp dns tls icmp : MonitorType

pub data HttpMethod : Type 0 where
  get head : HttpMethod

pub data DnsRecordType : Type 0 where
  a aaaa cname mx txt : DnsRecordType

pub record HttpMonitorConfig : Type 0 where
  pub url : String
  pub method : HttpMethod
  pub expected_status_codes : Option (List ℕ)
  pub body_contains : Option String
  pub follow_redirects : Bool
  pub verify_tls : Bool

pub record TcpMonitorConfig : Type 0 where
  pub host : String
  pub port : ℕ

pub record DnsMonitorConfig : Type 0 where
  pub host : String
  pub record_type : DnsRecordType

pub record TlsMonitorConfig : Type 0 where
  pub host : String
  pub port : ℕ
  pub expiry_threshold_days : ℕ

pub record IcmpMonitorConfig : Type 0 where
  pub host : String

-- The union of the configurations: the constructor is the class that `isinstance` asks for.
pub data MonitorConfig : Type 0 where
  http : HttpMonitorConfig → MonitorConfig
  tcp : TcpMonitorConfig → MonitorConfig
  dns : DnsMonitorConfig → MonitorConfig
  tls : TlsMonitorConfig → MonitorConfig
  icmp : IcmpMonitorConfig → MonitorConfig

pub record Monitor : Type 0 where
  pub id : ℕ
  pub organization_id : ℕ
  pub name : String
  pub monitor_type : MonitorType
  pub config : MonitorConfig
  pub interval_seconds : ℕ
  pub timeout_seconds : ℕ
  pub status : MonitorStatus
  pub created_at : ℕ
  pub next_check_at : ℕ
  pub failure_threshold : ℕ
  pub recovery_threshold : ℕ
  pub consecutive_failures : ℕ
  pub consecutive_successes : ℕ

pub record MonitorClaim : Type 0 where
  pub monitor : Monitor
  pub token : ℕ
  pub expires_at : ℕ

-- `status is MonitorStatus.X`
abbrev pub is_paused : MonitorStatus → Bool
is_paused paused = true
is_paused _ = false

abbrev pub is_pending : MonitorStatus → Bool
is_pending pending = true
is_pending _ = false

abbrev pub is_down : MonitorStatus → Bool
is_down down = true
is_down _ = false

abbrev pub is_up : MonitorStatus → Bool
is_up up = true
is_up _ = false
