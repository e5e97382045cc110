-- ===== src/Checks/Entities.antt =====
-- src/uptime_platform/checks/entities.py. A `float` of milliseconds is only stored and averaged
-- elsewhere; it is a number here, of any fixed unit.
use uptime_platform.Base.{ℕ, String, Bool, Option, List}

-- A value of the `details` dict: a `str`, or an object of another class.
pub data Detail : Type 0 where
  str : String → Detail
  object : Detail

abbrev pub Details : Type 0
Details = List (String × Detail)

pub record CheckResult : Type 0 where
  pub success : Bool
  pub response_time_ms : ℕ
  pub status_code : Option ℕ
  pub error : Option String
  pub details : Option Details

pub record Check : Type 0 where
  pub id : ℕ
  pub monitor_id : ℕ
  pub success : Bool
  pub response_time_ms : ℕ
  pub status_code : Option ℕ
  pub error : Option String
  pub checked_at : ℕ
  pub details : Option Details
