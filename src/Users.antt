-- ===== src/Users.antt =====
-- The users package: src/uptime_platform/users/{entities,in_memory_repository}.py.
use text.Mathlib.Text.{◌==◌ as str_eq}
use uptime_platform.Base.{ℕ, String, Option, find?}
use uptime_platform.Base.Dict
use uptime_platform.Base.Dict.{Dict, values}

pub record User : Type 0 where
  pub id : ℕ
  pub email : String
  pub password_hash : String
  pub created_at : ℕ

unfoldable pub create : Dict User → User → Dict User
create r user = Dict.put r user.id user

unfoldable pub get_by_id : Dict User → ℕ → Option User
get_by_id r user_id = Dict.get r user_id

unfoldable pub get_by_email : Dict User → String → Option User
get_by_email r email = find? (λ u. str_eq u.email email) (values r)
