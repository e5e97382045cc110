-- ===== src/Auth/Refresh.antt =====
-- src/uptime_platform/auth/{entities,in_memory_refresh_repository,refresh_service}.py: the sessions
-- of refresh tokens. `hash` is `hash_refresh_token` under the service's secret and
-- `create_access_token` that of the token service, both of other libraries; a new token and a new
-- identifier come from outside.
pub mod Spent
pub mod Exchange
pub mod Single
use text.Mathlib.Text.{◌==◌ as str_eq}
use uptime_platform.Base.{
  ℕ, ◌+◌, String, Bool, true, false, Option, none, some, leb, if◌then◌else◌, is_none, find?, not,
}
use uptime_platform.Base.Time.{days}
use uptime_platform.Base.Exec.{Exec, return, raise, gets, call, required, guard, ◌>>=◌, ◌>>◌}
use uptime_platform.Base.Dict
use uptime_platform.Base.Dict.{Dict, values}

pub record RefreshSession : Type 0 where
  pub id : ℕ
  pub user_id : ℕ
  pub token_hash : String
  pub created_at : ℕ
  pub expires_at : ℕ
  pub revoked_at : Option ℕ

pub record TokenPair : Type 0 where
  pub access_token : String
  pub refresh_token : String

-- InMemoryRefreshSessionRepository
unfoldable pub create_session : Dict RefreshSession → RefreshSession → Dict RefreshSession
create_session r session = Dict.put r session.id session

abbrev pub has_hash : String → RefreshSession → Bool
has_hash token_hash session = str_eq session.token_hash token_hash

unfoldable pub get_by_hash_for_update : Dict RefreshSession → String → Option RefreshSession
get_by_hash_for_update r token_hash = find? (has_hash token_hash) (values r)

abbrev pub revoke_found :
    Dict RefreshSession
    → (session_id revoked_at : ℕ) → Option RefreshSession
    → Dict RefreshSession × Bool
revoke_found r session_id revoked_at none = (r, false)
revoke_found r session_id revoked_at (some session) =
    if not (is_none session.revoked_at)
    then (r, false)
    else (Dict.put r session_id (record session { revoked_at = some revoked_at }), true)

unfoldable pub revoke_session :
    Dict RefreshSession → (session_id revoked_at : ℕ) → Dict RefreshSession × Bool
revoke_session r session_id revoked_at =
    revoke_found r session_id revoked_at (Dict.get r session_id)

-- auth/exceptions.py
pub data InvalidRefreshTokenError : Type 0 where
  invalid_refresh_token : InvalidRefreshTokenError

-- The arguments of the service's constructor, and what it calls of other libraries.
pub record Settings : Type 0 where
  pub hash : String → String
  pub create_access_token : ℕ → String
  pub ttl_days : ℕ

-- What one call reads of the clock, of `secrets` and of `uuid4`.
pub record Draws : Type 0 where
  pub now : ℕ
  pub token : String
  pub session_id : ℕ

abbrev pub Action : Type 0 → Type 0
Action A = Exec (Dict RefreshSession) InvalidRefreshTokenError A

module _ (self : Settings) where
  -- The session that `_create_pair` stores.
  abbrev pub new_session : (user_id : ℕ) → Draws → RefreshSession
  new_session user_id draws = record {
    id = draws.session_id;
    user_id = user_id;
    token_hash = self.hash draws.token;
    created_at = draws.now;
    expires_at = draws.now + days self.ttl_days;
    revoked_at = none;
  }

  unfoldable pub create_pair : (user_id : ℕ) → Draws → Action TokenPair
  create_pair user_id draws = do
    call (λ r. (create_session r (new_session user_id draws), tt {0}))
    return (record { access_token = self.create_access_token user_id; refresh_token = draws.token })

  unfoldable pub issue : (user_id : ℕ) → Draws → Action TokenPair
  unfolding create_pair
  issue user_id draws = create_pair user_id draws

  unfoldable pub refresh : (refresh_token : String) → Draws → Action TokenPair
  unfolding create_pair
  refresh refresh_token draws = do
    found ← gets (λ r. get_by_hash_for_update r (self.hash refresh_token))
    session ← required invalid_refresh_token found
    guard (is_none session.revoked_at) invalid_refresh_token
    guard (not (leb session.expires_at draws.now)) invalid_refresh_token
    revoked ← call (λ r. revoke_session r session.id draws.now)
    guard revoked invalid_refresh_token
    create_pair session.user_id draws

  abbrev revoke_open : Dict RefreshSession → Option RefreshSession → ℕ → Dict RefreshSession
  revoke_open r none now = r
  revoke_open r (some session) now =
      if not (is_none session.revoked_at) then r else (revoke_session r session.id now).0

  unfoldable pub revoke :
      Dict RefreshSession → (refresh_token : String) (now : ℕ) → Dict RefreshSession
  revoke r refresh_token now =
      revoke_open r (get_by_hash_for_update r (self.hash refresh_token)) now
