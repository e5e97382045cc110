-- ===== src/Examples/Auth.antt =====
-- A refresh token that is issued, exchanged and shown again.
use uptime_platform.Base.{
  ℕ, ◌+◌, ◌<◌, ◌≡◌, refl, true, Bool, Option, none, some, List, [], ◌∷◌, arith, String,
}
use uptime_platform.Base.Result.{ok, err}
use uptime_platform.Base.Dict
use uptime_platform.Base.Dict.{Dict}
use uptime_platform.Auth.Refresh.{
  RefreshSession, TokenPair, Settings, Draws, invalid_refresh_token, issue, refresh,
}
use uptime_platform.Auth.Refresh.Exchange.{refresh-issue}
use uptime_platform.Auth.Refresh.Single.{here, refresh_single_use}

abbrev settings : Settings
settings = record { hash = λ token. token; create_access_token = λ user_id. "jwt"; ttl_days = 30 }

abbrev first : Draws
first = record { now = 0; token = "upr_1"; session_id = 1 }

abbrev second : Draws
second = record { now = 50; token = "upr_2"; session_id = 2 }

abbrev third : Draws
third = record { now = 60; token = "upr_3"; session_id = 3 }

abbrev issued : Dict RefreshSession
issued = (issue settings 9 first []).1

abbrev refreshed : Dict RefreshSession
refreshed = (refresh settings "upr_1" second issued).1

refresh-issue_example :
    (refresh settings "upr_1" second issued).0
    ≡ ok (record { access_token = "jwt"; refresh_token = "upr_2" })
unfolding Dict.get uptime_platform.Auth.Refresh.get_by_hash_for_update uptime_platform.Base.find?
refresh-issue_example = refresh-issue settings 9 first second [] refl refl (omega arith)

refresh_single_use_example :
    refresh settings "upr_1" third refreshed ≡ (err invalid_refresh_token, refreshed)
unfolding issue uptime_platform.Auth.Refresh.create_session Dict.put Dict.get
    uptime_platform.Auth.Refresh.get_by_hash_for_update uptime_platform.Base.find?
refresh_single_use_example =
    refresh_single_use settings "upr_1" second third issued refreshed
      (record { access_token = "jwt"; refresh_token = "upr_2" }) (refl, refl, tt) refl
      (refresh-issue settings 9 first second [] refl refl (omega arith)) here
