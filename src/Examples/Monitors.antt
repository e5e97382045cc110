-- ===== src/Examples/Monitors.antt =====
-- The status machine, the leases and the updates of a concrete monitor.
use uptime_platform.Base.{
  ℕ, suc, ◌+◌, ◌<◌, ◌≡◌, ◌≢◌, ◌⊎◌, refl, inl, inr, true, false, not, ◌&&◌, Bool, Option, none, some,
  List, [], ◌∷◌, arith, is_none, count, min, length, filter, if◌then◌else◌, ◌==◌, leb, All, In,
  String,
}
use uptime_platform.Base.Time.{seconds}
use uptime_platform.Base.Result.{ok, err}
use uptime_platform.Base.Dict
use uptime_platform.Base.Dict.{values}
use uptime_platform.Monitors.Entities.{Monitor, MonitorClaim, MonitorConfig, up, down}
use uptime_platform.Monitors.State.{apply_check_result, IsValid, apply_check_result-IsValid}
use uptime_platform.Monitors.State.Runs.{after_run, after_failures}
use uptime_platform.Monitors.Repository.{
  MonitorRepository, claim_due, is_due, due_before, make_claims, install,
}
use uptime_platform.Monitors.Repository.Leases.{claim_due-contract}
use uptime_platform.Monitors.Repository.Exclusive.{
  Call, claiming, releasing, updating, claim_due-exclusive,
}
use uptime_platform.Monitors.Repository.Order.{claim_due_priority}
use uptime_platform.Monitors.Service.{
  Validators, MonitorUpdate, InvalidMonitorConfigError, invalid_monitor_config,
  HttpMonitorConfigUpdate, update, update_config,
}
use uptime_platform.Monitors.Service.Configs.{
  IsSound, kind, SameMachine, update_config-IsSound, update-frame,
}
use uptime_platform.Examples.Data.{http_config, api, one_monitor, uuids}

api-IsValid : IsValid api
api-IsValid = record {
  failure_positive = omega arith;
  recovery_positive = omega arith;
  one_run = inl refl;
  pending_run = λ e. ground arith;
  alive_run = λ e. omega arith;
  down_run = λ e. ground arith;
}

apply_check_result-IsValid_example : IsValid (apply_check_result api false)
apply_check_result-IsValid_example = apply_check_result-IsValid api false api-IsValid

after_failures_example :
    ((after_run api false 3).consecutive_failures ≡ 0 + 3)
    × ((after_run api false 3).status ≡ (if leb 1 (0 + 3) then down else up))
after_failures_example = after_failures api 2 (λ e. ground arith)

abbrev lease : MonitorClaim
lease = record { monitor = api; token = 0; expires_at = 5001200 }

abbrev after_claim : MonitorRepository
after_claim = record { claims = (1, lease) ∷ []; monitors = (1, api) ∷ [] }

first_claim : claim_due one_monitor 10 1000 [] 200 uuids ≡ ok (after_claim, lease ∷ [])
unfolding claim_due install make_claims uptime_platform.Base.Sort.sort filter is_due
    uptime_platform.Base.mem Dict.get Dict.put
first_claim = refl

claim_due-contract_example :
    All
      (λ c.
        (is_due one_monitor [] 200 c.monitor ≡ true)
        × (c.expires_at ≡ 200 + (seconds c.monitor.timeout_seconds + 1000)))
      (lease ∷ [])
    × All (λ c. Dict.get after_claim.claims c.monitor.id ≡ some c) (lease ∷ [])
    × (length (lease ∷ [])
        ≡ min 10 (count (is_due one_monitor [] 200) (values one_monitor.monitors)))
    × (after_claim.monitors ≡ one_monitor.monitors)
unfolding Dict.get
claim_due-contract_example =
    claim_due-contract one_monitor after_claim 10 1000 [] 200 uuids (lease ∷ []) (refl, refl, tt)
      first_claim

abbrev web : Monitor
web = record api { id = 2; next_check_at = 50 }

abbrev two_monitors : MonitorRepository
two_monitors = record { claims = []; monitors = (1, api) ∷ (2, web) ∷ [] }

abbrev web_lease : MonitorClaim
web_lease = record { monitor = web; token = 0; expires_at = 5001200 }

abbrev after_web : MonitorRepository
after_web = record two_monitors { claims = (2, web_lease) ∷ [] }

abbrev api_lease : MonitorClaim
api_lease = record { monitor = api; token = 0; expires_at = 5001300 }

abbrev after_both : MonitorRepository
after_both = record two_monitors { claims = (2, web_lease) ∷ (1, api_lease) ∷ [] }

claim_web : claim_due two_monitors 1 1000 [] 200 uuids ≡ ok (after_web, web_lease ∷ [])
unfolding claim_due install make_claims uptime_platform.Base.Sort.sort filter is_due
    uptime_platform.Base.mem Dict.get due_before Dict.put
claim_web = refl

claim_api : claim_due after_web 1 1000 [] 300 uuids ≡ ok (after_both, api_lease ∷ [])
unfolding claim_due install make_claims uptime_platform.Base.Sort.sort filter is_due
    uptime_platform.Base.mem Dict.get Dict.put
claim_api = refl

-- Another worker asks for nothing, a stale release is refused, and the other monitor is written again.
abbrev between : List Call
between = claiming 0 1000 [] 250 uuids ∷ releasing web.id 99 ∷ updating api ∷ []

claim_due-exclusive_example : api.id ≢ web.id
unfolding Dict.get Dict.put uptime_platform.Monitors.Repository.Exclusive.calls
    uptime_platform.Monitors.Repository.Exclusive.call claim_due
    uptime_platform.Monitors.Repository.release_check_lease
    uptime_platform.Monitors.Repository.update
claim_due-exclusive_example =
    claim_due-exclusive two_monitors after_web after_both 1 1 1000 1000 [] [] 200 300 uuids uuids
      (web_lease ∷ []) (api_lease ∷ []) web_lease api_lease between (refl, refl, (refl, refl, tt))
      claim_web (inl refl) (omega arith, ((λ _ e. absurd (omega (arith, e))), (tt, tt))) claim_api
      (inl refl) (omega arith)

claim_due_priority_example :
    (rest : List Monitor) × ((p : Monitor → Bool)
      → count p (web ∷ []) + count p rest
        ≡ count p (filter (is_due two_monitors [] 200) (values two_monitors.monitors)))
    × All (λ m. All (λ c. due_before c m ≡ true) (web ∷ [])) rest
claim_due_priority_example =
    claim_due_priority two_monitors after_web 1 1000 [] 200 uuids (web_lease ∷ []) claim_web

abbrev http_change : HttpMonitorConfigUpdate
http_change = record {
  url = some "https://other.example";
  method = none;
  expected_status_codes = none;
  expected_status_codes_set = false;
  body_contains = some "ok";
  body_contains_set = true;
  follow_redirects = none;
  verify_tls = none;
}

abbrev validate : Validators ℕ
validate = record {
  http_update = λ raw. ok http_change;
  tcp_update = λ raw. err invalid_monitor_config;
  dns_update = λ raw. err invalid_monitor_config;
  tls_update = λ raw. err invalid_monitor_config;
  icmp_update = λ raw. err invalid_monitor_config;
}

abbrev changed_config : MonitorConfig
changed_config =
    MonitorConfig.http
      (record http_config { url = "https://other.example"; body_contains = some "ok" })

update_config-IsSound_example : (kind changed_config ≡ kind api.config) × IsSound changed_config
unfolding update_config
update_config-IsSound_example = update_config-IsSound validate api.config 0 changed_config refl

abbrev change : MonitorUpdate ℕ
change = record {
  name = some "main";
  config = some 0;
  interval_seconds = none;
  timeout_seconds = none;
  failure_threshold = none;
  recovery_threshold = none;
}

abbrev changed : Monitor
changed = record api { name = "main"; config = changed_config }

abbrev changed_repository : MonitorRepository
changed_repository = record one_monitor { monitors = (1, changed) ∷ [] }

update-frame_example :
    (m : Monitor) × (Dict.get one_monitor.monitors 1 ≡ some m)
    × (m.organization_id ≡ 7)
    × SameMachine m changed
    × ((k : ℕ)
        → Dict.get changed_repository.monitors k
          ≡ (if 1 == k then some changed else Dict.get one_monitor.monitors k))
    × (changed_repository.claims ≡ one_monitor.claims)
unfolding Dict.get update uptime_platform.Monitors.Repository.get_by_id_for_update update_config
    uptime_platform.Monitors.Repository.update uptime_platform.Monitors.Service.updated_monitor
    Dict.put
update-frame_example =
    update-frame validate one_monitor changed_repository 7 1 change 200 changed (refl, refl, tt)
      refl
