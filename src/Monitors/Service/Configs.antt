-- ===== src/Monitors/Service/Configs.antt =====
-- About `update` and `_update_config` of src/uptime_platform/monitors/service.py.
use uptime_platform.Base.{
  ℕ, ◌≡◌, false, ◌==◌, Option, none, some, if◌then◌else◌, arith, is_none, not, ◌&&◌, inl, inr,
  Option-cases,
}
use uptime_platform.Base.Result.{Result, ok}
use uptime_platform.Base.Dict
use uptime_platform.Base.Dict.{IsKeyed, get-put, get-id}
use uptime_platform.Monitors.Entities.{MonitorType, MonitorConfig, Monitor}
use uptime_platform.Monitors.Repository
use uptime_platform.Monitors.Repository.{MonitorRepository}
use uptime_platform.Monitors.Repository.Leases.{IsWellFormed}
use uptime_platform.Monitors.Service.{
  Validators, MonitorUpdate, is_head, InvalidMonitorConfigError, update, update_config,
  updated_monitor, store_update,
}

-- A HEAD check has no body to search.
abbrev pub IsSound : MonitorConfig → Type 0
IsSound (MonitorConfig.http c) = (is_head c.method && not (is_none c.body_contains)) ≡ false
IsSound _ = Unit

-- The class of the configuration, as the monitor type that asks for it.
abbrev pub kind : MonitorConfig → MonitorType
kind (MonitorConfig.http _) = MonitorType.http
kind (MonitorConfig.tcp _) = MonitorType.tcp
kind (MonitorConfig.dns _) = MonitorType.dns
kind (MonitorConfig.tls _) = MonitorType.tls
kind (MonitorConfig.icmp _) = MonitorType.icmp

-- The fields that an update never touches.
pub record SameMachine (m m' : Monitor) : Type 0 where
  pub id : m'.id ≡ m.id
  pub organization_id : m'.organization_id ≡ m.organization_id
  pub monitor_type : m'.monitor_type ≡ m.monitor_type
  pub status : m'.status ≡ m.status
  pub created_at : m'.created_at ≡ m.created_at
  pub next_check_at : m'.next_check_at ≡ m.next_check_at
  pub consecutive_failures : m'.consecutive_failures ≡ m.consecutive_failures
  pub consecutive_successes : m'.consecutive_successes ≡ m.consecutive_successes

found_in :
    (r : MonitorRepository) (organization_id monitor_id now : ℕ) (m : Monitor)
    → Repository.get_by_id_for_update r monitor_id (some organization_id) none now ≡ some m
    → (Dict.get r.monitors monitor_id ≡ some m) × (m.organization_id ≡ organization_id)
unfolding Repository.get_by_id_for_update
found_in r org id now m h = ground arith

not_none :
    {r r' : MonitorRepository} {m' : Monitor}
    → ◌≡◌ {A = Result InvalidMonitorConfigError (MonitorRepository × Option Monitor)}
        (ok (r, none))
        (ok (r', some m'))
    → ⊥
not_none h = cc

module _ {Raw : Type 0} (validate : Validators Raw) where
  -- Whatever the request, an accepted update of a configuration keeps its class and does not
  -- search the body of a HEAD check.
  pub update_config-IsSound :
      (current : MonitorConfig) (raw : Raw) (config : MonitorConfig)
      → update_config validate current raw ≡ ok config
      → (kind config ≡ kind current) × IsSound config
  unfolding update_config
  update_config-IsSound (MonitorConfig.http c) raw (MonitorConfig.http d) h = ground arith
  update_config-IsSound _ raw _ h = ground arith

  store_update-eq-ok :
      (r r' : MonitorRepository) (m m' : Monitor) (change : MonitorUpdate Raw)
      → store_update validate r m change ≡ ok (r', some m')
      → SameMachine m m' × (r' ≡ record r { monitors = Dict.put r.monitors m'.id m' })
  unfolding store_update Repository.update updated_monitor
  store_update-eq-ok r r' m m' change h = ground arith

  -- Over monitors stored under their identifiers, an accepted update of a monitor belongs to the
  -- organization that asked, leaves identity, status, counters and schedule alone, is what a
  -- lookup then finds, and touches no other monitor and no lease.
  pub update-frame :
      (r r' : MonitorRepository) (organization_id monitor_id : ℕ) (change : MonitorUpdate Raw)
      (now : ℕ) (m' : Monitor)
      → IsWellFormed r
      → update validate r organization_id monitor_id change now ≡ ok (r', some m')
      → (m : Monitor) × (Dict.get r.monitors monitor_id ≡ some m)
        × (m.organization_id ≡ organization_id)
        × SameMachine m m'
        × ((k : ℕ)
            → Dict.get r'.monitors k ≡ (if monitor_id == k then some m' else Dict.get r.monitors k))
        × (r'.claims ≡ r.claims)
  unfolding update
  update-frame r r' org id change now m' wf h =
      elim (Option-cases (Repository.get_by_id_for_update r id (some org) none now)) [
        | inl e ↦ absurd (not_none (rw (e, update) at h))
        | inr (m, e) ↦
            let (stored, owned) = found_in r org id now m e in
            let (same, e') = store_update-eq-ok r r' m m' change (rw (e, update) at h) in
            (
              m,
              stored,
              owned,
              same,
              (λ k. ground (
                arith,
                get-put r.monitors m'.id k m',
                get-id (λ n. n.id) r.monitors {k = id} {v = m} wf,
              )),
              ground arith,
            )
      ]
