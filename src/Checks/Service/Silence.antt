-- ===== src/Checks/Service/Silence.antt =====
-- About results that `record` of src/uptime_platform/checks/service.py takes during maintenance.
use mathlib.Core.Path.{subst}
use uptime_platform.Base.{
  ℕ, ◌≡◌, refl, sym, ap, ◌∙◌, Option, none, some, List, [], ◌∷◌, ◌++◌, if◌then◌else◌, ◌==◌, ==_iff,
  inl, inr, Bool-cases, Option-cases, All, arith,
}
use mathlib.Core.List.{append-nil, append_assoc}
use uptime_platform.Base.Dict
use uptime_platform.Base.Dict.{Dict, get-put, get-id}
use uptime_platform.Monitors.Entities.{Monitor}
use uptime_platform.Monitors.Repository
use uptime_platform.Monitors.Repository.Leases.{IsWellFormed}
use uptime_platform.Maintenance
use uptime_platform.Maintenance.{MaintenanceWindow}
use uptime_platform.Checks.Entities.{Check}
use uptime_platform.Checks.Repository as CheckRepository
use uptime_platform.Checks.Service.{Store, reschedule, release, settle, record_check}
use uptime_platform.Checks.Service.Consistency.{rescheduled, release-monitors, reschedule-monitors}
use uptime_platform.Checks.Service.Effects.{record_check-none, record_check-some}
use uptime_platform.Checks.Service.Keyed.{record_check-IsWellFormed}
use uptime_platform.Notifications.Content.{Filters}
use uptime_platform.Checks.Service.Recordings.{
  Recording, Silent, machine, IsCheckOf, Answered, present, get_by_id_for_update-get,
  not_locked-Missing, Answered-before,
}

module _ (lib : Filters) where
  abbrev pub recorded : Store → Recording → Store × Option Check
  recorded s x = record_check lib s x.monitor_id x.result x.lease_token x.checked x.draws

  unfoldable pub record_each : List Recording → Store → Store × List (Option Check)
  record_each [] s = (s, [])
  record_each (x ∷ xs) s =
      let (s', answer) = recorded s x in
      let (s'', answers) = record_each xs s' in (s'', answer ∷ answers)

  -- What the recordings leave, and what they add.
  pub record Silenced (s s' : Store) (checks : List Check) : Type 0 where
    pub incidents : s'.incidents ≡ s.incidents
    pub outbox : s'.outbox ≡ s.outbox
    pub windows : s'.windows ≡ s.windows
    pub monitors :
        (k : ℕ)
        → machine (Dict.get s'.monitors.monitors k) ≡ machine (Dict.get s.monitors.monitors k)
    pub added : s'.checks ≡ s.checks ++ checks

  -- A recording under the lock, in a window.
  module _ (s : Store) (x : Recording) (m : Monitor) (w : MaintenanceWindow)
      (held : Dict.get s.monitors.monitors x.monitor_id ≡ some m)
      (named : m.id ≡ x.monitor_id) where
    abbrev checked_at : ℕ
    checked_at = x.draws.checked_at

    abbrev stored : List Check × Check
    stored = CheckRepository.create s.checks m.id x.result checked_at

    abbrev moved : Store
    moved = reschedule (record s { checks = stored.0 }) m checked_at

    abbrev ended : Store
    ended = release moved x.monitor_id x.lease_token

    ended-windows : ended.windows ≡ s.windows
    unfolding reschedule
    ended-windows = ground arith

    rescheduled-machine :
        (k : ℕ)
        → machine
            (Dict.get (Dict.put s.monitors.monitors x.monitor_id (rescheduled m checked_at)) k)
          ≡ machine (Dict.get s.monitors.monitors k)
    rescheduled-machine k = elim (Bool-cases (x.monitor_id == k)) [
      | inr e ↦ ap machine (
          get-put s.monitors.monitors x.monitor_id k (rescheduled m checked_at)
          ∙ ap (λ b. if b then some (rescheduled m checked_at) else Dict.get s.monitors.monitors k)
              e)
      | inl e ↦
          ap machine (
            get-put s.monitors.monitors x.monitor_id k (rescheduled m checked_at)
            ∙ ap
                (λ b. if b then some (rescheduled m checked_at) else Dict.get s.monitors.monitors k)
                e)
          ∙ ap machine (sym held ∙ ap (Dict.get s.monitors.monitors) ((==_iff x.monitor_id k).0 e))
    ]

    ended-Silenced : Silenced s ended (stored.1 ∷ [])
    unfolding reschedule CheckRepository.create
    ended-Silenced =
        let rest = release-monitors moved x.monitor_id x.lease_token in
        record {
          incidents = rest.1;
          outbox = rest.2;
          windows = ended-windows;
          monitors = λ k.
              ap (λ d. machine (Dict.get d k))
                (rest.0
                  ∙ (reschedule-monitors (record s { checks = stored.0 }) m m x.monitor_id
                      checked_at named held).0)
              ∙ rescheduled-machine k;
          added = rest.3;
        }

    stored-IsCheckOf : IsCheckOf x stored.1
    unfolding CheckRepository.create
    stored-IsCheckOf = (named, refl, refl, refl)

  abbrev pub Step : Store → Recording → Store × Option Check → Type 0
  Step s x out =
      Silenced s out.0 (present (out.1 ∷ [])) × Answered s.monitors.monitors (x ∷ []) (out.1 ∷ [])

  recorded-Step :
      (s : Store) (x : Recording)
      → IsWellFormed s.monitors
      → Silent s.windows x
      → Step s x (recorded s x)
  unfolding settle
  recorded-Step s x wf (w, running) =
      elim (Option-cases (
        Repository.get_by_id_for_update s.monitors x.monitor_id none x.lease_token
          x.draws.locked_at)) [
            | inl e ↦
                rw (record_check-none lib s x.monitor_id x.result x.checked x.draws x.lease_token e)
                  (
                    record {
                      incidents = refl;
                      outbox = refl;
                      windows = refl;
                      monitors = λ k. refl;
                      added = sym (append-nil s.checks);
                    },
                    (not_locked-Missing s.monitors x x.draws.locked_at e, tt),
                  )
            | inr (m, e) ↦
                let held =
                  get_by_id_for_update-get s.monitors x.monitor_id x.lease_token x.draws.locked_at m
                    e in
                let named = get-id (λ m. m.id) s.monitors.monitors wf held in
                let window =
                  ap (λ k. Maintenance.get_active s.windows k x.draws.checked_at) named ∙ running in
                rw
                  (
                    record_check-some lib s x.monitor_id x.result x.checked x.draws x.lease_token m
                        e,
                    window,
                  )
                  (ended-Silenced s x m w held named, (stored-IsCheckOf s x m w held named, tt))
          ]

  present-cons :
      (answer : Option Check) (answers : List (Option Check))
      → present (answer ∷ []) ++ present answers ≡ present (answer ∷ answers)
  present-cons none answers = refl
  present-cons (some c) answers = refl

  Answered-cons :
      (monitors : Dict Monitor) (x : Recording) (xs : List Recording) (answer : Option Check)
      (answers : List (Option Check))
      → Answered monitors (x ∷ []) (answer ∷ [])
      → Answered monitors xs answers
      → Answered monitors (x ∷ xs) (answer ∷ answers)
  Answered-cons monitors x xs none answers h hs = (h.0, hs)
  Answered-cons monitors x xs (some c) answers h hs = (h.0, hs)

  Silenced-trans :
      (s s' s'' : Store) (checks checks' : List Check)
      → Silenced s s' checks
      → Silenced s' s'' checks'
      → Silenced s s'' (checks ++ checks')
  Silenced-trans s s' s'' checks checks' h k = record {
    incidents = k.incidents ∙ h.incidents;
    outbox = k.outbox ∙ h.outbox;
    windows = k.windows ∙ h.windows;
    monitors = λ j. k.monitors j ∙ h.monitors j;
    added = k.added ∙ ap (λ cs. cs ++ checks') h.added ∙ append_assoc s.checks checks checks';
  }

  -- Over monitors stored under their identifiers: any sequence of results, of any workers, each
  -- taken while a window of its monitor is running, opens and resolves no incident, writes no event,
  -- and leaves every monitor as it was but for its next check, its status and its runs included.
  -- What it adds to the stored checks is what it returns, and each of those has the monitor, the
  -- time and the outcome of its result. A result without a lease is discarded only when its monitor
  -- is not stored.
  pub record_each-Silenced :
      (xs : List Recording) (s : Store)
      → IsWellFormed s.monitors
      → All (Silent s.windows) xs
      → Silenced s (record_each xs s).0 (present (record_each xs s).1)
        × Answered s.monitors.monitors xs (record_each xs s).1
  unfolding record_each
  record_each-Silenced [] s wf silent = (
    record {
      incidents = refl;
      outbox = refl;
      windows = refl;
      monitors = λ k. refl;
      added = sym (append-nil s.checks);
    },
    tt,
  )
  record_each-Silenced (x ∷ xs) s wf (now, later) =
      let (s', answer) = recorded s x in
      let (step, told) = recorded-Step s x wf now in
      let (rest, all_told) =
        record_each-Silenced xs s'
          (record_check-IsWellFormed lib s x.monitor_id x.result x.lease_token x.checked x.draws wf)
          (subst (λ windows. All (Silent windows) xs) (sym step.windows) later) in
      (
        subst (Silenced s (record_each xs s').0) (present-cons answer (record_each xs s').1) (
            Silenced-trans s s' (record_each xs s').0 (present (answer ∷ []))
              (present (record_each xs s').1) step rest),
        Answered-cons s.monitors.monitors x xs answer (record_each xs s').1 told (
            Answered-before s'.monitors.monitors s.monitors.monitors step.monitors xs
              (record_each xs s').1 all_told),
      )
