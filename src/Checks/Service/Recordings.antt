-- ===== src/Checks/Service/Recordings.antt =====
-- Sequences of calls of `record` of src/uptime_platform/checks/service.py, and what is said of them.
use uptime_platform.Base.{ℕ, ◌≡◌, refl, Option, none, some, List, [], ◌∷◌, arith}
use uptime_platform.Base.Dict
use uptime_platform.Base.Dict.{Dict, get-put, get-id}
use uptime_platform.Monitors.Entities.{Monitor}
use uptime_platform.Monitors.Repository
use uptime_platform.Maintenance
use uptime_platform.Maintenance.{MaintenanceWindow}
use uptime_platform.Checks.Entities.{Check, CheckResult}
use uptime_platform.Checks.Service.{Draws}

-- One call of `record`.
pub record Recording : Type 0 where
  pub monitor_id : ℕ
  pub result : CheckResult
  pub lease_token : Option ℕ
  pub checked : Option Monitor
  pub draws : Draws

-- A window of the monitor is running when the check is stored.
abbrev pub Silent : Dict MaintenanceWindow → Recording → Type 0
Silent windows x =
    (w : MaintenanceWindow) × (Maintenance.get_active windows x.monitor_id x.draws.checked_at
      ≡ some w)

-- The monitor but for the time of its next check.
abbrev pub machine : Option Monitor → Option Monitor
machine none = none
machine (some m) = some (record m { next_check_at = 0 })

-- The check has the monitor, the time and the outcome of the recording.
abbrev pub IsCheckOf : Recording → Check → Type 0
IsCheckOf x c =
    (c.monitor_id ≡ x.monitor_id)
    × (c.checked_at ≡ x.draws.checked_at)
    × (c.success ≡ x.result.success)
    × (c.error ≡ x.result.error)

-- Without a lease, a result is discarded only when its monitor is not stored.
abbrev pub Missing : Dict Monitor → Recording → Type 0
Missing monitors x = x.lease_token ≡ none → Dict.get monitors x.monitor_id ≡ none

-- Each answer is that the result was discarded, or the check of its recording.
abbrev pub Answered : Dict Monitor → List Recording → List (Option Check) → Type 0
Answered monitors [] [] = Unit
Answered monitors (x ∷ xs) (none ∷ answers) = Missing monitors x × Answered monitors xs answers
Answered monitors (x ∷ xs) (some c ∷ answers) = IsCheckOf x c × Answered monitors xs answers
Answered monitors xs answers = ⊥

abbrev pub present : List (Option Check) → List Check
present [] = []
present (none ∷ answers) = present answers
present (some c ∷ answers) = c ∷ present answers

pub get_by_id_for_update-get :
    (r : Repository.MonitorRepository) (k : ℕ) (token : Option ℕ) (now : ℕ) (m : Monitor)
    → Repository.get_by_id_for_update r k none token now ≡ some m
    → Dict.get r.monitors k ≡ some m
unfolding Repository.get_by_id_for_update
get_by_id_for_update-get r k token now m h = ground arith

pub not_locked-Missing :
    (r : Repository.MonitorRepository) (x : Recording) (now : ℕ)
    → Repository.get_by_id_for_update r x.monitor_id none x.lease_token now ≡ none
    → Missing r.monitors x
unfolding Repository.get_by_id_for_update
not_locked-Missing r x now h free = ground arith

machine-none : (m n : Option Monitor) → machine m ≡ machine n → m ≡ none → n ≡ none
machine-none none none h e = refl
machine-none none (some n) h e = cc
machine-none (some m) n h e = cc

-- What is missing after the monitors kept their machines was missing before.
pub Answered-before :
    (after before : Dict Monitor)
    → ((k : ℕ) → machine (Dict.get after k) ≡ machine (Dict.get before k))
    → (xs : List Recording) (answers : List (Option Check)) → Answered after xs answers
    → Answered before xs answers
Answered-before after before same [] [] h = tt
Answered-before after before same [] (a ∷ answers) h = absurd h
Answered-before after before same (x ∷ xs) [] h = absurd h
Answered-before after before same (x ∷ xs) (none ∷ answers) (missing, h) = (
  (λ free.
      machine-none (Dict.get after x.monitor_id) (Dict.get before x.monitor_id) (same x.monitor_id)
        (missing free)),
  Answered-before after before same xs answers h,
)
Answered-before after before same (x ∷ xs) (some c ∷ answers) (told, h) =
    (told, Answered-before after before same xs answers h)
