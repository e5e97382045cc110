-- ===== src/Examples/Sql.antt =====
-- Calls on a repository and its table.
use uptime_platform.Base.{
  ℕ, ◌+◌, ◌-◌, ◌≡◌, refl, Bool, true, false, none, some, List, [], ◌∷◌, arith, ==_iff, ◌==◌,
  if◌then◌else◌,
}
use uptime_platform.Base.Result.{ok}
use uptime_platform.Base.Json.{Conversions}
use uptime_platform.Base.Dict
use uptime_platform.Base.Dict.{
  Dict, values, IsKeyed, get-put, get-del, get-id, put-IsKeyed, del-IsKeyed, values-All,
  count-id-le,
}
use uptime_platform.Monitors.Repository.{is_due, make_claims, install}
use uptime_platform.Monitors.Models.{MonitorModel, new_model, with_lease, to_entity}
use uptime_platform.Monitors.Sql.{claim_due}
use uptime_platform.Monitors.Sql.Config.{to_entity-new_model}
use uptime_platform.Monitors.Sql.Refines.{
  Refines, IsStored, row, Call, getting, locking, releasing, updating, deleting, creating,
}
use uptime_platform.Monitors.Sql.Refines.Answers.{
  answers_in_sql, answers_in_memory, answers-refined,
}
use uptime_platform.Monitors.Sql.Claims.{SameClaims, claim_due-refined}
use uptime_platform.Monitors.Repository
use uptime_platform.Examples.Tables.{Table, session, session-IsSession}
use uptime_platform.Examples.Data.{api, api_claim, one_monitor, claimed_monitor, uuids}

abbrev id : MonitorModel → ℕ
id model = model.id

abbrev conversions : Conversions
conversions = record { print = λ v. ""; parse = λ v. none; each = λ v. none }

to_entity-new_model_example :
    to_entity conversions (with_lease (new_model api) (some 40) (some 9000000)) ≡ ok api
to_entity-new_model_example = to_entity-new_model conversions api (some 40) (some 9000000) refl

-- The monitor under a claim, in memory and in its table.
abbrev leased_row : MonitorModel
leased_row = with_lease (new_model api) (some 40) (some 9000000)

abbrev table : Table id
unfolding new_model Dict.get
table = record { rows = (1, leased_row) ∷ []; keyed = (refl, refl, tt) }

alone-row :
    (b : Bool)
    → (if b then some leased_row else none)
      ≡ row (if b then some api else none) (if b then some api_claim else none)
alone-row true = refl
alone-row false = refl

alone-IsStored :
    (k : ℕ) (b : Bool)
    → (b ≡ true → 1 ≡ k)
    → IsStored k (if b then some api else none) (if b then some api_claim else none)
alone-IsStored k true h = (h refl, refl)
alone-IsStored k false h = refl

table-Refines : Refines (session id) table claimed_monitor
unfolding Dict.get table
table-Refines = record {
  rows = λ k. alone-row (1 == k);
  stored = λ k. alone-IsStored k (1 == k) ((==_iff 1 k).0);
}

-- A worker under the lease reads the monitor and renames it, another is refused, and the lease ends.
abbrev calls : List Call
calls =
    locking 1 none (some 40) 300
    ∷ locking 1 none (some 41) 300
    ∷ updating (record api { name = "renamed" })
    ∷ releasing 1 40
    ∷ deleting 1 8
    ∷ getting 1 7
    ∷ []

answers-refined_example :
    answers_in_sql conversions (session id) table calls ≡ answers_in_memory claimed_monitor calls
unfolding Dict.get uptime_platform.Monitors.Sql.Refines.in_memory
answers-refined_example =
    answers-refined conversions (session id) calls table claimed_monitor (session-IsSession id)
      table-Refines (tt, (tt, ((refl, (refl, refl)), (tt, (tt, (tt, tt))))))

abbrev free_table : Table id
unfolding new_model Dict.get
free_table = record { rows = (1, new_model api) ∷ []; keyed = (refl, refl, tt) }

free-row :
    (b : Bool)
    → (if b then some (new_model api) else none) ≡ row (if b then some api else none) none
free-row true = refl
free-row false = refl

free-IsStored :
    (k : ℕ) (b : Bool) → (b ≡ true → 1 ≡ k) → IsStored k (if b then some api else none) none
free-IsStored k true h = (h refl, refl)
free-IsStored k false h = refl

free-Refines : Refines (session id) free_table one_monitor
unfolding Dict.get free_table
free-Refines = record {
  rows = λ k. free-row (1 == k);
  stored = λ k. free-IsStored k (1 == k) ((==_iff 1 k).0);
}

claim_due-refined_example :
    SameClaims conversions
      (session id)
      (session-IsSession id)
      (claim_due conversions (session id) free_table 3 1000 [] 200 210 uuids)
      (Repository.claim_due one_monitor 3 (1000 + (210 - 200)) [] 200 uuids)
unfolding Dict.get
claim_due-refined_example =
    claim_due-refined conversions (session id) (session-IsSession id) free_table one_monitor 3 1000
      [] 200 210 uuids (refl, refl, tt) free-Refines (omega arith) (omega arith)
