-- ===== src/Monitors/Sql/Refines/Answers.antt =====
-- About src/uptime_platform/monitors/sqlalchemy_repository.py as an implementation of the protocol
-- that monitors/in_memory_repository.py implements: a list of calls.
use uptime_platform.Base.{◌≡◌, refl, ap, ◌∙◌, List, [], ◌∷◌}
use uptime_platform.Base.Json.{Conversions}
use uptime_platform.Base.Session.{Session, IsSession}
use uptime_platform.Monitors.Repository.{MonitorRepository}
use uptime_platform.Monitors.Models.{MonitorModel}
use uptime_platform.Monitors.Sql.Refines.{Refines, Call, Answer, in_memory, in_sql, IsAllowed}
use uptime_platform.Monitors.Sql.Refines.Steps.{call-Step}

-- The answers to a list of calls, and whether all of them are allowed when they come.
unfoldable pub answers_in_memory : MonitorRepository → List Call → List Answer
unfolding in_memory
answers_in_memory r [] = []
answers_in_memory r (call ∷ calls) =
    let (r', a) = in_memory r call in a ∷ answers_in_memory r' calls

unfoldable pub answers_in_sql :
    Conversions → {Db : Type 0} → Session MonitorModel Db → Db → List Call → List Answer
unfolding in_sql
answers_in_sql lib session db [] = []
answers_in_sql lib session db (call ∷ calls) =
    let (db', a) = in_sql lib session db call in a ∷ answers_in_sql lib session db' calls

abbrev pub AreAllowed : MonitorRepository → List Call → Type 0
AreAllowed r [] = Unit
AreAllowed r (call ∷ calls) = IsAllowed r call × AreAllowed (in_memory r call).0 calls

-- The SQL repository refines the in-memory one: over a table with the rows of a repository, any
-- sequence of calls that create, read, lock under a lease, release, update and delete monitors is
-- answered as the repository answers it, leases that run included, when the session does what its
-- laws say. A created monitor has an unused identifier, a changed one keeps its organization and
-- its creation, and both have the configuration of their type.
pub answers-refined :
    (lib : Conversions) {Db : Type 0} (session : Session MonitorModel Db) (calls : List Call)
    (db : Db) (r : MonitorRepository)
    → IsSession (λ model. model.id) session
    → Refines session db r
    → AreAllowed r calls
    → answers_in_sql lib session db calls ≡ answers_in_memory r calls
unfolding answers_in_sql answers_in_memory
answers-refined lib session [] db r laws related h = refl
answers-refined lib session (call ∷ calls) db r laws related (allowed, h) =
    let (same, related') = call-Step lib session laws db r related call allowed in
    ap (λ a. a ∷ answers_in_sql lib session (in_sql lib session db call).0 calls) same
    ∙ ap (λ rest. (in_memory r call).1 ∷ rest)
        (answers-refined lib session calls (in_sql lib session db call).0 (in_memory r call).0 laws
          related' h)
