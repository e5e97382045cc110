-- ===== src/Monitors/Sql/Refines.antt =====
-- About src/uptime_platform/monitors/sqlalchemy_repository.py as an implementation of the protocol
-- that monitors/in_memory_repository.py implements.
pub mod Rows
pub mod Steps
pub mod Answers
use mathlib.Core.Path.{subst}
use uptime_platform.Base.{
  ℕ, ◌≡◌, refl, sym, ap, ◌∙◌, Bool, true, false, Option, none, some, List, [], ◌∷◌, arith, ◌==◌,
  if◌then◌else◌, ==_iff, Bool-cases, Option-cases, inl, inr, is_none, is_key, some_inj,
}
use uptime_platform.Base.Result.{Result, ok, err}
use uptime_platform.Base.Json.{Conversions, ConversionError}
use uptime_platform.Base.Session.{Session, IsSession, where_row}
use uptime_platform.Base.Dict
use uptime_platform.Base.Dict.{get-put, get-del}
use uptime_platform.Monitors.Entities.{Monitor, MonitorClaim}
use uptime_platform.Monitors.Repository
use uptime_platform.Monitors.Repository.{MonitorRepository}
use uptime_platform.Monitors.Service.Configs.{kind}
use uptime_platform.Monitors.Sql
use uptime_platform.Monitors.Models.{MonitorModel, new_model, with_lease, assigned, to_entity}
use uptime_platform.Monitors.Sql.{entity, fenced, released, updated, belongs}
use uptime_platform.Monitors.Sql.Config.{to_entity-new_model}

-- The row of a monitor and its claim.
abbrev pub row : Option Monitor → Option MonitorClaim → Option MonitorModel
row none claim = none
row (some m) none = some (new_model m)
row (some m) (some c) = some (with_lease (new_model m) (some c.token) (some c.expires_at))

-- A stored monitor stands under its identifier and has the configuration of its type; a claim is
-- for a stored monitor.
abbrev pub IsStored : ℕ → Option Monitor → Option MonitorClaim → Type 0
IsStored k none claim = claim ≡ none
IsStored k (some m) claim = (m.id ≡ k) × (kind m.config ≡ m.monitor_type)

module _ {Db : Type 0} (session : Session MonitorModel Db) where
  -- The table has just the rows of the repository.
  pub record Refines (db : Db) (r : MonitorRepository) : Type 0 where
    pub rows : (k : ℕ) → session.get db k ≡ row (Dict.get r.monitors k) (Dict.get r.claims k)
    pub stored : (k : ℕ) → IsStored k (Dict.get r.monitors k) (Dict.get r.claims k)

-- The calls of the protocol that name one monitor.
pub data Call : Type 0 where
  creating : Monitor → Call
  getting : (monitor_id organization_id : ℕ) → Call
  locking : (monitor_id : ℕ) (organization_id lease_token : Option ℕ) (now : ℕ) → Call
  releasing : (monitor_id token : ℕ) → Call
  updating : Monitor → Call
  deleting : (monitor_id organization_id : ℕ) → Call

-- What a caller sees.
pub data Answer : Type 0 where
  found : Option Monitor → Answer
  done : Bool → Answer
  unreadable : Answer

abbrev pub answer : Result ConversionError (Option Monitor) → Answer
answer (ok m) = found m
answer (err e) = unreadable

abbrev pub created : Result ConversionError Monitor → Answer
created (ok m) = found (some m)
created (err e) = unreadable

unfoldable pub in_memory : MonitorRepository → Call → MonitorRepository × Answer
unfolding Repository.create Repository.get_by_id Repository.get_by_id_for_update
    Repository.release_check_lease Repository.update Repository.delete
in_memory r (creating m) = let (r', m') = Repository.create r m in (r', found (some m'))
in_memory r (getting k org) = (r, found (Repository.get_by_id r k org))
in_memory r (locking k org token now) =
    (r, found (Repository.get_by_id_for_update r k org token now))
in_memory r (releasing k token) =
    let (r', b) = Repository.release_check_lease r k token in (r', done b)
in_memory r (updating m) = let (r', m') = Repository.update r m in (r', found m')
in_memory r (deleting k org) = let (r', b) = Repository.delete r k org in (r', done b)

module _ (lib : Conversions) {Db : Type 0} (session : Session MonitorModel Db) where
  unfoldable pub in_sql : Db → Call → Db × Answer
  unfolding Sql.create Sql.get_by_id Sql.get_by_id_for_update Sql.release_check_lease Sql.update
      Sql.delete
  in_sql db (creating m) = let (db', m') = Sql.create lib session db m in (db', created m')
  in_sql db (getting k org) = (db, answer (Sql.get_by_id lib session db k org))
  in_sql db (locking k org token now) =
      (db, answer (Sql.get_by_id_for_update lib session db k org token now))
  in_sql db (releasing k token) =
      let (db', b) = Sql.release_check_lease lib session db k token in (db', done b)
  in_sql db (updating m) = let (db', m') = Sql.update lib session db m in (db', answer m')
  in_sql db (deleting k org) = let (db', b) = Sql.delete lib session db k org in (db', done b)

-- What the program keeps to: a new monitor has an unused identifier, and a changed one keeps its
-- organization and its creation; both have the configuration of their type.
abbrev pub SameOrigin : Monitor → Option Monitor → Type 0
SameOrigin m none = Unit
SameOrigin m (some old) =
    (m.organization_id ≡ old.organization_id) × (m.created_at ≡ old.created_at)

abbrev pub IsAllowed : MonitorRepository → Call → Type 0
IsAllowed r (creating m) = (Dict.get r.monitors m.id ≡ none) × (kind m.config ≡ m.monitor_type)
IsAllowed r (updating m) =
    (kind m.config ≡ m.monitor_type) × SameOrigin m (Dict.get r.monitors m.id)
IsAllowed r _ = Unit
