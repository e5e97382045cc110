-- ===== src/Monitors/Sql.antt =====
-- src/uptime_platform/monitors/sqlalchemy_repository.py, with MonitorModel of models.py. The session
-- is a parameter (Base.Session); a method takes the table and returns the one it leaves. `now` is
-- the reading of clock_timestamp(). Rows that other transactions lock, which `skip_locked` passes
-- over, are not in the model.
pub mod Config
pub mod Refines
pub mod DueRows
pub mod Claims
use text.Mathlib.Text.{◌==◌ as str_eq}
use uptime_platform.Base.{
  ℕ, suc, ◌+◌, String, Bool, true, false, not, ◌&&◌, ◌||◌, Option, none, some, List, [], ◌∷◌, leb,
  ltb, ◌==◌, if◌then◌else◌, is_none, is_key, mem,
}
use uptime_platform.Base.Time.{seconds}
use uptime_platform.Base.Result.{Result, ok, err, ◌>>=◌, ValueError, value_error}
use uptime_platform.Base.Json.{
  Json, null, string, number, flag, numbers, Conversions, ConversionError, conversion_error, Object,
  find, item, default, to_bool, to_str, to_int, to_ints,
}
use uptime_platform.Base.Session.{Session}
use uptime_platform.Monitors.Entities.{
  Monitor, MonitorClaim, MonitorConfig, MonitorType, MonitorStatus, HttpMethod, DnsRecordType,
  is_paused,
}
use uptime_platform.Monitors.Models.{
  MonitorModel, method_value, method_of, record_type_value, record_type_of, codes_json, text_json,
  config_to_dict, codes_of, text_of, config_of, to_entity, new_model, with_lease, assigned,
}

abbrev pub belongs : Option ℕ → MonitorModel → Bool
belongs none model = true
belongs (some organization_id) model = model.organization_id == organization_id

-- `check_lease_until is None or check_lease_until <= now`
abbrev pub expired : Option ℕ → ℕ → Bool
expired none now = true
expired (some t) now = leb t now

abbrev pub lease_lost : MonitorModel → Option ℕ → ℕ → Bool
lease_lost model none now = false
lease_lost model (some lease_token) now =
    not (is_key model.check_lease_token lease_token) || expired model.check_lease_until now

unfoldable pub is_due : List ℕ → ℕ → MonitorModel → Bool
is_due exclude_ids now model =
    leb model.next_check_at now
    && not (is_paused model.status)
    && expired model.check_lease_until now
    && not (mem model.id exclude_ids)

-- `order_by(next_check_at, id)`, and the order by one column.
abbrev pub due_before : MonitorModel → MonitorModel → Bool
due_before m n =
    ltb m.next_check_at n.next_check_at || (m.next_check_at == n.next_check_at && leb m.id n.id)

abbrev pub created_before : MonitorModel → MonitorModel → Bool
created_before m n = leb m.created_at n.created_at

abbrev pub check_before : MonitorModel → MonitorModel → Bool
check_before m n = leb m.next_check_at n.next_check_at

module _ (lib : Conversions) {Db : Type 0} (session : Session MonitorModel Db) where
  -- `None if model is None else self._to_entity(model)`
  abbrev pub entity : Option MonitorModel → Result ConversionError (Option Monitor)
  entity none = ok none
  entity (some model) = do monitor ← to_entity lib model; ok (some monitor)

  unfoldable pub entities : List MonitorModel → Result ConversionError (List Monitor)
  entities [] = ok []
  entities (model ∷ models) = do
    monitor ← to_entity lib model
    rest ← entities models
    ok (monitor ∷ rest)

  unfoldable pub create : Db → Monitor → Db × Result ConversionError Monitor
  unfolding new_model
  create db m = (session.save db (new_model m), to_entity lib (new_model m))

  unfoldable pub get_all : Db → (organization_id : ℕ) → Result ConversionError (List Monitor)
  unfolding entities
  get_all db organization_id =
      entities
        (session.select db (λ model. model.organization_id == organization_id) created_before none)

  unfoldable pub get_by_id :
      Db → (monitor_id organization_id : ℕ) → Result ConversionError (Option Monitor)
  get_by_id db monitor_id organization_id =
      entity (session.one db monitor_id (belongs (some organization_id)))

  -- The model, unless the lease that is asked for is lost.
  abbrev pub fenced : Option MonitorModel → Option ℕ → ℕ → Option MonitorModel
  fenced none lease_token now = none
  fenced (some model) lease_token now =
      if lease_lost model lease_token now then none else some model

  unfoldable pub get_by_id_for_update :
      Db
      → (monitor_id : ℕ) (organization_id lease_token : Option ℕ) (now : ℕ)
      → Result ConversionError (Option Monitor)
  get_by_id_for_update db monitor_id organization_id lease_token now =
      entity (fenced (session.one db monitor_id (belongs organization_id)) lease_token now)

  -- The loop of `claim_due`; `uuid4 i` is the i-th token that the call draws.
  unfoldable pub claim_each :
      (uuid4 : ℕ → ℕ) (i lease_grace now : ℕ)
      → List MonitorModel
      → Db
      → Result ConversionError (Db × List MonitorClaim)
  claim_each uuid4 i lease_grace now [] db = ok (db, [])
  claim_each uuid4 i lease_grace now (model ∷ models) db = do
    let until = now + (seconds model.timeout_seconds + lease_grace)
    let claimed = with_lease model (some (uuid4 i)) (some until)
    monitor ← to_entity lib claimed
    (db', claims) ← claim_each uuid4 (suc i) lease_grace now models (session.save db claimed)
    ok (db', record { monitor = monitor; token = uuid4 i; expires_at = until } ∷ claims)

  -- `read_at` is the clock in the statement, `now` the reading after it.
  unfoldable pub claim_due :
      Db
      → (limit lease_grace : ℕ) (exclude_ids : List ℕ) (read_at now : ℕ) (uuid4 : ℕ → ℕ)
      → Result ValueError (Result ConversionError (Db × List MonitorClaim))
  unfolding claim_each
  claim_due db limit lease_grace exclude_ids read_at now uuid4 =
      if ltb limit 1 || leb lease_grace 0
      then err value_error
      else ok (
          claim_each uuid4 0 lease_grace now
            (session.select db (is_due exclude_ids read_at) due_before (some limit)) db)

  -- The rows of the UPDATE: the one of the identifier, if its token is the caller's.
  abbrev pub released : Db → Option MonitorModel → Db × Bool
  released db none = (db, false)
  released db (some model) = (session.save db (with_lease model none none), true)

  unfoldable pub release_check_lease : Db → (monitor_id token : ℕ) → Db × Bool
  release_check_lease db monitor_id token =
      released db (session.one db monitor_id (λ model. is_key model.check_lease_token token))

  abbrev pub updated :
      Db → Option MonitorModel → Monitor → Db × Result ConversionError (Option Monitor)
  updated db none m = (db, ok none)
  updated db (some model) m = (session.save db (assigned model m), entity (some (assigned model m)))

  unfoldable pub update : Db → Monitor → Db × Result ConversionError (Option Monitor)
  unfolding assigned
  update db m = updated db (session.get db m.id) m

  unfoldable pub delete : Db → (monitor_id organization_id : ℕ) → Db × Bool
  delete db monitor_id organization_id =
      if is_none (session.one db monitor_id (belongs (some organization_id)))
      then (db, false)
      else (session.remove db monitor_id, true)

  unfoldable pub get_due : Db → (now limit : ℕ) → Result ConversionError (List Monitor)
  unfolding entities
  get_due db now limit = entities (
      session.select db (λ model. leb model.next_check_at now && not (is_paused model.status))
        check_before (some limit))
