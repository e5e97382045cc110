-- ===== src/Monitors/Sql/Claims.antt =====
-- About `claim_due` of src/uptime_platform/monitors/sqlalchemy_repository.py.
use mathlib.Core.Path.{subst}
use uptime_platform.Base.{
  ltb, leb, ◌||◌, ℕ, suc, ◌+◌, ◌-◌, ◌≤◌, ◌≡◌, refl, sym, ap, ◌∙◌, Bool, true, false, Option, none,
  some, some_inj, List, [], ◌∷◌, map, if◌then◌else◌, All, All-imp, take,
}
use uptime_platform.Base.Time.{seconds}
use uptime_platform.Base.Result.{Result, ok, err, ValueError, value_error}
use uptime_platform.Base.Json.{Conversions, ConversionError}
use uptime_platform.Base.Session.{Session, IsSession, Selectable, select-IsFirst}
use uptime_platform.Base.Selection.{IsFirst-unique}
use uptime_platform.Base.Selected.{Passing, take-IsFirst, map-IsFirst}
use uptime_platform.Base.Dict
use uptime_platform.Base.Dict.{get-put}
use uptime_platform.Monitors.Entities.{Monitor, MonitorClaim}
use uptime_platform.Monitors.Repository
use uptime_platform.Monitors.Repository.{MonitorRepository, make_claims, install, due_list}
use uptime_platform.Monitors.Repository.Leases.{IsWellFormed}
use uptime_platform.Monitors.Sql
use uptime_platform.Monitors.Models.{MonitorModel, new_model, with_lease, to_entity}
use uptime_platform.Monitors.Sql.{claim_each, claim_due, due_before}
use uptime_platform.Monitors.Sql.DueRows.{
  row_of, row-row_of, is_due-row_of, row_of-id, longer, make_claims-later, due_before-IsOrder,
  due_rows-IsOrder, due_before-row_of, stored_row,
}
use uptime_platform.Monitors.Sql.Config.{to_entity-new_model}
use uptime_platform.Monitors.Sql.Refines.{Refines, IsStored, row}
use uptime_platform.Monitors.Sql.Refines.Rows.{written-Refines, unchanged}

module _ (lib : Conversions) {Db : Type 0} (session : Session MonitorModel Db)
    (laws : IsSession (λ model. model.id) session) where
  module _ (db : Db) (r : MonitorRepository) (related : Refines session db r) where
    -- A claim of one stored monitor.
    claimed-Refines :
        (m : Monitor) (c : MonitorClaim)
        → Dict.get r.monitors m.id ≡ some m
        → Refines session
            (session.save db (with_lease (new_model m) (some c.token) (some c.expires_at)))
            (record r { claims = Dict.put r.claims m.id c })
    unfolding new_model
    claimed-Refines m c held =
        let claimed = with_lease (new_model m) (some c.token) (some c.expires_at) in
        written-Refines lib session laws db r related m.id _ _ (some claimed) (some m) (some c)
          (laws.get-save db claimed)
          (λ j. unchanged lib session laws db r related m.id (Dict.get r.monitors) (some m) j held)
          (λ j. get-put r.claims m.id j c) refl
          (
            refl,
            (subst (λ x. IsStored m.id x (Dict.get r.claims m.id)) held (related.stored m.id)).1,
          )

    abbrev as_row : Monitor → MonitorModel
    as_row m = row_of m (Dict.get r.claims m.id)

    module _ (wf : IsWellFormed r) (ex : List ℕ) (read_at : ℕ) where
      abbrev DueRow : MonitorModel → Type 0
      DueRow = Selectable session (λ model. model.id) db (Sql.is_due ex read_at)

      abbrev DueMonitor : Monitor → Type 0
      DueMonitor =
          Passing (λ m. m.id) Repository.due_before due_before-IsOrder
            (Repository.is_due r ex read_at) r.monitors wf

      stored-DueRow : (m : Monitor) → DueMonitor m → DueRow (as_row m)
      stored-DueRow m (due, held) =
          let c = Dict.get r.claims m.id in
          (
            is_due-row_of ex read_at r m c refl ∙ due,
            ap (session.get db) (row_of-id m c)
                ∙ related.rows m.id
                ∙ ap (λ x. row x c) held
                ∙ row-row_of m c,
          )

      -- A due row is the one of a stored monitor that is due.
      DueRow-monitor :
          (model : MonitorModel) → DueRow model → (m : Monitor) × (model ≡ as_row m) × DueMonitor m
      DueRow-monitor model (due, held) =
          let claim = Dict.get r.claims model.id in
          let (m, found, id, shape) =
            stored_row (Dict.get r.monitors model.id) claim model.id model (related.stored model.id)
              (sym (related.rows model.id) ∙ held) in
          let same = shape ∙ ap (λ k. row_of m (Dict.get r.claims k)) (sym id) in
          (
            m,
            same,
            (
              sym (is_due-row_of ex read_at r m (Dict.get r.claims m.id) refl)
                  ∙ ap (Sql.is_due ex read_at) (sym same)
                  ∙ due,
              ap (Dict.get r.monitors) id ∙ found,
            ),
          )

      -- The statement selects the rows of what the slice of the sorted comprehension has.
      select-take :
          (limit : ℕ)
          → session.select db (Sql.is_due ex read_at) due_before (some limit)
            ≡ map as_row (take limit (due_list r ex read_at))
      select-take limit =
          IsFirst-unique (λ model. model.id) due_before due_rows-IsOrder DueRow limit _ _
            (λ x y h k e. some_inj (sym h.1 ∙ ap (session.get db) e ∙ k.1))
            (select-IsFirst (λ model. model.id) session laws db (Sql.is_due ex read_at) due_before
              limit due_rows-IsOrder)
            (map-IsFirst (λ m. m.id) (λ model. model.id) Repository.due_before due_before as_row
              DueMonitor DueRow limit (take limit (due_list r ex read_at))
              (λ m. row_of-id m (Dict.get r.claims m.id))
              (λ m n. due_before-row_of m n (Dict.get r.claims m.id) (Dict.get r.claims n.id))
              stored-DueRow DueRow-monitor
              (take-IsFirst (λ m. m.id) Repository.due_before due_before-IsOrder
                (Repository.is_due r ex read_at) r.monitors wf limit))

  module _ (m : Monitor) (token until : ℕ)
      (read : to_entity lib (with_lease (new_model m) (some token) (some until)) ≡ ok m) where
    claim_each-cons :
        (c : Option MonitorClaim) (models : List MonitorModel) (db db' : Db)
        (rest : List MonitorClaim) (uuid4 : ℕ → ℕ) (grace now i : ℕ)
        → uuid4 i ≡ token
        → now + (seconds m.timeout_seconds + grace) ≡ until
        → claim_each lib session uuid4
            (suc i)
            grace
            now
            models
            (session.save db (with_lease (new_model m) (some token) (some until)))
          ≡ ok (db', rest)
        → claim_each lib session uuid4 i grace now (row_of m c ∷ models) db
          ≡ ok (db', record { monitor = m; token = token; expires_at = until } ∷ rest)
    unfolding claim_each new_model
    claim_each-cons none models db db' rest uuid4 grace now i t u h =
        rw (t, u, read, h, claim_each) refl
    claim_each-cons (some c) models db db' rest uuid4 grace now i t u h =
        rw (t, u, read, h, claim_each) refl

  claim_each-Refines :
      (f : Monitor → Option MonitorClaim) (uuid4 : ℕ → ℕ) (grace now i : ℕ) (ms : List Monitor)
      (db : Db) (r : MonitorRepository)
      → Refines session db r
      → All (λ m. Dict.get r.monitors m.id ≡ some m) ms
      → (db' : Db) × (claim_each lib session uuid4 i grace now (map (λ m. row_of m (f m)) ms) db
          ≡ ok (db', make_claims uuid4 i grace now ms))
        × Refines session db'
            (record r { claims = install (make_claims uuid4 i grace now ms) r.claims })
  unfolding claim_each make_claims install
  claim_each-Refines f uuid4 grace now i [] db r related h = (db, refl, related)
  claim_each-Refines f uuid4 grace now i (m ∷ ms) db r related (held, h) =
      let until = now + (seconds m.timeout_seconds + grace) in
      let c : MonitorClaim = record { monitor = m; token = uuid4 i; expires_at = until } in
      let typed =
        (subst (λ x. IsStored m.id x (Dict.get r.claims m.id)) held (related.stored m.id)).1 in
      let r' = record r { claims = Dict.put r.claims m.id c } in
      let (db', claims, related') =
        claim_each-Refines f uuid4 grace now (suc i) ms
          (session.save db (with_lease (new_model m) (some (uuid4 i)) (some until))) r'
          (claimed-Refines db r related m c held) h in
      (
        db',
        claim_each-cons m (uuid4 i) until
            (to_entity-new_model lib m (some (uuid4 i)) (some until) typed) (f m)
            (map (λ m. row_of m (f m)) ms) db db' _ uuid4 grace now i refl refl claims,
        related',
      )

  -- Both raise, or both give the same claims, and the table still has the rows.
  abbrev pub SameClaims :
      Result ValueError (Result ConversionError (Db × List MonitorClaim))
      → Result ValueError (MonitorRepository × List MonitorClaim)
      → Type 0
  SameClaims (ok (ok p)) (ok q) = (p.1 ≡ q.1) × Refines session p.0 q.0
  SameClaims (err e) (err f) = Unit
  SameClaims p q = ⊥

  checked-SameClaims :
      (b : Bool) (p : Result ConversionError (Db × List MonitorClaim))
      (q : MonitorRepository × List MonitorClaim)
      → SameClaims (ok p) (ok q)
      → SameClaims (if b then err value_error else ok p) (if b then err value_error else ok q)
  checked-SameClaims true p q same = tt
  checked-SameClaims false p q same = same

  -- Over a table with the rows of a repository, in which each monitor is under its identifier,
  -- `claim_due` with a positive grace does what the repository does at the statement's reading of
  -- the clock: with a limit of 0 both raise, and otherwise they give the same claims in the same
  -- order, and the table has the rows of the repository then. The repository's grace is longer by
  -- the time from that reading to the one after the statement. The session does what its laws say.
  pub claim_due-refined :
      (db : Db) (r : MonitorRepository) (limit grace : ℕ) (ex : List ℕ) (read_at now : ℕ)
      (uuid4 : ℕ → ℕ)
      → IsWellFormed r
      → Refines session db r
      → 1 ≤ grace
      → read_at ≤ now
      → SameClaims
          (claim_due lib session db limit grace ex read_at now uuid4)
          (Repository.claim_due r limit (grace + (now - read_at)) ex read_at uuid4)
  unfolding claim_due Repository.claim_due
  claim_due-refined db r limit grace ex read_at now uuid4 wf related h later =
      let ms = take limit (due_list r ex read_at) in
      let (db', claims, related') =
        claim_each-Refines (λ m. Dict.get r.claims m.id) uuid4 grace now 0 ms db r related
          (All-imp (λ m h. h.1) ms
            (take-IsFirst (λ m. m.id) Repository.due_before due_before-IsOrder
              (Repository.is_due r ex read_at) r.monitors wf limit).members) in
      rw
        (
          select-take db r related wf ex read_at limit,
          longer limit grace (now - read_at) h,
          make_claims-later uuid4 0 grace read_at now ms later,
          claims,
        )
        (checked-SameClaims (ltb limit 1 || leb grace 0) _ _ (refl, related'))
