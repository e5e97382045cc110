-- ===== src/Base/Session.antt =====
-- What a repository asks of one table through SQLAlchemy's session, inside one transaction: the
-- session is a parameter of the models, and `IsSession` is what they rely on.
use Prim.Native.Nat.{ℕ, ◌≤◌}
use mathlib.Core.Path.{◌≡◌}
use mathlib.Core.Bool.{Bool, true, false}
use mathlib.Core.Option.{Option, none, some}
use mathlib.Core.List.{List, []}
use uptime_platform.Base.Tests.{if◌then◌else◌, ◌==◌}
use uptime_platform.Base.Lists.{All, length, count}
use uptime_platform.Base.Sort.{IsSorted}
use uptime_platform.Base.Selection.{IsOrder, Chosen, IsFirst}

pub record Session (Row Db : Type 0) : Type 0 where
  -- session.get(Model, key)
  pub get : Db → ℕ → Option Row
  -- select(Model).where(Model.id == key, …), scalar_one_or_none()
  pub one : Db → (key : ℕ) → (Row → Bool) → Option Row
  -- select(Model).where(…).order_by(…).limit(…)
  pub select : Db → (Row → Bool) → (Row → Row → Bool) → (limit : Option ℕ) → List Row
  -- the flush of an object that was added or changed
  pub save : Db → Row → Db
  -- the flush of a deletion
  pub remove : Db → ℕ → Db

-- The row, if it is there and passes.
abbrev pub where_row : {Row : Type 0} → (Row → Bool) → Option Row → Option Row
where_row p none = none
where_row p (some row) = if p row then some row else none

abbrev pub Within : ℕ → Option ℕ → Type 0
Within n none = Unit
Within n (some limit) = n ≤ limit

-- `id` is the primary key.
pub record IsSession {Row Db : Type 0} (id : Row → ℕ) (session : Session Row Db) : Type 0 where
  pub get-id : (db : Db) (k : ℕ) (row : Row) → session.get db k ≡ some row → id row ≡ k
  pub one-get :
      (db : Db) (k : ℕ) (p : Row → Bool) → session.one db k p ≡ where_row p (session.get db k)
  pub get-save :
      (db : Db) (row : Row) (k : ℕ)
      → session.get (session.save db row) k ≡ (if id row == k then some row else session.get db k)
  pub get-remove :
      (db : Db) (j k : ℕ)
      → session.get (session.remove db j) k ≡ (if j == k then none else session.get db k)
  pub select-All :
      (db : Db) (p : Row → Bool) (before : Row → Row → Bool) (limit : Option ℕ)
      → All
          (λ row. (p row ≡ true) × (session.get db (id row) ≡ some row))
          (session.select db p before limit)
  pub select-once :
      (db : Db) (p : Row → Bool) (before : Row → Row → Bool) (limit : Option ℕ) (k : ℕ)
      → count (λ row. id row == k) (session.select db p before limit) ≤ 1
  -- A select without a limit that finds nothing leaves no row that passes.
  pub select-none :
      (db : Db) (p : Row → Bool) (before : Row → Row → Bool) (k : ℕ) (row : Row)
      → session.select db p before none ≡ []
      → session.get db k ≡ some row
      → p row ≡ false
  pub select-Within :
      (db : Db) (p : Row → Bool) (before : Row → Row → Bool) (limit : Option ℕ)
      → Within (length (session.select db p before limit)) limit
  -- ORDER BY: the rows stand in the order.
  pub select-IsSorted :
      (db : Db) (p : Row → Bool) (before : Row → Row → Bool) (limit : Option ℕ)
      → IsOrder id before
      → IsSorted before (session.select db p before limit)
  -- LIMIT: a row that passes is selected, or as many as the limit are and stand before it.
  pub select-Chosen :
      (db : Db) (p : Row → Bool) (before : Row → Row → Bool) (limit k : ℕ) (row : Row)
      → IsOrder id before
      → session.get db k ≡ some row
      → p row ≡ true
      → Chosen before limit (session.select db p before (some limit)) row

-- The rows that a statement selects.
abbrev pub Selectable :
    {Row Db : Type 0} → Session Row Db → (Row → ℕ) → Db → (Row → Bool) → Row → Type 0
Selectable session id db p row = (p row ≡ true) × (session.get db (id row) ≡ some row)

pub select-IsFirst :
    {Row Db : Type 0} (id : Row → ℕ) (session : Session Row Db) (laws : IsSession id session)
    (db : Db) (p : Row → Bool) (before : Row → Row → Bool) (limit : ℕ)
    → IsOrder id before
    → IsFirst id before (Selectable session id db p) limit (session.select db p before (some limit))
select-IsFirst id session laws db p before limit order = record {
  members = laws.select-All db p before (some limit);
  sorted = laws.select-IsSorted db p before (some limit) order;
  once = laws.select-once db p before (some limit);
  room = laws.select-Within db p before (some limit);
  chosen =
      λ row (passes, held). laws.select-Chosen db p before limit (id row) row order held passes;
}
