-- ===== src/Examples/Tables.antt =====
-- A session over a table that is kept as a dict.
use uptime_platform.Base.{
  ℕ, ◌≤◌, ◌≡◌, refl, sym, ap, ◌∙◌, Bool, true, false, Option, none, some, List, [], ◌∷◌, arith,
  ◌==◌, All, All-take, All-filter, All-filter_of, All-both, count, count-take, count-filter, filter,
  take, length, length-take-le,
}
use uptime_platform.Base.Sort.{sort, All-sort, count-sort, length-sort, IsSorted, sort-IsSorted}
use uptime_platform.Base.Selected.{take-IsFirst, take-IsSorted}
use uptime_platform.Base.Session.{Session, IsSession, where_row, Within}
use uptime_platform.Base.Dict
use uptime_platform.Base.Dict.{
  Dict, values, IsKeyed, get-put, get-del, get-id, put-IsKeyed, del-IsKeyed, values-All,
  count-id-le,
}
use uptime_platform.Monitors.Sql.Refines.{row}

module _ {Row : Type 0} (id : Row → ℕ) where
  -- A table that has each row under its key.
  pub record Table : Type 0 where
    pub rows : Dict Row
    pub keyed : IsKeyed id rows

  abbrev pub limited : List Row → Option ℕ → List Row
  limited models none = models
  limited models (some limit) = take limit models

  abbrev pub session : Session Row Table
  session = record {
    get = λ db k. Dict.get db.rows k;
    one = λ db k p. where_row p (Dict.get db.rows k);
    select = λ db p before limit. limited (sort before (filter p (values db.rows))) limit;
    save = λ db row. record {
      rows = Dict.put db.rows (id row) row;
      keyed = put-IsKeyed id db.rows row db.keyed;
    };
    remove =
        λ db k. record { rows = Dict.del db.rows k; keyed = del-IsKeyed id db.rows k db.keyed };
  }

  All-limited :
      (P : Row → Type 0) (models : List Row) (limit : Option ℕ)
      → All P models
      → All P (limited models limit)
  All-limited P models none h = h
  All-limited P models (some n) h = All-take P n models h

  count-limited :
      (p : Row → Bool) (models : List Row) (limit : Option ℕ)
      → count p (limited models limit) ≤ count p models
  count-limited p models none = omega arith
  count-limited p models (some n) = count-take p n models

  limited-Within :
      (models : List Row) (limit : Option ℕ) → Within (length (limited models limit)) limit
  limited-Within models none = tt
  limited-Within models (some n) = length-take-le n models

  limited-IsSorted :
      (before : Row → Row → Bool) (models : List Row) (limit : Option ℕ)
      → IsSorted before models
      → IsSorted before (limited models limit)
  limited-IsSorted before models none h = h
  limited-IsSorted before models (some n) h = take-IsSorted before n models h

  filter-none :
      (p : Row → Bool) (d : Dict Row) (k : ℕ) (row : Row)
      → filter p (values d) ≡ []
      → Dict.get d k ≡ some row
      → p row ≡ false
  unfolding filter Dict.get
  filter-none p [] k row e held = cc
  filter-none p ((j, w) ∷ d) k row e held = ground (arith, filter-none p d k row)

  empty : (models : List Row) → length models ≡ 0 → models ≡ []
  empty [] e = refl
  empty (model ∷ models) e = absurd (omega (arith, e))

  sort-none :
      (before : Row → Row → Bool) (models : List Row) → sort before models ≡ [] → models ≡ []
  sort-none before models e = empty models (sym (length-sort before models) ∙ ap length e)

  pub session-IsSession : IsSession id session
  session-IsSession = record {
    get-id = λ db k row e. get-id id db.rows db.keyed e;
    one-get = λ db k p. refl;
    get-save = λ db row k. get-put db.rows (id row) k row;
    get-remove = λ db j k. get-del db.rows j k;
    select-All = λ db p before limit. All-limited _ _ limit (
        All-sort before _ _ (
          All-both (λ row. p row ≡ true) (λ row. Dict.get db.rows (id row) ≡ some row) _
            (All-filter_of (λ row. p row ≡ true) p (λ row e. e) (values db.rows))
            (All-filter (λ row. Dict.get db.rows (id row) ≡ some row) p (values db.rows)
              (values-All (λ row. Dict.get db.rows (id row) ≡ some row) id db.rows db.keyed
                (λ k row e. ap (Dict.get db.rows) (get-id id db.rows db.keyed e) ∙ e)))));
    select-once = λ db p before limit k. omega (
      arith,
      count-limited (λ row. id row == k) (sort before (filter p (values db.rows))) limit,
      count-sort before (λ row. id row == k) (filter p (values db.rows)),
      count-filter (λ row. id row == k) p (values db.rows),
      count-id-le id db.rows k db.keyed,
    );
    select-none = λ db p before k row e held.
        filter-none p db.rows k row (sort-none before (filter p (values db.rows)) e) held;
    select-Within =
        λ db p before limit. limited-Within (sort before (filter p (values db.rows))) limit;
    select-IsSorted = λ db p before limit order.
        limited-IsSorted before (sort before (filter p (values db.rows))) limit
          (sort-IsSorted before order.total order.trans (filter p (values db.rows)));
    select-Chosen = λ db p before limit k row order held passes.
        (take-IsFirst id before order p db.rows db.keyed limit).chosen row
          (passes, ap (Dict.get db.rows) (get-id id db.rows db.keyed held) ∙ held);
  }
