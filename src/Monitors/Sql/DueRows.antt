-- ===== src/Monitors/Sql/DueRows.antt =====
-- About the rows that `claim_due` of src/uptime_platform/monitors/sqlalchemy_repository.py selects.
use uptime_platform.Base.{
  ltb, leb, ◌||◌, ℕ, suc, ◌+◌, ◌-◌, ◌≤◌, ◌≡◌, refl, sym, Option, none, some, some_inj, List, [],
  ◌∷◌, arith,
}
use uptime_platform.Base.Time.{seconds}
use uptime_platform.Base.Selection.{IsOrder}
use uptime_platform.Base.Dict
use uptime_platform.Base.Dict.{get-put}
use uptime_platform.Monitors.Entities.{Monitor, MonitorClaim}
use uptime_platform.Monitors.Repository
use uptime_platform.Monitors.Repository.{MonitorRepository, make_claims, install, due_list}
use uptime_platform.Monitors.Sql
use uptime_platform.Monitors.Models.{MonitorModel, new_model, with_lease}
use uptime_platform.Monitors.Sql.{claim_each, claim_due, due_before}
use uptime_platform.Monitors.Sql.Refines.{IsStored, row}

-- The row of a stored monitor and its claim.
abbrev pub row_of : Monitor → Option MonitorClaim → MonitorModel
row_of m none = new_model m
row_of m (some c) = with_lease (new_model m) (some c.token) (some c.expires_at)

pub row-row_of : (m : Monitor) (c : Option MonitorClaim) → row (some m) c ≡ some (row_of m c)
row-row_of m none = refl
row-row_of m (some c) = refl

pub is_due-row_of :
    (ex : List ℕ) (now : ℕ) (r : MonitorRepository) (m : Monitor) (c : Option MonitorClaim)
    → Dict.get r.claims m.id ≡ c
    → Sql.is_due ex now (row_of m c) ≡ Repository.is_due r ex now m
unfolding Sql.is_due Repository.is_due new_model
is_due-row_of ex now r m none e = ground arith
is_due-row_of ex now r m (some c) e = ground arith

pub row_of-id : (m : Monitor) (c : Option MonitorClaim) → (row_of m c).id ≡ m.id
unfolding new_model
row_of-id m none = refl
row_of-id m (some c) = refl

-- The check of the arguments does not depend on how much longer a positive grace is.
pub longer :
    (limit grace more : ℕ)
    → 1 ≤ grace
    → (ltb limit 1 || leb (grace + more) 0) ≡ (ltb limit 1 || leb grace 0)
longer limit grace more h = ground arith

-- A grace that is longer by the time between two readings gives the claims of the later one.
pub make_claims-later :
    (uuid4 : ℕ → ℕ) (i grace read_at now : ℕ) (ms : List Monitor)
    → read_at ≤ now
    → make_claims uuid4 i (grace + (now - read_at)) read_at ms ≡ make_claims uuid4 i grace now ms
unfolding make_claims
make_claims-later uuid4 i grace read_at now [] h = refl
make_claims-later uuid4 i grace read_at now (m ∷ ms) h =
    let until : read_at + (seconds m.timeout_seconds + (grace + (now - read_at)))
        ≡ now + (seconds m.timeout_seconds + grace) =
      omega (arith, h) in
    rw (until, make_claims-later uuid4 (suc i) grace read_at now ms h) refl

pub due_before-IsOrder : IsOrder (λ m. m.id) Repository.due_before
unfolding Repository.due_before
due_before-IsOrder = record {
  total = λ x y h. ground arith;
  trans = λ x y z h k. ground arith;
  anti = λ x y h k. ground arith;
}

pub due_rows-IsOrder : IsOrder (λ model. model.id) due_before
due_rows-IsOrder = record {
  total = λ x y h. ground arith;
  trans = λ x y z h k. ground arith;
  anti = λ x y h k. ground arith;
}

pub due_before-row_of :
    (m n : Monitor) (c d : Option MonitorClaim)
    → due_before (row_of m c) (row_of n d) ≡ Repository.due_before m n
unfolding Repository.due_before new_model
due_before-row_of m n none none = refl
due_before-row_of m n none (some d) = refl
due_before-row_of m n (some c) none = refl
due_before-row_of m n (some c) (some d) = refl

pub stored_row :
    (m : Option Monitor) (c : Option MonitorClaim) (k : ℕ) (model : MonitorModel)
    → IsStored k m c
    → row m c ≡ some model
    → (m' : Monitor) × (m ≡ some m') × (m'.id ≡ k) × (model ≡ row_of m' c)
stored_row none c k model h e = cc
stored_row (some m) none k model h e = (m, refl, h.0, sym (some_inj e))
stored_row (some m) (some c) k model h e = (m, refl, h.0, sym (some_inj e))
