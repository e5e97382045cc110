-- ===== src/Maintenance/Active.antt =====
-- About `get_active` of src/uptime_platform/maintenance/in_memory_repository.py.
use uptime_platform.Base.{
  some_inj, ℕ, ◌≤◌, ◌<◌, ◌≡◌, Bool, true, false, none, some, List, [], ◌∷◌, ltb, if◌then◌else◌,
  filter, All, All-filter_of, arith, inl, inr, Bool-cases,
}
use mathlib.Core.Path.{subst}
use native.Mathlib.Nat.{le_trans}
use uptime_platform.Base.Dict.{Dict, values}
use uptime_platform.Maintenance.{
  MaintenanceWindow, is_active, latest, latest_of, active_for, get_active,
}

latest-P :
    (P : MaintenanceWindow → Type 0) (best : MaintenanceWindow) (ws : List MaintenanceWindow)
    → P best
    → All P ws
    → P (latest best ws)
unfolding latest
latest-P P best [] h k = h
latest-P P best (w ∷ ws) h k = elim (Bool-cases (ltb best.starts_at w.starts_at)) [
  | inl e ↦ rw e (latest-P P w ws k.0 k.1)
  | inr e ↦ rw e (latest-P P best ws h k.1)
]

le-later :
    (v w : MaintenanceWindow)
    → (v.starts_at ≤ (if ltb v.starts_at w.starts_at then w else v).starts_at)
      × (w.starts_at ≤ (if ltb v.starts_at w.starts_at then w else v).starts_at)
le-later v w = (ground arith, ground arith)

le-latest :
    (best : MaintenanceWindow) (ws : List MaintenanceWindow)
    → (best.starts_at ≤ (latest best ws).starts_at)
      × All (λ w. w.starts_at ≤ (latest best ws).starts_at) ws
unfolding latest
le-latest best [] = (omega arith, tt)
le-latest best (w ∷ ws) =
    let best' = if ltb best.starts_at w.starts_at then w else best in
    let (h, k) = le-latest best' ws in
    let (first, second) = le-later best w in (le_trans first h, (le_trans second h, k))

-- The test of the scan, spelled out.
active_fields :
    (monitor_id now : ℕ) (w : MaintenanceWindow)
    → active_for monitor_id now w ≡ true
    → (w.monitor_id ≡ monitor_id) × (w.starts_at ≤ now) × (now < w.ends_at)
unfolding is_active
active_fields monitor_id now w h = (ground arith, ground arith, ground arith)

latest_of-All :
    (P : MaintenanceWindow → Type 0) (ws : List MaintenanceWindow) {w : MaintenanceWindow}
    → All P ws
    → latest_of ws ≡ some w
    → P w
latest_of-All P [] h e = cc
latest_of-All P (v ∷ ws) h e = subst P (some_inj e) (latest-P P v ws h.0 h.1)

latest_of-greatest :
    (ws : List MaintenanceWindow) {w : MaintenanceWindow}
    → latest_of ws ≡ some w
    → All (λ v. v.starts_at ≤ w.starts_at) ws
latest_of-greatest [] e = tt
latest_of-greatest (v ∷ ws) e =
    subst (λ w. All (λ u. u.starts_at ≤ w.starts_at) (v ∷ ws)) (some_inj e) (le-latest v ws)

none_active :
    (p : MaintenanceWindow → Bool) (ws : List MaintenanceWindow)
    → latest_of (filter p ws) ≡ none
    → All (λ v. p v ≡ false) ws
unfolding filter
none_active p [] e = tt
none_active p (w ∷ ws) e = elim (Bool-cases (p w)) [
  | inl t ↦ absurd (some_ne_none (rw t at e))
  | inr f ↦ (f, none_active p ws (rw f at e))
]
  where
    some_ne_none : {v : MaintenanceWindow} → some v ≡ none → ⊥
    some_ne_none q = cc

-- What `get_active` returns is a window of that monitor that is running, and no other running
-- window of the monitor started later.
pub get_active-some :
    (r : Dict MaintenanceWindow) (monitor_id now : ℕ) (w : MaintenanceWindow)
    → get_active r monitor_id now ≡ some w
    → (w.monitor_id ≡ monitor_id)
      × (w.starts_at ≤ now)
      × (now < w.ends_at)
      × All (λ v. v.starts_at ≤ w.starts_at) (filter (active_for monitor_id now) (values r))
unfolding get_active
get_active-some r monitor_id now w e =
    let running = filter (active_for monitor_id now) (values r) in
    let (named, started, unfinished) = active_fields monitor_id now w (
      latest_of-All (λ v. active_for monitor_id now v ≡ true) running
        (All-filter_of (λ v. active_for monitor_id now v ≡ true) (active_for monitor_id now)
          (λ v t. t) (values r))
        e) in
    (named, started, unfinished, latest_of-greatest running e)

-- `get_active` returns none only when no stored window of the monitor is running.
pub get_active-none :
    (r : Dict MaintenanceWindow) (monitor_id now : ℕ)
    → get_active r monitor_id now ≡ none
    → All (λ v. active_for monitor_id now v ≡ false) (values r)
unfolding get_active
get_active-none r monitor_id now e = none_active (active_for monitor_id now) (values r) e
