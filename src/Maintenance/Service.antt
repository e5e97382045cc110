-- ===== src/Maintenance/Service.antt =====
-- src/uptime_platform/maintenance/service.py: the windows of an organization's monitors.
use uptime_platform.Base.{
  ℕ, String, ◌≡◌, Bool, false, Option, none, some, List, [], ◌∷◌, if◌then◌else◌, is_none, mem, map,
  arith,
}
use uptime_platform.Base.Dict.{Dict}
use uptime_platform.Maintenance
use uptime_platform.Maintenance.{MaintenanceWindow}
use uptime_platform.Monitors.Repository
use uptime_platform.Monitors.Repository.{MonitorRepository}

-- The validated body of the request (maintenance/schemas.py).
pub record MaintenanceWindowCreate : Type 0 where
  pub monitor_id : ℕ
  pub starts_at : ℕ
  pub ends_at : ℕ
  pub reason : Option String

module _ (monitors : MonitorRepository) (organization_id : ℕ) where
  unfoldable pub create :
      Dict MaintenanceWindow
      → MaintenanceWindowCreate
      → (uuid4 now : ℕ) → Dict MaintenanceWindow × Option MaintenanceWindow
  create r body uuid4 now =
      if is_none (Repository.get_by_id monitors body.monitor_id organization_id)
      then (r, none)
      else (let window : MaintenanceWindow = record {
        id = uuid4;
        monitor_id = body.monitor_id;
        starts_at = body.starts_at;
        ends_at = body.ends_at;
        reason = body.reason;
        created_at = now;
      } in
          (Maintenance.create r window, some window))

  abbrev monitor_ids : List ℕ
  monitor_ids = map (λ m. m.id) (Repository.get_all monitors organization_id)

  unfoldable pub get_all : Dict MaintenanceWindow → Option ℕ → List MaintenanceWindow
  get_all r none = Maintenance.get_all r monitor_ids
  get_all r (some monitor_id) =
      if mem monitor_id monitor_ids then Maintenance.get_all r (monitor_id ∷ []) else []

  abbrev of_organization : Option MaintenanceWindow → Option MaintenanceWindow
  of_organization none = none
  of_organization (some w) =
      if is_none (Repository.get_by_id monitors w.monitor_id organization_id) then none else some w

  unfoldable pub get : Dict MaintenanceWindow → ℕ → Option MaintenanceWindow
  get r window_id = of_organization (Maintenance.get_by_id r window_id)

  unfoldable pub delete : Dict MaintenanceWindow → ℕ → Dict MaintenanceWindow × Bool
  unfolding get
  delete r window_id =
      if is_none (get r window_id) then (r, false) else Maintenance.delete r window_id

  -- A window of another organization's monitor is out of reach: it is not returned, and a delete
  -- reports false and changes nothing.
  pub foreign_window :
      (r : Dict MaintenanceWindow) (window_id : ℕ) (w : MaintenanceWindow)
      → Maintenance.get_by_id r window_id ≡ some w
      → Repository.get_by_id monitors w.monitor_id organization_id ≡ none
      → (get r window_id ≡ none) × (delete r window_id ≡ (r, false))
  unfolding delete
  foreign_window r window_id w h e = ground arith
