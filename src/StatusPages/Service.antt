-- ===== src/StatusPages/Service.antt =====
-- src/uptime_platform/status_pages/service.py: the pages of an organization, and the public view.
pub mod Status
pub mod Public
use uptime_platform.Base.{
  ℕ, String, Bool, true, false, not, ◌&&◌, Option, none, some, List, [], ◌∷◌, ◌==◌, if◌then◌else◌,
  is_none, filter, any, count, map, length, or_else,
}
use uptime_platform.Monitors.Entities.{Monitor, MonitorStatus, is_paused, is_pending, is_down}
use uptime_platform.Monitors.Repository
use uptime_platform.Monitors.Repository.{MonitorRepository}
use uptime_platform.StatusPages
use uptime_platform.StatusPages.{
  StatusPage, StatusPageMonitor, StatusPageStatus, StatusPageRepository, operational,
  partial_outage, major_outage, unknown,
}

unfoldable pub calculate_status_page_status : List Monitor → StatusPageStatus
calculate_status_page_status monitors =
    let active = filter (λ m. not (is_paused m.status)) monitors in
    let down_count = count (λ m. is_down m.status) active in
    if length active == 0
    then unknown
    else if down_count == 0
    then (if any (λ m. is_pending m.status) active then unknown else operational)
    else if down_count == length active
    then major_outage
    else partial_outage

-- The validated bodies of the requests; a field of an update that is set is not null.
pub record StatusPageCreate : Type 0 where
  pub name : String
  pub slug : String
  pub published : Bool

pub record StatusPageUpdate : Type 0 where
  pub name : Option String
  pub published : Option Bool

pub record StatusPageMonitorResponse : Type 0 where
  pub id : ℕ
  pub name : String
  pub status : MonitorStatus

pub record PublicStatusPageResponse : Type 0 where
  pub name : String
  pub slug : String
  pub status : StatusPageStatus
  pub monitors : List StatusPageMonitorResponse

abbrev pub response : Monitor → StatusPageMonitorResponse
response m = record { id = m.id; name = m.name; status = m.status }

-- The monitors of the relations that the organization has, in their order.
unfoldable pub found_monitors :
    MonitorRepository → (organization_id : ℕ) → List StatusPageMonitor → List Monitor
found_monitors monitors organization_id [] = []
found_monitors monitors organization_id (relation ∷ relations) =
    let rest = found_monitors monitors organization_id relations in
    elim (Repository.get_by_id monitors relation.monitor_id organization_id) [
      | none ↦ rest
      | some m ↦ m ∷ rest
    ]

module _ (monitors : MonitorRepository) (organization_id : ℕ) where
  unfoldable pub create :
      StatusPageRepository
      → StatusPageCreate
      → (uuid4 now : ℕ) → StatusPageRepository × Option StatusPage
  create r body uuid4 now =
      if not (is_none (StatusPages.get_by_slug r body.slug))
      then (r, none)
      else (let page : StatusPage = record {
        id = uuid4;
        organization_id = organization_id;
        name = body.name;
        slug = body.slug;
        published = body.published;
        created_at = now;
      } in
          (StatusPages.create r page, some page))

  unfoldable pub update :
      StatusPageRepository
      → (page_id : ℕ) → StatusPageUpdate
      → StatusPageRepository × Option StatusPage
  update r page_id change = elim (StatusPages.get_by_id r page_id organization_id) [
    | none ↦ (r, none)
    | some page ↦ StatusPages.update r (record page {
      name = or_else change.name page.name;
      published = or_else change.published page.published;
    })
  ]

  unfoldable pub delete : StatusPageRepository → (page_id : ℕ) → StatusPageRepository × Bool
  delete r page_id = StatusPages.delete r page_id organization_id

  -- The new relation, at the position after as many as the page has.
  abbrev pub relation_at : StatusPageRepository → (page_id monitor_id : ℕ) → StatusPageMonitor
  relation_at r page_id monitor_id = record {
    status_page_id = page_id;
    monitor_id = monitor_id;
    position = length (StatusPages.get_monitors r page_id);
  }

  abbrev add_found :
      StatusPageRepository
      → (page_id monitor_id : ℕ) → Option StatusPage
      → Option Monitor
      → StatusPageRepository × Option Bool
  add_found r page_id monitor_id none monitor = (r, none)
  add_found r page_id monitor_id (some page) none = (r, none)
  add_found r page_id monitor_id (some page) (some monitor) =
      if not (monitor.organization_id == page.organization_id)
      then (r, none)
      else (let (r', added) = StatusPages.add_monitor r (relation_at r page_id monitor_id) in
          (r', some added))

  unfoldable pub add_monitor :
      StatusPageRepository → (page_id monitor_id : ℕ) → StatusPageRepository × Option Bool
  add_monitor r page_id monitor_id =
      add_found r page_id monitor_id (StatusPages.get_by_id r page_id organization_id)
        (Repository.get_by_id monitors monitor_id organization_id)

  unfoldable pub remove_monitor :
      StatusPageRepository → (page_id monitor_id : ℕ) → StatusPageRepository × Bool
  remove_monitor r page_id monitor_id =
      if is_none (StatusPages.get_by_id r page_id organization_id)
      then (r, false)
      else StatusPages.remove_monitor r page_id monitor_id

  unfoldable pub get_monitors :
      StatusPageRepository → (page_id : ℕ) → Option (List StatusPageMonitorResponse)
  unfolding found_monitors
  get_monitors r page_id =
      if is_none (StatusPages.get_by_id r page_id organization_id)
      then none
      else some (
          map response
            (found_monitors monitors organization_id (StatusPages.get_monitors r page_id)))

-- `PublicStatusPageService.get`, once the page is looked up.
unfoldable pub published_view :
    StatusPageRepository → MonitorRepository → StatusPage → PublicStatusPageResponse
unfolding calculate_status_page_status found_monitors
published_view r monitors page =
    let shown = found_monitors monitors page.organization_id (StatusPages.get_monitors r page.id) in
    record {
      name = page.name;
      slug = page.slug;
      status = calculate_status_page_status shown;
      monitors = map response shown;
    }

unfoldable pub public_get :
    StatusPageRepository → MonitorRepository → String → Option PublicStatusPageResponse
unfolding published_view
public_get r monitors slug = elim (StatusPages.get_by_slug r slug) [
  | none ↦ none
  | some page ↦ if not page.published then none else some (published_view r monitors page)
]
