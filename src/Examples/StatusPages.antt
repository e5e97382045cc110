-- ===== src/Examples/StatusPages.antt =====
-- A published page with one monitor.
use uptime_platform.Base.{
  ℕ, ◌≡◌, ◌≢◌, refl, true, false, not, ◌&&◌, Bool, Option, none, some, List, [], ◌∷◌, arith, All,
  map, if◌then◌else◌,
}
use uptime_platform.Base.Dict
use uptime_platform.Monitors.Entities.{Monitor}
use uptime_platform.StatusPages
use uptime_platform.StatusPages.{
  StatusPage, StatusPageMonitor, StatusPageRepository, operational, partial_outage, major_outage,
  unknown,
}
use uptime_platform.StatusPages.Service.{
  PublicStatusPageResponse, response, calculate_status_page_status, public_get,
}
use uptime_platform.StatusPages.Service.Status.{
  some_down, some_running, some_pending, calculate_status_page_status_lem,
}
use uptime_platform.StatusPages.Service.Public.{IsShown, public_get-IsShown}
use uptime_platform.Examples.Data.{api, one_monitor}

abbrev page : StatusPage
page = record {
  id = 50;
  organization_id = 7;
  name = "Status";
  slug = "status";
  published = true;
  created_at = 0;
}

abbrev relation : StatusPageMonitor
relation = record { status_page_id = 50; monitor_id = 1; position = 0 }

abbrev other_relation : StatusPageMonitor
other_relation = record { status_page_id = 51; monitor_id = 1; position = 0 }

abbrev pages : StatusPageRepository
pages = record { pages = (50, page) ∷ []; monitors = relation ∷ other_relation ∷ [] }

abbrev view : PublicStatusPageResponse
view = record {
  name = "Status";
  slug = "status";
  status = operational;
  monitors = response api ∷ [];
}

public_get-IsShown_example :
    (page : StatusPage) × (StatusPages.get_by_slug pages "status" ≡ some page)
    × (page.published ≡ true)
    × ((shown : List Monitor) × (view.monitors ≡ map response shown)
        × (view.status ≡ calculate_status_page_status shown)
        × All (IsShown pages one_monitor page.organization_id page.id) shown)
unfolding public_get StatusPages.get_by_slug uptime_platform.Base.find? uptime_platform.Base.filter
    StatusPages.get_monitors uptime_platform.Base.Sort.sort
    uptime_platform.Monitors.Repository.get_by_id Dict.get uptime_platform.Base.count
    uptime_platform.Base.any
public_get-IsShown_example = public_get-IsShown pages one_monitor "status" view refl

abbrev remaining : StatusPageRepository
remaining = record { pages = []; monitors = other_relation ∷ [] }

abbrev shown : List Monitor
shown = api ∷ []

calculate_status_page_status_example : calculate_status_page_status shown ≡ (
    if some_down shown
    then (if some_running shown then partial_outage else major_outage)
    else (if some_running shown && not (some_pending shown) then operational else unknown))
calculate_status_page_status_example = calculate_status_page_status_lem shown
