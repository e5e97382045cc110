-- ===== src/StatusPages.antt =====
-- The status_pages package: src/uptime_platform/status_pages/{entities,in_memory_repository}.py.
pub mod Service
use text.Mathlib.Text.{◌==◌ as str_eq}
use uptime_platform.Base.{
  ℕ, String, Bool, true, false, not, ◌&&◌, Option, none, some, List, [], ◌∷◌, ◌++◌, leb, ◌==◌,
  if◌then◌else◌, is_none, filter, find?, any, map,
}
use uptime_platform.Base.Sort.{sort}
use uptime_platform.Base.Dict
use uptime_platform.Base.Dict.{Dict, values}

pub data StatusPageStatus : Type 0 where
  operational partial_outage major_outage unknown : StatusPageStatus

pub record StatusPage : Type 0 where
  pub id : ℕ
  pub organization_id : ℕ
  pub name : String
  pub slug : String
  pub published : Bool
  pub created_at : ℕ

pub record StatusPageMonitor : Type 0 where
  pub status_page_id : ℕ
  pub monitor_id : ℕ
  pub position : ℕ

-- `_monitors` has the pair of the page and the monitor as its key, which every relation repeats;
-- it is the list of the relations in the order of insertion.
pub record StatusPageRepository : Type 0 where
  pub pages : Dict StatusPage
  pub monitors : List StatusPageMonitor

unfoldable pub create : StatusPageRepository → StatusPage → StatusPageRepository
create r page = record r { pages = Dict.put r.pages page.id page }

abbrev in_organization : ℕ → Option StatusPage → Option StatusPage
in_organization organization_id none = none
in_organization organization_id (some page) =
    if page.organization_id == organization_id then some page else none

unfoldable pub get_by_id : StatusPageRepository → (page_id organization_id : ℕ) → Option StatusPage
get_by_id r page_id organization_id = in_organization organization_id (Dict.get r.pages page_id)

unfoldable pub get_by_slug : StatusPageRepository → String → Option StatusPage
get_by_slug r slug = find? (λ page. str_eq page.slug slug) (values r.pages)

-- Newest first; `sorted` with `reverse=True` keeps the order of equal pages.
unfoldable pub get_all : StatusPageRepository → ℕ → List StatusPage
get_all r organization_id =
    sort (λ p q. leb q.created_at p.created_at)
      (filter (λ page. page.organization_id == organization_id) (values r.pages))

unfoldable pub update : StatusPageRepository → StatusPage → StatusPageRepository × Option StatusPage
unfolding get_by_id
update r page =
    if is_none (get_by_id r page.id page.organization_id)
    then (r, none)
    else (record r { pages = Dict.put r.pages page.id page }, some page)

abbrev pub of_page : ℕ → StatusPageMonitor → Bool
of_page page_id relation = relation.status_page_id == page_id

unfoldable pub delete :
    StatusPageRepository → (page_id organization_id : ℕ) → StatusPageRepository × Bool
unfolding get_by_id
delete r page_id organization_id =
    if is_none (get_by_id r page_id organization_id) then (r, false) else (
      record {
        pages = Dict.del r.pages page_id;
        monitors = filter (λ relation. not (of_page page_id relation)) r.monitors;
      },
      true,
    )

-- The relation stands under the key `(page_id, monitor_id)`.
abbrev pub has_key : (page_id monitor_id : ℕ) → StatusPageMonitor → Bool
has_key page_id monitor_id relation =
    relation.status_page_id == page_id && relation.monitor_id == monitor_id

unfoldable pub add_monitor : StatusPageRepository → StatusPageMonitor → StatusPageRepository × Bool
add_monitor r relation =
    if any (has_key relation.status_page_id relation.monitor_id) r.monitors
    then (r, false)
    else (record r { monitors = r.monitors ++ relation ∷ [] }, true)

unfoldable pub remove_monitor :
    StatusPageRepository → (page_id monitor_id : ℕ) → StatusPageRepository × Bool
remove_monitor r page_id monitor_id =
    if not (any (has_key page_id monitor_id) r.monitors)
    then (r, false)
    else (record r { monitors = filter (λ m. not (has_key page_id monitor_id m)) r.monitors }, true)

unfoldable pub get_monitors : StatusPageRepository → ℕ → List StatusPageMonitor
get_monitors r page_id =
    sort (λ a b. leb a.position b.position) (filter (of_page page_id) r.monitors)
