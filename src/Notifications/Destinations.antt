-- ===== src/Notifications/Destinations.antt =====
-- InMemoryNotificationDestinationRepository of
-- src/uptime_platform/notifications/in_memory_repository.py.
use uptime_platform.Base.{
  ℕ, Bool, true, false, ◌&&◌, Option, none, some, List, ◌==◌, if◌then◌else◌, filter,
}
use uptime_platform.Base.Dict
use uptime_platform.Base.Dict.{Dict, values}
use uptime_platform.Notifications.Entities.{NotificationDestination}

unfoldable pub create :
    Dict NotificationDestination → NotificationDestination → Dict NotificationDestination
create r destination = Dict.put r destination.id destination

-- The stored destination, if it belongs to the organization.
abbrev in_organization : ℕ → Option NotificationDestination → Option NotificationDestination
in_organization organization_id none = none
in_organization organization_id (some d) =
    if d.organization_id == organization_id then some d else none

unfoldable pub get_by_id :
    Dict NotificationDestination
    → (destination_id organization_id : ℕ) → Option NotificationDestination
get_by_id r destination_id organization_id =
    in_organization organization_id (Dict.get r destination_id)

unfoldable pub get_all : Dict NotificationDestination → ℕ → List NotificationDestination
get_all r organization_id = filter (λ d. d.organization_id == organization_id) (values r)

unfoldable pub update :
    Dict NotificationDestination
    → NotificationDestination
    → Dict NotificationDestination × Option NotificationDestination
unfolding get_by_id
update r destination = elim (get_by_id r destination.id destination.organization_id) [
  | none ↦ (r, none)
  | some _ ↦ (Dict.put r destination.id destination, some destination)
]

unfoldable pub delete :
    Dict NotificationDestination
    → (destination_id organization_id : ℕ) → Dict NotificationDestination × Bool
unfolding get_by_id
delete r destination_id organization_id = elim (get_by_id r destination_id organization_id) [
  | none ↦ (r, false)
  | some _ ↦ (Dict.del r destination_id, true)
]

abbrev pub is_enabled_in : ℕ → NotificationDestination → Bool
is_enabled_in organization_id d = d.organization_id == organization_id && d.enabled

unfoldable pub get_enabled : Dict NotificationDestination → ℕ → List NotificationDestination
get_enabled r organization_id = filter (is_enabled_in organization_id) (values r)
