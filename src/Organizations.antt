-- ===== src/Organizations.antt =====
-- The organizations package: src/uptime_platform/organizations/{entities,in_memory_repository}.py.
pub mod Members
pub mod Service
use uptime_platform.Base.{
  ℕ, String, Bool, true, false, not, ◌&&◌, Option, none, some, List, ◌==◌, if◌then◌else◌, filter,
  find?,
}
use uptime_platform.Base.Dict
use uptime_platform.Base.Dict.{Dict, values}

pub data OrganizationRole : Type 0 where
  owner admin member viewer : OrganizationRole

pub record Organization : Type 0 where
  pub id : ℕ
  pub name : String
  pub created_at : ℕ

pub record Membership : Type 0 where
  pub id : ℕ
  pub organization_id : ℕ
  pub user_id : ℕ
  pub role : OrganizationRole
  pub created_at : ℕ

-- `role is OrganizationRole.OWNER`
abbrev pub is_owner : OrganizationRole → Bool
is_owner owner = true
is_owner _ = false

abbrev pub is_admin : OrganizationRole → Bool
is_admin admin = true
is_admin _ = false

-- `role in {MEMBER, VIEWER}`
abbrev pub is_low : OrganizationRole → Bool
is_low member = true
is_low viewer = true
is_low _ = false

-- InMemoryMembershipRepository
unfoldable pub create : Dict Membership → Membership → Dict Membership
create r membership = Dict.put r membership.id membership

abbrev pub held_by : ℕ → ℕ → Membership → Bool
held_by user_id organization_id m = m.user_id == user_id && m.organization_id == organization_id

unfoldable pub get_by_user_and_organization :
    Dict Membership → (user_id organization_id : ℕ) → Option Membership
get_by_user_and_organization r user_id organization_id =
    find? (held_by user_id organization_id) (values r)

unfoldable pub get_by_user_id : Dict Membership → ℕ → List Membership
get_by_user_id r user_id = filter (λ m. m.user_id == user_id) (values r)

unfoldable pub get_by_organization_id : Dict Membership → ℕ → List Membership
get_by_organization_id r organization_id =
    filter (λ m. m.organization_id == organization_id) (values r)

-- The stored membership, if it belongs to the organization.
abbrev pub in_organization : ℕ → Option Membership → Bool
in_organization organization_id none = false
in_organization organization_id (some m) = m.organization_id == organization_id

unfoldable pub update : Dict Membership → Membership → Dict Membership × Option Membership
update r membership =
    if in_organization membership.organization_id (Dict.get r membership.id)
    then (Dict.put r membership.id membership, some membership)
    else (r, none)

unfoldable pub delete :
    Dict Membership → (membership_id organization_id : ℕ) → Dict Membership × Bool
delete r membership_id organization_id =
    if in_organization organization_id (Dict.get r membership_id)
    then (Dict.del r membership_id, true)
    else (r, false)
