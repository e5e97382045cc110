-- ===== src/Organizations/Members.antt =====
-- src/uptime_platform/organizations/member_service.py. The service holds the memberships, which it
-- writes, and the users, which it reads; `lower` is Python's `str.lower`.
pub mod Steps
pub mod Permissions
pub mod Owners
use uptime_platform.Base.{
  ℕ, String, Bool, true, false, not, ◌&&◌, ◌||◌, Option, none, some, List, [], ◌∷◌, leb, ltb,
  if◌then◌else◌, is_none, count,
}
use uptime_platform.Base.Sort.{sort}
use uptime_platform.Base.Exec.{Exec, return, raise, gets, call, required, guard, ◌>>=◌, ◌>>◌}
use uptime_platform.Base.Dict.{Dict}
use uptime_platform.Users
use uptime_platform.Users.{User}
use uptime_platform.Organizations
use uptime_platform.Organizations.{Membership, OrganizationRole, is_owner, is_admin, is_low}

pub record OrganizationMemberResult : Type 0 where
  pub user : User
  pub membership : Membership

-- organizations/exceptions.py
pub data OrganizationError : Type 0 where
  user_not_found member_already_exists member_not_found member_permission last_owner :
      OrganizationError

abbrev pub Action : Type 0 → Type 0
Action A = Exec (Dict Membership) OrganizationError A

-- `_ensure_role_can_be_assigned`
unfoldable pub can_assign : (actor_role role : OrganizationRole) → Bool
can_assign actor_role role = is_owner actor_role || (is_admin actor_role && is_low role)

-- `_ensure_can_manage`
unfoldable pub can_manage : (actor_role : OrganizationRole) → Membership → Bool
can_manage actor_role membership =
    is_owner actor_role || (is_admin actor_role && is_low membership.role)

abbrev pub owner_count : List Membership → ℕ
owner_count memberships = count (λ m. is_owner m.role) memberships

module _ (users : Dict User) (organization_id : ℕ) (actor_role : OrganizationRole) where
  -- The memberships whose user exists, as results.
  unfoldable pub with_users : List Membership → List OrganizationMemberResult
  with_users [] = []
  with_users (m ∷ ms) =
      let rest = with_users ms in
      elim (Users.get_by_id users m.user_id) [
        | none ↦ rest
        | some user ↦ record { user = user; membership = m } ∷ rest
      ]

  unfoldable pub get_all : Dict Membership → List OrganizationMemberResult
  unfolding with_users
  get_all r =
      sort (λ a b. leb a.membership.created_at b.membership.created_at)
        (with_users (Organizations.get_by_organization_id r organization_id))

  -- `_get_membership`; the lock of the organization does not change what is stored.
  unfoldable pub get_membership : (user_id : ℕ) → Action Membership
  get_membership user_id = do
    found ← gets (λ r. Organizations.get_by_user_and_organization r user_id organization_id)
    required OrganizationError.member_not_found found

  -- `_ensure_not_last_owner`
  unfoldable pub ensure_not_last_owner : Action (Unit {0})
  ensure_not_last_owner = do
    owners ← gets (λ r. owner_count (Organizations.get_by_organization_id r organization_id))
    guard (ltb 1 owners) OrganizationError.last_owner

  abbrev when : Bool → Action (Unit {0}) → Action (Unit {0})
  when true m = m
  when false m = return tt

  unfoldable pub add :
      (lower : String → String) (email : String) (role : OrganizationRole) (uuid4 now : ℕ)
      → Action OrganizationMemberResult
  add lower email role uuid4 now = do
    guard (can_assign actor_role role) OrganizationError.member_permission
    user ← required OrganizationError.user_not_found (Users.get_by_email users (lower email))
    existing ← gets (λ r. Organizations.get_by_user_and_organization r user.id organization_id)
    guard (is_none existing) OrganizationError.member_already_exists
    let membership : Membership = record {
      id = uuid4;
      organization_id = organization_id;
      user_id = user.id;
      role = role;
      created_at = now;
    }
    call (λ r. (Organizations.create r membership, tt {0}))
    return (record { user = user; membership = membership })

  unfoldable pub update_role :
      (user_id : ℕ) (role : OrganizationRole) → Action OrganizationMemberResult
  unfolding get_membership ensure_not_last_owner
  update_role user_id role = do
    membership ← get_membership user_id
    guard (can_manage actor_role membership) OrganizationError.member_permission
    guard (can_assign actor_role role) OrganizationError.member_permission
    when (is_owner membership.role && not (is_owner role)) ensure_not_last_owner
    stored ← call (λ r. Organizations.update r (record membership { role = role }))
    updated ← required OrganizationError.member_not_found stored
    user ← required OrganizationError.user_not_found (Users.get_by_id users user_id)
    return (record { user = user; membership = updated })

  unfoldable pub delete : (user_id : ℕ) → Action (Unit {0})
  unfolding get_membership ensure_not_last_owner
  delete user_id = do
    membership ← get_membership user_id
    guard (can_manage actor_role membership) OrganizationError.member_permission
    when (is_owner membership.role) ensure_not_last_owner
    deleted ← call (λ r. Organizations.delete r membership.id organization_id)
    guard deleted OrganizationError.member_not_found
