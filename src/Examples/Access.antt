-- ===== src/Examples/Access.antt =====
-- The request of an owner whose token is "jwt", for organization 7.
use uptime_platform.Base.{
  ℕ, ◌≤◌, ◌≡◌, refl, String, true, false, Option, none, some, List, [], ◌∷◌, arith,
}
use uptime_platform.Users.{User}
use uptime_platform.Organizations.{Organization, Membership, OrganizationRole, owner, admin}
use uptime_platform.Auth.Access.{Library, Directory, OrganizationContext, role_level}
use uptime_platform.Auth.Access.Authority.{ByMembership, context-ByMembership}

abbrev library : Library
library = record { hash_api_key = λ key. key; get_user_id = λ token. some 1 }

abbrev user : User
user = record { id = 1; email = "a@example.org"; password_hash = ""; created_at = 0 }

abbrev organization : Organization
organization = record { id = 7; name = "first"; created_at = 0 }

abbrev membership : Membership
membership = record { id = 20; organization_id = 7; user_id = 1; role = owner; created_at = 0 }

abbrev directory : Directory
directory = record {
  users = (1, user) ∷ [];
  organizations = (7, organization) ∷ [];
  memberships = (20, membership) ∷ [];
}

abbrev context : OrganizationContext
context = record {
  user = some user;
  organization = organization;
  membership = some membership;
  api_key = none;
}

context-ByMembership_example :
    (context ≡ context)
    × ByMembership library directory "jwt" (some 7) context
    × ((m : Membership) × (some membership ≡ some m) × (role_level admin ≤ role_level m.role))
unfolding uptime_platform.Auth.Access.get_organization_context uptime_platform.Users.get_by_id
    uptime_platform.Base.Dict.get uptime_platform.Organizations.get_by_user_and_organization
    uptime_platform.Base.find? uptime_platform.Auth.Access.require_minimum_role
    uptime_platform.Auth.Access.role
context-ByMembership_example =
    context-ByMembership library directory 300 "jwt" (some 7) [] context admin context (omega arith)
      refl refl
