-- ===== src/Auth/Registration.antt =====
-- src/uptime_platform/auth/service.py: registration and login, with RegistrationResult of
-- auth/entities.py and the errors of auth/exceptions.py. Python's `str.lower` and the password
-- hash, which draws a salt, are the fields of `Passwords`.
use uptime_platform.Base.{
  ℕ, String, Bool, true, false, not, Option, none, some, List, [], ◌∷◌, is_none, if◌then◌else◌,
}
use uptime_platform.Base.Exec.{Exec, return, raise, gets, call, required, guard, ◌>>=◌, ◌>>◌}
use uptime_platform.Base.Dict
use uptime_platform.Base.Dict.{Dict}
use uptime_platform.Users
use uptime_platform.Users.{User}
use uptime_platform.Organizations
use uptime_platform.Organizations.{Organization, Membership, OrganizationRole}
use uptime_platform.Organizations.Service.{create_organization, update_organization}
pub mod Login
pub mod Founders

pub record Passwords : Type 0 where
  pub lower : String → String
  pub hash_password : String → (salt : ℕ) → String
  pub verify_password : (password password_hash : String) → Bool

-- DEFAULT_ORGANIZATION_ID of organizations/constants.py
abbrev pub default_organization_id : ℕ
default_organization_id = 1

pub record RegisterRequest : Type 0 where
  pub email : String
  pub password : String
  pub organization_name : String

pub record LoginRequest : Type 0 where
  pub email : String
  pub password : String

pub record RegistrationResult : Type 0 where
  pub user : User
  pub organization : Organization
  pub membership : Membership

pub data AuthError : Type 0 where
  email_already_registered invalid_credentials : AuthError

-- The repositories of AuthService.
pub record Store : Type 0 where
  pub users : Dict User
  pub organizations : Dict Organization
  pub memberships : Dict Membership

-- The clock, the salt, and the identifiers in the order in which they are drawn.
pub record Draws : Type 0 where
  pub now : ℕ
  pub salt : ℕ
  pub organization_uuid : ℕ
  pub user_uuid : ℕ
  pub membership_uuid : ℕ

-- `default_organization is not None and not default_memberships`: the default organization, if it
-- is to be taken over.
abbrev pub vacant : Option Organization → List Membership → Option Organization
vacant none memberships = none
vacant (some organization) [] = some organization
vacant (some organization) (m ∷ ms) = none

abbrev pub add_user : User → Store → Store × User
add_user user s = (record s { users = Users.create s.users user }, user)

abbrev pub add_membership : Membership → Store → Store × Membership
add_membership m s = (record s { memberships = Organizations.create s.memberships m }, m)

-- The organization of the registration: the vacant default one under its new name, or a new one.
abbrev pub place :
    (name : String) (uuid now : ℕ) → Option Organization → Store → Store × Organization
place name uuid now (some default) s =
    let organization : Organization = record default { name = name } in
    (record s { organizations = update_organization s.organizations organization }, organization)
place name uuid now none s =
    let organization : Organization = record { id = uuid; name = name; created_at = now } in
    (record s { organizations = create_organization s.organizations organization }, organization)

abbrev pub default_of : Store → Option Organization
default_of s =
    vacant (Dict.get s.organizations default_organization_id)
      (Organizations.get_by_organization_id s.memberships default_organization_id)

module _ (lib : Passwords) where
  unfoldable pub register : RegisterRequest → Draws → Exec Store AuthError RegistrationResult
  register request draws = do
    let email = lib.lower request.email
    existing_user ← gets λ s. Users.get_by_email s.users email
    guard (is_none existing_user) email_already_registered
    default_organization ← gets default_of
    organization ←
        call
          (place request.organization_name draws.organization_uuid draws.now default_organization)
    user ← call (
        add_user (record {
          id = draws.user_uuid;
          email = email;
          password_hash = lib.hash_password request.password draws.salt;
          created_at = draws.now;
        }))
    membership ← call (
        add_membership (record {
          id = draws.membership_uuid;
          organization_id = organization.id;
          user_id = user.id;
          role = OrganizationRole.owner;
          created_at = draws.now;
        }))
    return (record { user = user; organization = organization; membership = membership })

  unfoldable pub login : LoginRequest → Exec Store AuthError User
  login request = do
    let email = lib.lower request.email
    found ← gets λ s. Users.get_by_email s.users email
    user ← required invalid_credentials found
    guard (lib.verify_password request.password user.password_hash) invalid_credentials
    return user
