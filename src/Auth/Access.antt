-- ===== src/Auth/Access.antt =====
-- src/uptime_platform/auth/dependencies.py: the context of a request and its role, with
-- OrganizationContext of auth/entities.py. The JWT library and the hash of a key are the fields of
-- `Library`.
pub mod Authority
use text.Mathlib.Text.{starts_with}
use uptime_platform.Base.{
  ℕ, String, Bool, true, false, not, ◌&&◌, Option, none, some, ltb, ◌==◌, if◌then◌else◌,
}
use uptime_platform.Base.Exec.{Exec, return, raise, gets, call, required, guard, ◌>>=◌, ◌>>◌}
use uptime_platform.Base.Result.{Result, ok, err}
use uptime_platform.Base.Dict
use uptime_platform.Base.Dict.{Dict}
use uptime_platform.Users
use uptime_platform.Users.{User}
use uptime_platform.Organizations
use uptime_platform.Organizations.{
  Organization, Membership, OrganizationRole, owner, admin, member, viewer,
}
use uptime_platform.ApiKeys
use uptime_platform.ApiKeys.{ApiKey}

pub record Library : Type 0 where
  pub hash_api_key : String → String
  pub get_user_id : String → Option ℕ  -- none is InvalidAccessTokenError

-- The repositories of a request that it only reads.
pub record Directory : Type 0 where
  pub users : Dict User
  pub organizations : Dict Organization
  pub memberships : Dict Membership

pub record OrganizationContext : Type 0 where
  pub user : Option User
  pub organization : Organization
  pub membership : Option Membership
  pub api_key : Option ApiKey

-- The HTTPException of each refusal.
pub data HttpError : Type 0 where
  not_authenticated invalid_api_key invalid_access_token organization_required
        organization_not_found insufficient_permissions :
      HttpError

-- The property `role`; `none` is its RuntimeError.
abbrev key_role : Option ApiKey → Option OrganizationRole
key_role none = none
key_role (some _) = some member

abbrev role_of : Option Membership → Option ApiKey → Option OrganizationRole
role_of none api_key = key_role api_key
role_of (some m) api_key = some m.role

unfoldable pub role : OrganizationContext → Option OrganizationRole
role context = role_of context.membership context.api_key

-- _ROLE_LEVEL
abbrev pub role_level : OrganizationRole → ℕ
role_level viewer = 10
role_level member = 20
role_level admin = 30
role_level owner = 40

-- `organization_id is not None and organization_id != api_key.organization_id`
abbrev pub other_organization : Option ℕ → ℕ → Bool
other_organization none k = false
other_organization (some organization_id) k = not (organization_id == k)

abbrev pub Action : Type 0 → Type 0
Action A = Exec (Dict ApiKey) HttpError A

module _ (lib : Library) (directory : Directory) (now : ℕ) where
  unfoldable pub key_context : (token : String) → Option ℕ → Action OrganizationContext
  key_context token organization_id = do
    found ← gets (λ r. ApiKeys.get_by_hash r (lib.hash_api_key token))
    api_key ← required invalid_api_key found
    guard (not (other_organization organization_id api_key.organization_id)) organization_not_found
    organization ←
        required invalid_api_key (Dict.get directory.organizations api_key.organization_id)
    call (λ r. ((ApiKeys.update_last_used r api_key.id now).0, tt {0}))
    return (record {
      user = none;
      organization = organization;
      membership = none;
      api_key = some api_key;
    })

  unfoldable pub user_context : (token : String) → Option ℕ → Action OrganizationContext
  user_context token header = do
    user_id ← required invalid_access_token (lib.get_user_id token)
    user ← required invalid_access_token (Users.get_by_id directory.users user_id)
    organization_id ← required organization_required header
    membership ←
        required organization_not_found
          (Organizations.get_by_user_and_organization directory.memberships user.id organization_id)
    organization ←
        required organization_not_found (Dict.get directory.organizations organization_id)
    return (record {
      user = some user;
      organization = organization;
      membership = some membership;
      api_key = none;
    })

  unfoldable pub get_organization_context :
      (credentials : Option String) (header : Option ℕ) → Action OrganizationContext
  unfolding key_context user_context
  get_organization_context credentials header = do
    token ← required not_authenticated credentials
    if starts_with token "upt_" then key_context token header else user_context token header

-- `_require_minimum_role`; a context without a role does not pass.
abbrev at_least : Option OrganizationRole → OrganizationRole → Bool
at_least none minimum_role = false
at_least (some r) minimum_role = not (ltb (role_level r) (role_level minimum_role))

unfoldable pub require_minimum_role :
    OrganizationContext → OrganizationRole → Result HttpError OrganizationContext
require_minimum_role context minimum_role =
    if at_least (role context) minimum_role then ok context else err insufficient_permissions
