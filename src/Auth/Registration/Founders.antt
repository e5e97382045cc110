-- ===== src/Auth/Registration/Founders.antt =====
-- About the organization of `register` in src/uptime_platform/auth/service.py.
use uptime_platform.Base.{ℕ, ◌≡◌, [], ◌∷◌}
use uptime_platform.Base.Result.{Result}
use uptime_platform.Base.Dict
use uptime_platform.Base.Dict.{Dict}
use uptime_platform.Organizations
use uptime_platform.Organizations.{Membership, OrganizationRole}
use uptime_platform.Auth.Registration.{RegistrationResult, Store}

-- No membership is of the organization.
abbrev IsEmpty : Dict Membership → ℕ → Type 0
IsEmpty r organization_id = Organizations.get_by_organization_id r organization_id ≡ []

-- The user of the result is the only member of its organization, as an owner.
pub record IsFounder (result : RegistrationResult) (s : Store) : Type 0 where
  pub alone :
      Organizations.get_by_organization_id s.memberships result.organization.id
      ≡ result.membership ∷ []
  pub owner : result.membership.role ≡ OrganizationRole.owner
  pub user : result.membership.user_id ≡ result.user.id
  pub organization : result.membership.organization_id ≡ result.organization.id
