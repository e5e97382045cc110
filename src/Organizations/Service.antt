-- ===== src/Organizations/Service.antt =====
-- src/uptime_platform/organizations/service.py, with the organizations of the in-memory repository.
use uptime_platform.Base.{
  ℕ, String, none, some, List, [], ◌∷◌, leb, ◌≡◌, ◌+◌, arith, ◌==◌, ◌&&◌, bit,
}
use uptime_platform.Base.Sort.{sort}
use uptime_platform.Base.Dict
use uptime_platform.Base.Dict.{Dict, values, count-put}
use uptime_platform.Organizations
use uptime_platform.Organizations.{Organization, Membership, OrganizationRole, is_owner}
use uptime_platform.Organizations.Members.Owners.{owners, owners-count}

pub record OrganizationAccess : Type 0 where
  pub organization : Organization
  pub membership : Membership

-- InMemoryOrganizationRepository.create
unfoldable pub create_organization : Dict Organization → Organization → Dict Organization
create_organization r organization = Dict.put r organization.id organization

-- InMemoryOrganizationRepository.update
unfoldable pub update_organization : Dict Organization → Organization → Dict Organization
update_organization r organization = Dict.put r organization.id organization

pub record Store : Type 0 where
  pub organizations : Dict Organization
  pub memberships : Dict Membership

-- The two identifiers are those that the call draws, in their order.
unfoldable pub create :
    Store
    → (user_id : ℕ) (name : String) (organization_uuid membership_uuid now : ℕ)
    → Store × OrganizationAccess
create s user_id name organization_uuid membership_uuid now =
    let organization : Organization = record {
      id = organization_uuid;
      name = name;
      created_at = now;
    } in
    let membership : Membership = record {
      id = membership_uuid;
      organization_id = organization_uuid;
      user_id = user_id;
      role = OrganizationRole.owner;
      created_at = now;
    } in
    (
      record {
        organizations = create_organization s.organizations organization;
        memberships = Organizations.create s.memberships membership;
      },
      record { organization = organization; membership = membership },
    )

-- The loop of `get_for_user`.
unfoldable pub with_organizations : Dict Organization → List Membership → List OrganizationAccess
with_organizations r [] = []
with_organizations r (m ∷ ms) =
    let rest = with_organizations r ms in
    elim (Dict.get r m.organization_id) [
      | none ↦ rest
      | some organization ↦ record { organization = organization; membership = m } ∷ rest
    ]

unfoldable pub get_for_user : Store → (user_id : ℕ) → List OrganizationAccess
unfolding with_organizations
get_for_user s user_id =
    sort (λ a b. leb a.organization.created_at b.organization.created_at)
      (with_organizations s.organizations (Organizations.get_by_user_id s.memberships user_id))

-- Creating an organization adds one owner to the organization of its new identifier, and no other
-- organization's owners change, provided that the membership's identifier is unused.
pub create-owners :
    (s : Store) (user_id : ℕ) (name : String) (organization_uuid membership_uuid now o : ℕ)
    → Dict.get s.memberships membership_uuid ≡ none
    → owners (create s user_id name organization_uuid membership_uuid now).0.memberships o
      ≡ owners s.memberships o + bit (organization_uuid == o)
unfolding create Organizations.create
create-owners s user_id name ou mu now o fresh = ground (
  arith,
  owners-count s.memberships o,
  owners-count (create s user_id name ou mu now).0.memberships o,
  count-put (λ (m : Membership). m.organization_id == o && is_owner m.role) s.memberships mu
      (create s user_id name ou mu now).1.membership,
)
