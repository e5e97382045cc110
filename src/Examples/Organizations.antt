-- ===== src/Examples/Organizations.antt =====
-- Member requests of a concrete organization, whose owner is user 1.
use uptime_platform.Base.{
  ℕ, ◌+◌, ◌≤◌, ◌≡◌, refl, true, false, Bool, Option, none, some, List, [], ◌∷◌, arith, String, ◌==◌,
  bit, count,
}
use uptime_platform.Base.Dict
use uptime_platform.Base.Dict.{Dict}
use uptime_platform.Users.{User}
use uptime_platform.Organizations
use uptime_platform.Organizations.{Membership, OrganizationRole, owner, admin, viewer}
use uptime_platform.Organizations.Members.{update_role, delete, add}
use uptime_platform.Organizations.Members.Owners.{
  IsOwned, here, next, role_updated, member_deleted, Reach-IsOwned,
}
use uptime_platform.Organizations.Members.Permissions.{SamePrivileged, no_escalation}
use uptime_platform.Organizations.Service.{Store}

abbrev user : User
user = record { id = 1; email = "a@example.org"; password_hash = ""; created_at = 0 }

abbrev users : Dict User
users = (1, user) ∷ []

abbrev owner_membership : Membership
owner_membership = record {
  id = 20;
  organization_id = 7;
  user_id = 1;
  role = owner;
  created_at = 0;
}

abbrev memberships : Dict Membership
memberships = (20, owner_membership) ∷ []

memberships-IsOwned : IsOwned 7 memberships
unfolding Dict.get count Organizations.get_by_organization_id uptime_platform.Base.filter
memberships-IsOwned = record { keyed = (refl, refl, tt); owner_left = omega arith }

abbrev after_demotion : Dict Membership
after_demotion = (update_role users 7 owner 1 viewer memberships).1

abbrev after_removal : Dict Membership
after_removal = (delete users 7 admin 1 after_demotion).1

Reach-IsOwned_example : IsOwned 7 after_removal
Reach-IsOwned_example =
    Reach-IsOwned users 7
      (next 7 (next 7 here (role_updated owner 1 viewer)) (member_deleted admin 1))
      memberships-IsOwned

no_escalation_example :
    ((user_id : ℕ) (role : OrganizationRole)
      → SamePrivileged memberships (update_role users 7 admin user_id role memberships).1)
    × ((user_id : ℕ) → SamePrivileged memberships (delete users 7 admin user_id memberships).1)
    × ((lower : String → String) (email : String) (role : OrganizationRole) (now : ℕ)
        → SamePrivileged memberships (add users 7 admin lower email role 21 now memberships).1)
unfolding Dict.get
no_escalation_example = no_escalation users 7 admin memberships (refl, refl, tt) refl 21 refl

abbrev store : Store
store = record { organizations = []; memberships = memberships }
