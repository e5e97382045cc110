-- ===== src/Organizations/Members/Owners.antt =====
-- About the owners of an organization under the requests of
-- src/uptime_platform/organizations/member_service.py.
use uptime_platform.Base.{
  ℕ, ◌≤◌, ◌≡◌, refl, String, Bool, ◌&&◌, none, arith, inl, inr, count, count-filter_both, ◌==◌,
}
use uptime_platform.Base.Dict
use uptime_platform.Base.Dict.{
  Dict, IsKeyed, values, count-put, count-del, put-IsKeyed_at, del-IsKeyed,
}
use uptime_platform.Users.{User}
use uptime_platform.Organizations
use uptime_platform.Organizations.{Membership, OrganizationRole, is_owner}
use uptime_platform.Organizations.Members.{owner_count, update_role, delete, add}
use uptime_platform.Organizations.Members.Steps.{update_role-write, delete-removal, add-addition}

abbrev owned : ℕ → Membership → Bool
owned o m = m.organization_id == o && is_owner m.role

abbrev pub owners : Dict Membership → ℕ → ℕ
owners r o = owner_count (Organizations.get_by_organization_id r o)

pub owners-count : (r : Dict Membership) (o : ℕ) → owners r o ≡ count (owned o) (values r)
unfolding Organizations.get_by_organization_id
owners-count r o = count-filter_both (λ m. is_owner m.role) (λ m. m.organization_id == o) (values r)

-- Each stored membership under its identifier, and every listed organization with an owner.
pub record IsOwned (o : ℕ) (r : Dict Membership) : Type 0 where
  pub keyed : IsKeyed (λ m. m.id) r
  pub owner_left : 1 ≤ owners r o

module _ (users : Dict User) (organization_id : ℕ) (actor_role : OrganizationRole) (o : ℕ)
    (r : Dict Membership) (inv : IsOwned o r) where
  update_role-IsOwned :
      (user_id : ℕ) (role : OrganizationRole)
      → IsOwned o (update_role users organization_id actor_role user_id role r).1
  update_role-IsOwned user_id role =
      elim (update_role-write users organization_id actor_role r inv.keyed user_id role) [
        | inl e ↦ rw e inv
        | inr w ↦ rw (w.written) (record {
          keyed = put-IsKeyed_at (λ m. m.id) r w.m.id _ refl inv.keyed;
          owner_left = ground (
            arith,
            owners-count r o,
            owners-count r organization_id,
            owners-count (Dict.put r w.m.id (record w.m { role = role })) o,
            count-put (owned o) r w.m.id (record w.m { role = role }),
            w.stored,
            w.of_organization,
            w.not_last,
            inv.owner_left,
          );
        })
      ]

  delete-IsOwned : (user_id : ℕ) → IsOwned o (delete users organization_id actor_role user_id r).1
  delete-IsOwned user_id =
      elim (delete-removal users organization_id actor_role r inv.keyed user_id) [
        | inl e ↦ rw e inv
        | inr w ↦ rw (w.written) (record {
          keyed = del-IsKeyed (λ m. m.id) r w.m.id inv.keyed;
          owner_left = ground (
            arith,
            owners-count r o,
            owners-count r organization_id,
            owners-count (Dict.del r w.m.id) o,
            count-del (λ m. m.id) (owned o) r w.m.id inv.keyed,
            w.stored,
            w.of_organization,
            w.not_last,
            inv.owner_left,
          );
        })
      ]

  add-IsOwned :
      (lower : String → String) (email : String) (role : OrganizationRole) (uuid4 now : ℕ)
      → Dict.get r uuid4 ≡ none
      → IsOwned o (add users organization_id actor_role lower email role uuid4 now r).1
  add-IsOwned lower email role uuid4 now fresh =
      elim (add-addition users organization_id actor_role lower email role uuid4 now r) [
        | inl e ↦ rw e inv
        | inr w ↦ rw (w.written) (record {
          keyed = put-IsKeyed_at (λ m. m.id) r uuid4 w.m w.id inv.keyed;
          owner_left = ground (
            arith,
            owners-count r o,
            owners-count (Dict.put r uuid4 w.m) o,
            count-put (owned o) r uuid4 w.m,
            inv.owner_left,
          );
        })
      ]

-- One request to the member service of an organization, by any actor of any role.
pub data Step (users : Dict User) (organization_id : ℕ) (r : Dict Membership)
    : Dict Membership → Type 0 where
  role_updated :
      (actor_role : OrganizationRole) (user_id : ℕ) (role : OrganizationRole)
      → Step users organization_id r (update_role users organization_id actor_role user_id role r).1
  member_deleted :
      (actor_role : OrganizationRole) (user_id : ℕ)
      → Step users organization_id r (delete users organization_id actor_role user_id r).1
  member_added :
      (actor_role : OrganizationRole) (lower : String → String) (email : String)
      (role : OrganizationRole) (uuid4 now : ℕ)
      → Dict.get r uuid4 ≡ none
      → Step users organization_id r
          (add users organization_id actor_role lower email role uuid4 now r).1

-- Any sequence of requests, to the services of any organizations.
pub data Reach (users : Dict User) (r : Dict Membership) : Dict Membership → Type 0 where
  here : Reach users r r
  next :
      {r' r'' : Dict Membership} (organization_id : ℕ)
      → Reach users r r'
      → Step users organization_id r' r''
      → Reach users r r''

Step-IsOwned :
    (users : Dict User) (organization_id o : ℕ) {r r' : Dict Membership}
    → Step users organization_id r r'
    → IsOwned o r
    → IsOwned o r'
Step-IsOwned users org o {r} (role_updated actor user_id role) inv =
    update_role-IsOwned users org actor o r inv user_id role
Step-IsOwned users org o {r} (member_deleted actor user_id) inv =
    delete-IsOwned users org actor o r inv user_id
Step-IsOwned users org o {r} (member_added actor lower email role uuid4 now fresh) inv =
    add-IsOwned users org actor o r inv lower email role uuid4 now fresh

-- Over memberships stored under their identifiers, an organization that has an owner has one after
-- any sequence of additions, role changes and removals, whoever asks for them and for whichever
-- organization, refused requests included; new memberships have unused identifiers.
pub Reach-IsOwned :
    (users : Dict User) (o : ℕ) {r r' : Dict Membership}
    → Reach users r r'
    → IsOwned o r
    → IsOwned o r'
Reach-IsOwned users o here inv = inv
Reach-IsOwned users o (next organization_id reach step) inv =
    Step-IsOwned users organization_id o step (Reach-IsOwned users o reach inv)
