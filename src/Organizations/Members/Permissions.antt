-- ===== src/Organizations/Members/Permissions.antt =====
-- About the role of the actor in src/uptime_platform/organizations/member_service.py.
use uptime_platform.Base.{ℕ, ◌≡◌, ◌↔◌, String, false, none, some, arith, inl, inr}
use uptime_platform.Base.Dict
use uptime_platform.Base.Dict.{Dict, IsKeyed, values, get-put, get-del, count-put, count-del}
use uptime_platform.Users.{User}
use uptime_platform.Organizations.{Membership, OrganizationRole, is_owner, is_admin, is_low}
use uptime_platform.Organizations.Members.{can_assign, can_manage, update_role, delete, add}
use uptime_platform.Organizations.Members.Steps.{update_role-write, delete-removal, add-addition}

-- The owners and the admins are the same before and after.
abbrev pub SamePrivileged : Dict Membership → Dict Membership → Type 0
SamePrivileged r r' =
    (k : ℕ) (x : Membership)
    → is_low x.role ≡ false
    → (Dict.get r' k ≡ some x) ↔ (Dict.get r k ≡ some x)

module _ (users : Dict User) (organization_id : ℕ) (actor_role : OrganizationRole)
    (r : Dict Membership) (keyed : IsKeyed (λ m. m.id) r)
    (below : is_owner actor_role ≡ false) where
  update_role-SamePrivileged :
      (user_id : ℕ) (role : OrganizationRole)
      → SamePrivileged r (update_role users organization_id actor_role user_id role r).1
  unfolding can_assign can_manage
  update_role-SamePrivileged user_id role k x high =
      elim (update_role-write users organization_id actor_role r keyed user_id role) [
        | inl e ↦ rw e ((λ h. h), (λ h. h))
        | inr w ↦
            let looked = get-put r w.m.id k (record w.m { role = role }) in
            rw (w.written) (
              (λ h. ground (arith, looked, w.stored, w.manageable, w.assignable)),
              (λ h. ground (arith, looked, w.stored, w.manageable, w.assignable)),
            )
      ]

  delete-SamePrivileged :
      (user_id : ℕ) → SamePrivileged r (delete users organization_id actor_role user_id r).1
  unfolding can_manage
  delete-SamePrivileged user_id k x high =
      elim (delete-removal users organization_id actor_role r keyed user_id) [
        | inl e ↦ rw e ((λ h. h), (λ h. h))
        | inr w ↦
            let looked = get-del r w.m.id k in
            rw (w.written) (
              (λ h. ground (arith, looked, w.stored, w.manageable)),
              (λ h. ground (arith, looked, w.stored, w.manageable)),
            )
      ]

  add-SamePrivileged :
      (lower : String → String) (email : String) (role : OrganizationRole) (uuid4 now : ℕ)
      → Dict.get r uuid4 ≡ none
      → SamePrivileged r (add users organization_id actor_role lower email role uuid4 now r).1
  unfolding can_assign
  add-SamePrivileged lower email role uuid4 now fresh k x high =
      elim (add-addition users organization_id actor_role lower email role uuid4 now r) [
        | inl e ↦ rw e ((λ h. h), (λ h. h))
        | inr w ↦
            let looked = get-put r uuid4 k w.m in
            rw (w.written) (
              (λ h. ground (arith, looked, w.role_given, w.assignable)),
              (λ h. ground (arith, looked, w.role_given, w.assignable)),
            )
      ]

  -- Over memberships stored under their identifiers, an actor who is no owner leaves every owner
  -- and every admin as they are and makes nobody one, by whichever request, provided that the
  -- identifier drawn for a new membership is unused.
  pub no_escalation :
      (uuid4 : ℕ)
      → Dict.get r uuid4 ≡ none
      → ((user_id : ℕ) (role : OrganizationRole)
          → SamePrivileged r (update_role users organization_id actor_role user_id role r).1)
        × ((user_id : ℕ) → SamePrivileged r (delete users organization_id actor_role user_id r).1)
        × ((lower : String → String) (email : String) (role : OrganizationRole) (now : ℕ)
            → SamePrivileged r
                (add users organization_id actor_role lower email role uuid4 now r).1)
  no_escalation uuid4 fresh = (
    update_role-SamePrivileged,
    delete-SamePrivileged,
    (λ lower email role now. add-SamePrivileged lower email role uuid4 now fresh),
  )

  -- Over memberships stored under their identifiers, an actor who is neither owner nor admin
  -- changes no membership by any request.
  pub powerless :
      is_admin actor_role ≡ false
      → ((user_id : ℕ) (role : OrganizationRole)
          → (update_role users organization_id actor_role user_id role r).1 ≡ r)
        × ((user_id : ℕ) → (delete users organization_id actor_role user_id r).1 ≡ r)
        × ((lower : String → String) (email : String) (role : OrganizationRole) (uuid4 now : ℕ)
            → (add users organization_id actor_role lower email role uuid4 now r).1 ≡ r)
  unfolding can_assign can_manage
  powerless low = (
    (λ user_id role.
        elim (update_role-write users organization_id actor_role r keyed user_id role) [
          | inl e ↦ e
          | inr w ↦ absurd (ground (arith, w.manageable))
        ]),
    (λ user_id. elim (delete-removal users organization_id actor_role r keyed user_id) [
      | inl e ↦ e
      | inr w ↦ absurd (ground (arith, w.manageable))
    ]),
    (λ lower email role uuid4 now.
        elim (add-addition users organization_id actor_role lower email role uuid4 now r) [
          | inl e ↦ e
          | inr w ↦ absurd (ground (arith, w.assignable))
        ]),
  )
