-- ===== src/Organizations/Members/Steps.antt =====
-- About the writes of src/uptime_platform/organizations/member_service.py.
use uptime_platform.Base.{
  ℕ, ◌<◌, ◌≡◌, ◌⊎◌, refl, String, Bool, true, not, ◌&&◌, ◌||◌, ltb, none, some, if◌then◌else◌,
  arith, inl, inr, Option-cases, Bool-cases, is_none, find?-passes,
}
use uptime_platform.Base.Dict
use uptime_platform.Base.Dict.{Dict, IsKeyed, get-find?, values}
use uptime_platform.Users
use uptime_platform.Users.{User}
use uptime_platform.Organizations
use uptime_platform.Organizations.{Membership, OrganizationRole, is_owner, held_by}
use uptime_platform.Organizations.Members.{
  can_assign, can_manage, owner_count, update_role, delete, add,
}

module _ (users : Dict User) (organization_id : ℕ) (actor_role : OrganizationRole)
    (r : Dict Membership) (keyed : IsKeyed (λ m. m.id) r) where
  -- The membership that a method finds is stored under its identifier, for that user and
  -- organization.
  found-stored :
      (user_id : ℕ) (m : Membership)
      → Organizations.get_by_user_and_organization r user_id organization_id ≡ some m
      → (Dict.get r m.id ≡ some m) × (m.user_id ≡ user_id) × (m.organization_id ≡ organization_id)
  unfolding Organizations.get_by_user_and_organization
  found-stored user_id m e =
      let passes = find?-passes (held_by user_id organization_id) (values r) e in
      (
        get-find? (λ m. m.id) (held_by user_id organization_id) r keyed e,
        ground arith,
        ground arith,
      )

  -- A write of `update_role`: who was found, and what the guards say.
  pub record RoleWrite (user_id : ℕ) (role : OrganizationRole) (r' : Dict Membership) : Type 0 where
    pub m : Membership
    pub stored : Dict.get r m.id ≡ some m
    pub of_user : m.user_id ≡ user_id
    pub of_organization : m.organization_id ≡ organization_id
    pub manageable : can_manage actor_role m ≡ true
    pub assignable : can_assign actor_role role ≡ true
    pub not_last :
        (is_owner m.role && not (is_owner role)) ≡ true
        → 1 < owner_count (Organizations.get_by_organization_id r organization_id)
    pub written : r' ≡ Dict.put r m.id (record m { role = role })

  module _ (user_id : ℕ) (role : OrganizationRole) where
    -- All the tests on the way to the write.
    abbrev passes : Membership → Bool
    passes m =
        can_manage actor_role m
        && can_assign actor_role role
        && (not (is_owner m.role && not (is_owner role))
            || ltb 1 (owner_count (Organizations.get_by_organization_id r organization_id)))

    after-update_role :
        (m : Membership)
        → Organizations.get_by_user_and_organization r user_id organization_id ≡ some m
        → Dict.get r m.id ≡ some m
        → m.organization_id ≡ organization_id
        → (update_role users organization_id actor_role user_id role r).1
          ≡ (if passes m then Dict.put r m.id (record m { role = role }) else r)
    unfolding update_role Organizations.update
    after-update_role m e stored named = ground arith

    absent-update_role :
        Organizations.get_by_user_and_organization r user_id organization_id ≡ none
        → (update_role users organization_id actor_role user_id role r).1 ≡ r
    unfolding update_role
    absent-update_role e = ground arith

    pub update_role-write :
        ((update_role users organization_id actor_role user_id role r).1 ≡ r)
        ⊎ RoleWrite user_id role (update_role users organization_id actor_role user_id role r).1
    update_role-write =
        elim (Option-cases (Organizations.get_by_user_and_organization r user_id organization_id)) [
          | inl e ↦ inl (absent-update_role e)
          | inr (m, e) ↦
              let (stored, of_user, of_organization) = found-stored user_id m e in
              let wrote = after-update_role m e stored of_organization in
              elim (Bool-cases (passes m)) [
                | inl t ↦ inr (record {
                  m = m;
                  stored = stored;
                  of_user = of_user;
                  of_organization = of_organization;
                  manageable = ground arith;
                  assignable = ground arith;
                  not_last = ground arith;
                  written = rw t at wrote;
                })
                | inr f ↦ inl (rw f at wrote)
              ]
        ]

  -- A write of `delete`.
  pub record MemberRemoval (user_id : ℕ) (r' : Dict Membership) : Type 0 where
    pub m : Membership
    pub stored : Dict.get r m.id ≡ some m
    pub of_user : m.user_id ≡ user_id
    pub of_organization : m.organization_id ≡ organization_id
    pub manageable : can_manage actor_role m ≡ true
    pub not_last :
        is_owner m.role ≡ true
        → 1 < owner_count (Organizations.get_by_organization_id r organization_id)
    pub written : r' ≡ Dict.del r m.id

  module _ (user_id : ℕ) where
    abbrev removable : Membership → Bool
    removable m =
        can_manage actor_role m
        && (not (is_owner m.role)
            || ltb 1 (owner_count (Organizations.get_by_organization_id r organization_id)))

    after-delete :
        (m : Membership)
        → Organizations.get_by_user_and_organization r user_id organization_id ≡ some m
        → Dict.get r m.id ≡ some m
        → m.organization_id ≡ organization_id
        → (delete users organization_id actor_role user_id r).1
          ≡ (if removable m then Dict.del r m.id else r)
    unfolding delete Organizations.delete
    after-delete m e stored named = ground arith

    absent-delete :
        Organizations.get_by_user_and_organization r user_id organization_id ≡ none
        → (delete users organization_id actor_role user_id r).1 ≡ r
    unfolding delete
    absent-delete e = ground arith

    pub delete-removal :
        ((delete users organization_id actor_role user_id r).1 ≡ r)
        ⊎ MemberRemoval user_id (delete users organization_id actor_role user_id r).1
    delete-removal =
        elim (Option-cases (Organizations.get_by_user_and_organization r user_id organization_id)) [
          | inl e ↦ inl (absent-delete e)
          | inr (m, e) ↦
              let (stored, of_user, of_organization) = found-stored user_id m e in
              let wrote = after-delete m e stored of_organization in
              elim (Bool-cases (removable m)) [
                | inl t ↦ inr (record {
                  m = m;
                  stored = stored;
                  of_user = of_user;
                  of_organization = of_organization;
                  manageable = ground arith;
                  not_last = ground arith;
                  written = rw t at wrote;
                })
                | inr f ↦ inl (rw f at wrote)
              ]
        ]

-- A write of `add`: a new membership of a role that the actor may give, for a user who has none.
pub record MemberAddition (organization_id : ℕ) (actor_role role : OrganizationRole) (uuid4 : ℕ)
    (r r' : Dict Membership) : Type 0 where
  pub m : Membership
  pub id : m.id ≡ uuid4
  pub role_given : m.role ≡ role
  pub of_organization : m.organization_id ≡ organization_id
  pub assignable : can_assign actor_role role ≡ true
  pub unheld : Organizations.get_by_user_and_organization r m.user_id organization_id ≡ none
  pub written : r' ≡ Dict.put r uuid4 m

module _ (users : Dict User) (organization_id : ℕ) (actor_role : OrganizationRole)
    (lower : String → String) (email : String) (role : OrganizationRole) (uuid4 now : ℕ) where
  abbrev addition : User → Membership
  addition user = record {
    id = uuid4;
    organization_id = organization_id;
    user_id = user.id;
    role = role;
    created_at = now;
  }

  add-eq :
      (r : Dict Membership) (user : User)
      → Users.get_by_email users (lower email) ≡ some user
      → (add users organization_id actor_role lower email role uuid4 now r).1 ≡ (
          if can_assign actor_role role
            && is_none (Organizations.get_by_user_and_organization r user.id organization_id)
          then Dict.put r uuid4 (addition user)
          else r)
  unfolding add Organizations.create
  add-eq r user e = ground arith

  add_unknown :
      (r : Dict Membership)
      → Users.get_by_email users (lower email) ≡ none
      → (add users organization_id actor_role lower email role uuid4 now r).1 ≡ r
  unfolding add
  add_unknown r e = ground arith

  pub add-addition :
      (r : Dict Membership)
      → ((add users organization_id actor_role lower email role uuid4 now r).1 ≡ r)
        ⊎ MemberAddition organization_id actor_role role uuid4 r
            (add users organization_id actor_role lower email role uuid4 now r).1
  add-addition r = elim (Option-cases (Users.get_by_email users (lower email))) [
    | inl e ↦ inl (add_unknown r e)
    | inr (user, e) ↦
        let wrote = add-eq r user e in
        elim (Bool-cases (
          can_assign actor_role role
          && is_none (Organizations.get_by_user_and_organization r user.id organization_id))) [
            | inl t ↦ inr (record {
              m = addition user;
              id = refl;
              role_given = refl;
              of_organization = refl;
              assignable = ground arith;
              unheld = ground arith;
              written = rw t at wrote;
            })
            | inr f ↦ inl (rw f at wrote)
          ]
  ]
