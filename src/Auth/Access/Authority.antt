-- ===== src/Auth/Access/Authority.antt =====
-- About the context of a request in src/uptime_platform/auth/dependencies.py.
use text.Mathlib.Text.{starts_with}
use uptime_platform.Base.{
  ℕ, ◌≤◌, ◌≡◌, inl, inr, sym, ap, ◌∙◌, String, Option, none, some, arith, Option-cases, Bool-cases,
  find?-passes,
}
use uptime_platform.Base.Result.{Result, ok, err}
use uptime_platform.Base.Dict
use uptime_platform.Base.Dict.{Dict, values}
use uptime_platform.Users
use uptime_platform.Users.{User}
use uptime_platform.Organizations
use uptime_platform.Organizations.{
  Organization, Membership, OrganizationRole, owner, admin, member, viewer, held_by,
}
use uptime_platform.ApiKeys.{ApiKey}
use uptime_platform.Auth.Access.{
  HttpError, Library, Directory, OrganizationContext, role, role_level, key_context, user_context,
  get_organization_context, require_minimum_role,
}

-- The context is of the stored user whom the token names, and stands on that user's membership of
-- the organization that the header names.
pub record ByMembership (lib : Library) (directory : Directory) (token : String) (header : Option ℕ)
    (context : OrganizationContext) : Type 0 where
  pub user_id : ℕ
  pub user : User
  pub membership : Membership
  pub organization_id : ℕ
  pub token_user : lib.get_user_id token ≡ some user_id
  pub stored_user : Dict.get directory.users user_id ≡ some user
  pub named : header ≡ some organization_id
  pub of_user : membership.user_id ≡ user.id
  pub of_organization : membership.organization_id ≡ organization_id
  pub found :
      Organizations.get_by_user_and_organization directory.memberships user.id organization_id
      ≡ some membership
  pub organization : Dict.get directory.organizations organization_id ≡ some context.organization
  pub context_user : context.user ≡ some user
  pub context_membership : context.membership ≡ some membership

refused :
    {e : HttpError} {c : OrganizationContext}
    → ◌≡◌ {A = Result HttpError OrganizationContext} (err e) (ok c)
    → ⊥
refused h = cc

context_inj :
    {b c : OrganizationContext}
    → ◌≡◌ {A = Result HttpError OrganizationContext} (ok b) (ok c)
    → b ≡ c
context_inj h = cc

membership_fields :
    (directory : Directory) (user_id organization_id : ℕ) (m : Membership)
    → Organizations.get_by_user_and_organization directory.memberships user_id organization_id
      ≡ some m
    → (m.user_id ≡ user_id) × (m.organization_id ≡ organization_id)
unfolding Organizations.get_by_user_and_organization
membership_fields directory user_id organization_id m h =
    ground (
      arith,
      find?-passes (held_by user_id organization_id) (values directory.memberships) {a = m} h,
    )

module _ (lib : Library) (directory : Directory) (now : ℕ) (token : String) (header : Option ℕ)
    (r : Dict ApiKey) (context : OrganizationContext) where
  key_context-membership :
      (key_context lib directory now token header r).0 ≡ ok context → context.membership ≡ none
  unfolding key_context
  key_context-membership h = ground arith

  key_refused :
      (minimum_role : OrganizationRole) (passed : OrganizationContext)
      → context.membership ≡ none
      → 30 ≤ role_level minimum_role
      → require_minimum_role context minimum_role ≡ ok passed
      → ⊥
  unfolding require_minimum_role role
  key_refused minimum_role passed e high h = ground arith

  allowed :
      (minimum_role : OrganizationRole) (passed : OrganizationContext) (m : Membership)
      → context.membership ≡ some m
      → require_minimum_role context minimum_role ≡ ok passed
      → role_level minimum_role ≤ role_level m.role
  unfolding require_minimum_role role
  allowed minimum_role passed m e h = ground arith

  passed_on :
      (minimum_role : OrganizationRole) (passed : OrganizationContext)
      → require_minimum_role context minimum_role ≡ ok passed
      → passed ≡ context
  unfolding require_minimum_role role
  passed_on minimum_role passed h = ground arith

  user_context-ByMembership :
      (user_context lib directory now token header r).0 ≡ ok context
      → ByMembership lib directory token header context
  unfolding user_context Users.get_by_id
  user_context-ByMembership h = elim (Option-cases (lib.get_user_id token)) [
    | inl e ↦ absurd (refused (rw (e, user_context) at h))
    | inr (k, e) ↦ elim (Option-cases (Users.get_by_id directory.users k)) [
      | inl e' ↦ absurd (refused (rw (e, e', user_context) at h))
      | inr (user, e') ↦ elim (Option-cases header) [
        | inl q ↦ absurd (refused (rw (e, e', q, user_context) at h))
        | inr (o, q) ↦
            elim (Option-cases
              (Organizations.get_by_user_and_organization directory.memberships user.id o)) [
                | inl f ↦ absurd (refused (rw (e, e', q, f, user_context) at h))
                | inr (m, f) ↦ elim (Option-cases (Dict.get directory.organizations o)) [
                  | inl g ↦ absurd (refused (rw (e, e', q, f, g, user_context) at h))
                  | inr (organization, g) ↦
                      let made = context_inj (rw (e, e', q, f, g, user_context) at h) in
                      let (of_user, of_organization) = membership_fields directory user.id o m f in
                      record {
                        user_id = k;
                        token_user = e;
                        stored_user = e';
                        user = user;
                        membership = m;
                        organization_id = o;
                        named = q;
                        of_organization = of_organization;
                        of_user = of_user;
                        found = f;
                        organization = g ∙ ap (λ c. some c.organization) made;
                        context_user = sym (ap (λ c. c.user) made);
                        context_membership = sym (ap (λ c. c.membership) made);
                      }
                ]
              ]
      ]
    ]
  ]

  -- Whoever is let through as an admin or as an owner is the stored user whom the token names; the
  -- context is of that user and of the organization that the header names, where the user has a
  -- membership with that role or a higher one. The context is passed on as it is, and an API key is
  -- never enough, whatever keys are stored.
  pub context-ByMembership :
      (minimum_role : OrganizationRole) (passed : OrganizationContext)
      → 30 ≤ role_level minimum_role
      → (get_organization_context lib directory now (some token) header r).0 ≡ ok context
      → require_minimum_role context minimum_role ≡ ok passed
      → (passed ≡ context)
        × ByMembership lib directory token header context
        × ((m : Membership) × (context.membership ≡ some m)
            × (role_level minimum_role ≤ role_level m.role))
  unfolding get_organization_context
  context-ByMembership minimum_role passed high h k = elim (Bool-cases (starts_with token "upt_")) [
    | inl e ↦ absurd (key_refused minimum_role passed (key_context-membership (rw e at h)) high k)
    | inr e ↦
        let by = user_context-ByMembership (rw e at h) in
        (
          passed_on minimum_role passed k,
          by,
          (
            by.membership,
            by.context_membership,
            allowed minimum_role passed by.membership by.context_membership k,
          ),
        )
  ]
