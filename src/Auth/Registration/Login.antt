-- ===== src/Auth/Registration/Login.antt =====
-- About `register` and `login` of src/uptime_platform/auth/service.py.
use mathlib.Core.Path.{subst}
use text.Mathlib.Text.{◌==◌ as str_eq}
use text.Mathlib.TextPositions.{eq_refl}
use uptime_platform.Base.{
  ℕ, String, ◌≡◌, refl, sym, ap, ◌∙◌, true, Option, none, some, Option-cases, inl, inr,
  if◌then◌else◌,
}
use uptime_platform.Base.Result.{Result, ok, err}
use uptime_platform.Base.Dict
use uptime_platform.Base.Dict.{values, find?-put_first}
use uptime_platform.Users
use uptime_platform.Users.{User}
use uptime_platform.Organizations
use uptime_platform.Organizations.{Organization, Membership, OrganizationRole}
use uptime_platform.Auth.Registration.{
  Passwords, RegisterRequest, LoginRequest, RegistrationResult, AuthError, email_already_registered,
  Store, Draws, register, login, place, default_of,
}

module _ (lib : Passwords) where
  -- What a registration writes when the email is free.
  abbrev pub new_user : RegisterRequest → Draws → User
  new_user request draws = record {
    id = draws.user_uuid;
    email = lib.lower request.email;
    password_hash = lib.hash_password request.password draws.salt;
    created_at = draws.now;
  }

  abbrev pub new_membership : Organization → Draws → Membership
  new_membership organization draws = record {
    id = draws.membership_uuid;
    organization_id = organization.id;
    user_id = draws.user_uuid;
    role = OrganizationRole.owner;
    created_at = draws.now;
  }

  abbrev pub placed : RegisterRequest → Draws → Store → Store × Organization
  placed request draws s =
      place request.organization_name draws.organization_uuid draws.now (default_of s) s

  abbrev pub registered :
      RegisterRequest → Draws → Store → Result AuthError RegistrationResult × Store
  registered request draws s =
      let (s', organization) = placed request draws s in
      let membership = new_membership organization draws in
      (
        ok (record {
          user = new_user request draws;
          organization = organization;
          membership = membership;
        }),
        record s' {
          users = Users.create s'.users (new_user request draws);
          memberships = Organizations.create s'.memberships membership;
        },
      )

  pub register-free :
      (request : RegisterRequest) (draws : Draws) (s : Store)
      → Users.get_by_email s.users (lib.lower request.email) ≡ none
      → register lib request draws s ≡ registered request draws s
  unfolding register
  register-free request draws s e = rw e refl

  pub register-taken :
      (request : RegisterRequest) (draws : Draws) (s : Store) (user : User)
      → Users.get_by_email s.users (lib.lower request.email) ≡ some user
      → register lib request draws s ≡ (err email_already_registered, s)
  unfolding register
  register-taken request draws s user e = rw e refl

  place-users :
      (name : String) (uuid now : ℕ) (default : Option Organization) (s : Store)
      → (place name uuid now default s).0.users ≡ s.users
  place-users name uuid now none s = refl
  place-users name uuid now (some organization) s = refl

  err_not_ok :
      {e : AuthError} {result : RegistrationResult}
      → ◌≡◌ {A = Result AuthError RegistrationResult} (err e) (ok result)
      → ⊥
  err_not_ok h = cc

  refused_not :
      {s s' : Store} {result : RegistrationResult}
      → ◌≡◌ {A = Result AuthError RegistrationResult × Store}
          (err email_already_registered, s)
          (ok result, s')
      → ⊥
  refused_not h = err_not_ok (ap (λ p. p.0) h)

  user-inj :
      {result result' : RegistrationResult}
      → ◌≡◌ {A = Result AuthError RegistrationResult} (ok result) (ok result')
      → result.user ≡ result'.user
  user-inj h = cc

  -- A registration that succeeded found the email free.
  pub register-ok :
      (request : RegisterRequest) (draws : Draws) (s s' : Store) (result : RegistrationResult)
      → register lib request draws s ≡ (ok result, s')
      → (Users.get_by_email s.users (lib.lower request.email) ≡ none)
        × (registered request draws s ≡ (ok result, s'))
  register-ok request draws s s' result h =
      elim (Option-cases (Users.get_by_email s.users (lib.lower request.email))) [
        | inl e ↦ (e, sym (register-free request draws s e) ∙ h)
        | inr (user, e) ↦ absurd (refused_not (sym (register-taken request draws s user e) ∙ h))
      ]

  found-registered :
      (request : RegisterRequest) (draws : Draws) (s : Store)
      → Dict.get s.users draws.user_uuid ≡ none
      → Users.get_by_email s.users (lib.lower request.email) ≡ none
      → Users.get_by_email (registered request draws s).1.users (lib.lower request.email)
        ≡ some (new_user request draws)
  unfolding Users.get_by_email Users.create
  found-registered request draws s fresh free =
      let user = new_user request draws in
      let email = lib.lower request.email in
      ap (λ users. Users.get_by_email (Users.create users user) email)
        (place-users request.organization_name draws.organization_uuid draws.now (default_of s) s)
      ∙ find?-put_first (λ u. str_eq u.email email) s.users draws.user_uuid user fresh free
      ∙ ap (λ b. if b then some user else none) (eq_refl email)

  -- After a successful registration, the email finds the user of the result, with the hash of the
  -- password.
  found-after :
      (request : RegisterRequest) (draws : Draws) (s s' : Store) (result : RegistrationResult)
      → Dict.get s.users draws.user_uuid ≡ none
      → register lib request draws s ≡ (ok result, s')
      → (Users.get_by_email s'.users (lib.lower request.email) ≡ some result.user)
        × (result.user ≡ new_user request draws)
  found-after request draws s s' result fresh h =
      let (free, e) = register-ok request draws s s' result h in
      let same = user-inj (ap (λ p. p.0) e) in
      (
        subst (λ p. Users.get_by_email p.users (lib.lower request.email) ≡ some result.user)
            (ap (λ p. p.1) e) (found-registered request draws s fresh free ∙ ap some same),
        sym same,
      )

  -- Once a registration has succeeded, under an unused identifier, a login with the same email, in
  -- whichever case, and the same password gives its user and writes nothing; a password verifies
  -- against its own hash.
  pub register-login :
      (request : RegisterRequest) (draws : Draws) (s s' : Store) (result : RegistrationResult)
      (credentials : LoginRequest)
      → ((password : String) (salt : ℕ)
          → lib.verify_password password (lib.hash_password password salt) ≡ true)
      → Dict.get s.users draws.user_uuid ≡ none
      → register lib request draws s ≡ (ok result, s')
      → lib.lower credentials.email ≡ lib.lower request.email
      → credentials.password ≡ request.password
      → login lib credentials s' ≡ (ok result.user, s')
  unfolding login
  register-login request draws s s' result credentials law fresh h same_email same_password =
      let (found, user) = found-after request draws s s' result fresh h in
      let verified =
        ap (λ u. lib.verify_password credentials.password u.password_hash) user
        ∙ ap (λ p. lib.verify_password p (lib.hash_password request.password draws.salt))
            same_password
        ∙ law request.password draws.salt in
      rw (same_email, found, verified) refl
