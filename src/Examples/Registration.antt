-- ===== src/Examples/Registration.antt =====
-- A registration over an empty store, then a login and another registration with the same email.
use text.Mathlib.Text.{◌==◌ as str_eq}
use text.Mathlib.TextPositions.{eq_refl}
use uptime_platform.Base.{◌≡◌, refl, none, some, [], ◌∷◌}
use uptime_platform.Base.Result.{ok}
use uptime_platform.Base.Dict
use uptime_platform.Users.{User}
use uptime_platform.Organizations.{Organization, Membership, OrganizationRole}
use uptime_platform.Auth.Registration.{
  Passwords, RegisterRequest, LoginRequest, RegistrationResult, Store, Draws, register, login,
}
use uptime_platform.Auth.Registration.Login.{register-login}

abbrev passwords : Passwords
passwords = record {
  lower = λ s. s;
  hash_password = λ password salt. password;
  verify_password = λ password hash. str_eq password hash;
}

abbrev store : Store
store = record {
  users = [];
  organizations = (1, record { id = 1; name = "Default"; created_at = 0 }) ∷ [];
  memberships = [];
}

abbrev draws : Draws
draws = record { now = 9; salt = 5; organization_uuid = 70; user_uuid = 80; membership_uuid = 90 }

abbrev request : RegisterRequest
request = record { email = "a@b.example"; password = "correct horse"; organization_name = "Acme" }

-- The default organization has no members, so it is taken over.
abbrev result : RegistrationResult
result = record {
  user = record { id = 80; email = "a@b.example"; password_hash = "correct horse"; created_at = 9 };
  organization = record { id = 1; name = "Acme"; created_at = 0 };
  membership = record {
    id = 90;
    organization_id = 1;
    user_id = 80;
    role = OrganizationRole.owner;
    created_at = 9;
  };
}

abbrev registered : Store
registered = record {
  users = (80, result.user) ∷ [];
  organizations = (1, result.organization) ∷ [];
  memberships = (90, result.membership) ∷ [];
}

register-ok : register passwords request draws store ≡ (ok result, registered)
unfolding register uptime_platform.Users.get_by_email uptime_platform.Base.find? Dict.get
    uptime_platform.Users.create uptime_platform.Organizations.create
    uptime_platform.Organizations.get_by_organization_id Dict.put uptime_platform.Base.filter
    uptime_platform.Organizations.Service.update_organization
register-ok = refl

abbrev credentials : LoginRequest
credentials = record { email = "a@b.example"; password = "correct horse" }

abbrev wrong : LoginRequest
wrong = record { email = "a@b.example"; password = "battery staple" }

register-login_example : login passwords credentials registered ≡ (ok result.user, registered)
unfolding Dict.get
register-login_example =
    register-login passwords request draws store registered result credentials
      (λ password salt. eq_refl password) refl register-ok refl refl
