-- ===== src/Auth/Refresh/Spent.antt =====
-- About the revoked sessions of src/uptime_platform/auth/in_memory_refresh_repository.py.
use uptime_platform.Base.{
  ℕ, ◌≡◌, refl, String, false, none, some, is_none, arith, inl, inr, Option-cases, Bool-cases,
}
use uptime_platform.Base.Dict
use uptime_platform.Base.Dict.{
  Dict, values, IsKeyed, put-IsKeyed, put-IsKeyed_at, get-find?, get-id, find?-put_new,
  find?-put_first, find?-put_at, get-put, get-put_self,
}
use uptime_platform.Auth.Refresh.{
  RefreshSession, create_session, get_by_hash_for_update, revoke_session, has_hash,
}

abbrev pub IsWellFormed : Dict RefreshSession → Type 0
IsWellFormed r = IsKeyed (λ s. s.id) r

-- The hash leads to a session that is revoked.
pub record IsSpent (token_hash : String) (r : Dict RefreshSession) : Type 0 where
  pub keyed : IsWellFormed r
  pub session : RefreshSession
  pub found : get_by_hash_for_update r token_hash ≡ some session
  pub revoked : is_none session.revoked_at ≡ false

module _ (h : String) (r : Dict RefreshSession) (inv : IsSpent h r) where
  pub create-IsSpent :
      (s : RefreshSession) → Dict.get r s.id ≡ none → IsSpent h (create_session r s)
  unfolding create_session get_by_hash_for_update
  create-IsSpent s fresh = record {
    keyed = put-IsKeyed (λ s. s.id) r s inv.keyed;
    session = inv.session;
    found = find?-put_new (has_hash h) r s.id s inv.session fresh inv.found;
    revoked = inv.revoked;
  }

  pub revoke-IsSpent : (k now : ℕ) → IsSpent h (revoke_session r k now).0
  unfolding revoke_session get_by_hash_for_update
  revoke-IsSpent k now = elim (Option-cases (Dict.get r k)) [
    | inl e ↦ rw e inv
    | inr (s, e) ↦ elim (Bool-cases (is_none s.revoked_at)) [
      | inr f ↦ rw (e, f) inv
      | inl t ↦
          rw (e, t)
            (record {
              keyed = put-IsKeyed_at (λ s. s.id) r k _ (get-id (λ s. s.id) r inv.keyed e) inv.keyed;
              session = inv.session;
              found = ground (
                arith,
                find?-put_at (has_hash h) (λ s. s.id) r k (record s { revoked_at = some now })
                    inv.session s inv.keyed e refl inv.found,
                get-find? (λ s. s.id) (has_hash h) r inv.keyed inv.found,
                inv.revoked,
              );
              revoked = inv.revoked;
            })
    ]
  ]

pub get-revoke_session :
    (r : Dict RefreshSession) (k now j : ℕ)
    → Dict.get r j ≡ none
    → Dict.get (revoke_session r k now).0 j ≡ none
unfolding revoke_session
get-revoke_session r k now j e = elim (Option-cases (Dict.get r k)) [
  | inl e' ↦ rw e' e
  | inr (s, e') ↦ rw e' (ground (arith, get-put r k j (record s { revoked_at = some now })))
]
