-- ===== src/Auth/Refresh/Exchange.antt =====
-- About `refresh` and `issue` of src/uptime_platform/auth/refresh_service.py.
use text.Mathlib.TextPositions.{eq_refl}
use uptime_platform.Base.{
  ℕ, ◌+◌, ◌<◌, ◌≡◌, ◌⊎◌, refl, ap, ◌∙◌, String, true, false, none, some, leb, if◌then◌else◌,
  is_none, arith, inl, inr, Option-cases, Bool-cases,
}
use uptime_platform.Base.Time.{days}
use uptime_platform.Base.Result.{ok, err}
use uptime_platform.Base.Dict
use uptime_platform.Base.Dict.{
  Dict, values, IsKeyed, put-IsKeyed, put-IsKeyed_at, get-find?, get-id, find?-put_new,
  find?-put_first, find?-put_at, get-put, get-put_self,
}
use uptime_platform.Auth.Refresh.{
  RefreshSession, Settings, Draws, invalid_refresh_token, create_session, get_by_hash_for_update,
  revoke_session, revoke_found, has_hash, new_session, issue, refresh,
}

module _ (self : Settings) where
  refused-r :
      (r : Dict RefreshSession) (k now : ℕ)
      → (revoke_session r k now).1 ≡ false
      → (revoke_session r k now).0 ≡ r
  unfolding revoke_session
  refused-r r k now h = ground arith

  -- A refresh either is refused and writes nothing, or it revokes the session that its token leads
  -- to, which was neither revoked nor expired, and stores a session of the same user.
  pub record Exchange (refresh_token : String) (draws : Draws) (r : Dict RefreshSession)
      : Type 0 where
    pub session : RefreshSession
    pub found : get_by_hash_for_update r (self.hash refresh_token) ≡ some session
    pub unrevoked : session.revoked_at ≡ none
    pub unexpired : draws.now < session.expires_at
    pub revoked : (revoke_session r session.id draws.now).1 ≡ true
    pub result : refresh self refresh_token draws r ≡ (
      ok (record {
        access_token = self.create_access_token session.user_id;
        refresh_token = draws.token;
      }),
      create_session
          (revoke_session r session.id draws.now).0
          (new_session self session.user_id draws),
    )

  pub refresh-cases :
      (refresh_token : String) (draws : Draws) (r : Dict RefreshSession)
      → (refresh self refresh_token draws r ≡ (err invalid_refresh_token, r))
        ⊎ Exchange refresh_token draws r
  unfolding refresh
  refresh-cases token draws r = elim (Option-cases (get_by_hash_for_update r (self.hash token))) [
    | inl e ↦ rw (e, refresh) (inl refl)
    | inr (s, e) ↦ elim (Bool-cases (is_none s.revoked_at)) [
      | inr f ↦ rw (e, f, refresh) (inl refl)
      | inl t ↦ elim (Bool-cases (leb s.expires_at draws.now)) [
        | inl l ↦ rw (e, t, l, refresh) (inl refl)
        | inr g ↦ elim (Bool-cases (revoke_session r s.id draws.now).1) [
          | inr q ↦ inl (
              rw (e, t, g, q, refresh)
                (ap (λ r'. (err invalid_refresh_token, r')) (refused-r r s.id draws.now q)))
          | inl q ↦ inr (record {
            session = s;
            found = e;
            unrevoked = ground arith;
            unexpired = ground arith;
            revoked = q;
            result = rw (e, t, g, q, refresh) refl;
          })
        ]
      ]
    ]
  ]

  -- A token that was issued, under an unused identifier and with a hash that no session has, is
  -- exchanged at any instant before its lifetime ends, for a pair of the same user.
  pub refresh-issue :
      (user_id : ℕ) (draws draws' : Draws) (r : Dict RefreshSession)
      → Dict.get r draws.session_id ≡ none
      → get_by_hash_for_update r (self.hash draws.token) ≡ none
      → draws'.now < draws.now + days self.ttl_days
      → (refresh self draws.token draws' (issue self user_id draws r).1).0
        ≡ ok (record {
          access_token = self.create_access_token user_id;
          refresh_token = draws'.token;
        })
  unfolding refresh issue create_session get_by_hash_for_update revoke_session
  refresh-issue user_id draws draws' r fresh absent lt =
      rw (found, unexpired, revocable, refresh) refl
    where
      session : RefreshSession
      session = new_session self user_id draws

      stored : Dict RefreshSession
      stored = create_session r session

      found : get_by_hash_for_update stored (self.hash draws.token) ≡ some session
      found =
          find?-put_first (has_hash (self.hash draws.token)) r draws.session_id session fresh absent
          ∙ ap (λ b. if b then some session else none) (eq_refl (self.hash draws.token))

      unexpired : leb session.expires_at draws'.now ≡ false
      unexpired = ground arith

      revocable : (revoke_session stored session.id draws'.now).1 ≡ true
      revocable =
          ap (λ o. (revoke_found stored session.id draws'.now o).1)
            (get-put_self r draws.session_id session)
