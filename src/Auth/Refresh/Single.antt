-- ===== src/Auth/Refresh/Single.antt =====
-- About sequences of requests to src/uptime_platform/auth/refresh_service.py.
use uptime_platform.Base.{
  ℕ, ◌≡◌, refl, ap, String, none, some, is_none, arith, inl, inr, Option-cases, Bool-cases,
}
use uptime_platform.Base.Result.{ok, err}
use uptime_platform.Base.Dict
use uptime_platform.Base.Dict.{
  Dict, values, IsKeyed, put-IsKeyed, put-IsKeyed_at, get-find?, get-id, find?-put_new,
  find?-put_first, find?-put_at, get-put, get-put_self,
}
use uptime_platform.Auth.Refresh.{
  RefreshSession, TokenPair, Settings, Draws, invalid_refresh_token, get_by_hash_for_update,
  revoke_session, has_hash, new_session, issue, refresh, revoke,
}
use uptime_platform.Auth.Refresh.Spent.{
  IsWellFormed, IsSpent, create-IsSpent, revoke-IsSpent, get-revoke_session,
}
use uptime_platform.Auth.Refresh.Exchange.{Exchange, refresh-cases}

module _ (self : Settings) where
  -- One request to the service; the identifier drawn for a new session is not in use.
  pub data Step (r : Dict RefreshSession) : Dict RefreshSession → Type 0 where
    issued :
        (user_id : ℕ) (draws : Draws)
        → Dict.get r draws.session_id ≡ none
        → Step r (issue self user_id draws r).1
    refreshed :
        (refresh_token : String) (draws : Draws)
        → Dict.get r draws.session_id ≡ none
        → Step r (refresh self refresh_token draws r).1
    revoked : (refresh_token : String) (now : ℕ) → Step r (revoke self r refresh_token now)

  pub data Reach (r : Dict RefreshSession) : Dict RefreshSession → Type 0 where
    here : Reach r r
    next : {r' r'' : Dict RefreshSession} → Reach r r' → Step r' r'' → Reach r r''

  module _ (h : String) (r : Dict RefreshSession) (inv : IsSpent h r) where
    issue-IsSpent :
        (user_id : ℕ) (draws : Draws)
        → Dict.get r draws.session_id ≡ none
        → IsSpent h (issue self user_id draws r).1
    unfolding issue
    issue-IsSpent user_id draws fresh =
        create-IsSpent h r inv (new_session self user_id draws) fresh

    refresh-IsSpent :
        (token : String) (draws : Draws)
        → Dict.get r draws.session_id ≡ none
        → IsSpent h (refresh self token draws r).1
    refresh-IsSpent token draws fresh = elim (refresh-cases self token draws r) [
      | inl e ↦ rw e inv
      | inr x ↦ rw (x.result) (
          create-IsSpent h (revoke_session r x.session.id draws.now).0
            (revoke-IsSpent h r inv x.session.id draws.now)
            (new_session self x.session.user_id draws)
            (get-revoke_session r x.session.id draws.now draws.session_id fresh))
    ]

    service_revoke-IsSpent : (token : String) (now : ℕ) → IsSpent h (revoke self r token now)
    unfolding revoke
    service_revoke-IsSpent token now =
        elim (Option-cases (get_by_hash_for_update r (self.hash token))) [
          | inl e ↦ rw e inv
          | inr (s, e) ↦ elim (Bool-cases (is_none s.revoked_at)) [
            | inr f ↦ rw (e, f) inv
            | inl t ↦ rw (e, t) (revoke-IsSpent h r inv s.id now)
          ]
        ]

  Step-IsSpent : (h : String) {r r' : Dict RefreshSession} → Step r r' → IsSpent h r → IsSpent h r'
  Step-IsSpent h {r} (issued user_id draws fresh) inv = issue-IsSpent h r inv user_id draws fresh
  Step-IsSpent h {r} (refreshed token draws fresh) inv = refresh-IsSpent h r inv token draws fresh
  Step-IsSpent h {r} (revoked token now) inv = service_revoke-IsSpent h r inv token now

  Reach-IsSpent :
      (h : String) {r r' : Dict RefreshSession} → Reach r r' → IsSpent h r → IsSpent h r'
  Reach-IsSpent h here inv = inv
  Reach-IsSpent h (next reach step) inv = Step-IsSpent h step (Reach-IsSpent h reach inv)

  -- The session that an exchange revoked is spent.
  Exchange-IsSpent :
      (token : String) (draws : Draws) (r : Dict RefreshSession)
      → IsWellFormed r
      → Dict.get r draws.session_id ≡ none
      → Exchange self token draws r
      → IsSpent (self.hash token) (refresh self token draws r).1
  unfolding revoke_session get_by_hash_for_update
  Exchange-IsSpent token draws r wf fresh x =
      let h = self.hash token in
      let s = x.session in
      let stored = get-find? (λ s. s.id) (has_hash h) r wf x.found in
      let s' = record s { revoked_at = some draws.now } in
      let r1 = (revoke_session r s.id draws.now).0 in
      let r1_eq : r1 ≡ Dict.put r s.id s' = ground (arith, stored, x.unrevoked) in
      let spent : IsSpent h r1 = record {
        keyed = rw r1_eq (put-IsKeyed_at (λ s. s.id) r s.id s' refl wf);
        session = s';
        found = rw r1_eq (
            ground
              (arith, find?-put_at (has_hash h) (λ s. s.id) r s.id s' s s wf stored refl x.found));
        revoked = refl;
      } in
      rw (x.result) (
        create-IsSpent h r1 spent (new_session self s.user_id draws)
          (get-revoke_session r s.id draws.now draws.session_id fresh))

  spent_refused :
      (token : String) (draws : Draws) (r : Dict RefreshSession)
      → IsSpent (self.hash token) r
      → refresh self token draws r ≡ (err invalid_refresh_token, r)
  spent_refused token draws r inv = elim (refresh-cases self token draws r) [
    | inl e ↦ e
    | inr x ↦ absurd (ground (arith, inv.found, x.found, inv.revoked, x.unrevoked))
  ]

  -- Over sessions stored under their identifiers: once a refresh with a token has succeeded, every
  -- later refresh with it is refused and writes nothing, whatever requests come in between, as
  -- long as each new session has an unused identifier.
  pub refresh_single_use :
      (token : String) (draws draws' : Draws) (r r' : Dict RefreshSession) (pair : TokenPair)
      → IsWellFormed r
      → Dict.get r draws.session_id ≡ none
      → (refresh self token draws r).0 ≡ ok pair
      → Reach (refresh self token draws r).1 r'
      → refresh self token draws' r' ≡ (err invalid_refresh_token, r')
  refresh_single_use token draws draws' r r' pair wf fresh succeeded reach =
      elim (refresh-cases self token draws r) [
        | inl e ↦ absurd (cc (ap (λ p. p.0) e, succeeded))
        | inr x ↦
            spent_refused token draws' r'
              (Reach-IsSpent (self.hash token) reach (Exchange-IsSpent token draws r wf fresh x))
      ]
