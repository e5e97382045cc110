-- ===== src/Monitors/Repository/Exclusive.antt =====
-- About the calls on src/uptime_platform/monitors/in_memory_repository.py while a lease runs.
use mathlib.Core.Path.{subst}
use uptime_platform.Base.{
  ℕ, ◌<◌, ◌≡◌, ◌≢◌, refl, ◌∙◌, inl, inr, true, some, List, [], ◌∷◌, arith, All, All-In, In, count,
  All-imp,
}
use uptime_platform.Base.Result.{Result, ok, err, ValueError, Result-cases}
use uptime_platform.Base.Dict
use uptime_platform.Base.Dict.{get-del, get-put}
use uptime_platform.Monitors.Entities.{Monitor, MonitorClaim}
use uptime_platform.Monitors.Repository.{
  MonitorRepository, is_due, claim_due, create, update, delete, release_check_lease,
}
use uptime_platform.Monitors.Repository.Installed.{for_monitor, get-install}
use uptime_platform.Monitors.Repository.Leases.{
  IsWellFormed, batch, batch_due, claim_due-eq-ok, claim_due-contract, leased-not_due,
}

-- A call that changes the repository, by any worker or request.
pub data Call : Type 0 where
  claiming : (limit lease_grace : ℕ) (exclude_ids : List ℕ) (now : ℕ) (uuid4 : ℕ → ℕ) → Call
  releasing : (monitor_id token : ℕ) → Call
  creating : Monitor → Call
  updating : Monitor → Call
  deleting : (monitor_id organization_id : ℕ) → Call

-- A claim that is refused changes nothing.
abbrev claimed :
    MonitorRepository
    → Result ValueError (MonitorRepository × List MonitorClaim)
    → MonitorRepository
claimed r (ok (r', claims)) = r'
claimed r (err e) = r

unfoldable pub call : MonitorRepository → Call → MonitorRepository
call r (claiming limit lease_grace exclude_ids now uuid4) =
    claimed r (claim_due r limit lease_grace exclude_ids now uuid4)
call r (releasing monitor_id token) = (release_check_lease r monitor_id token).0
call r (creating monitor) = (create r monitor).0
call r (updating monitor) = (update r monitor).0
call r (deleting monitor_id organization_id) = (delete r monitor_id organization_id).0

unfoldable pub calls : MonitorRepository → List Call → MonitorRepository
calls r [] = r
calls r (q ∷ qs) = calls (call r q) qs

-- The call is made while the lease runs, and neither its holder gives it back nor its monitor goes.
abbrev pub During : MonitorClaim → Call → Type 0
During c (claiming limit lease_grace exclude_ids now uuid4) = now < c.expires_at
During c (releasing monitor_id token) = monitor_id ≡ c.monitor.id → token ≢ c.token
During c (creating monitor) = Unit
During c (updating monitor) = Unit
During c (deleting monitor_id organization_id) = monitor_id ≢ c.monitor.id

abbrev Holds : MonitorClaim → MonitorRepository → Type 0
Holds c r = Dict.get r.claims c.monitor.id ≡ some c

module _ (r : MonitorRepository) (c : MonitorClaim) (held : Holds c r) where
  others :
      (claims : List MonitorClaim) (ex : List ℕ) (now : ℕ)
      → now < c.expires_at
      → All (λ d. is_due r ex now d.monitor ≡ true) claims
      → count (for_monitor c.monitor.id) claims ≡ 0
  unfolding count is_due
  others [] ex now lt h = refl
  others (d ∷ claims) ex now lt (due, h) = ground (arith, others claims ex now lt h)

  releasing-Holds :
      (k token : ℕ) → During c (releasing k token) → Holds c (release_check_lease r k token).0
  unfolding release_check_lease
  releasing-Holds k token other = ground (arith, get-del r.claims k c.monitor.id)

  claiming-Holds :
      (limit g : ℕ) (ex : List ℕ) (now : ℕ) (uuid4 : ℕ → ℕ)
      → now < c.expires_at
      → Holds c (claimed r (claim_due r limit g ex now uuid4))
  claiming-Holds limit g ex now uuid4 lt = elim (Result-cases (claim_due r limit g ex now uuid4)) [
    | inr (e, refused) ↦ rw refused held
    | inl ((r', claims), made) ↦
        let (_, same) = claim_due-eq-ok r limit g ex now uuid4 r' claims made in
        let made_for = batch r limit g ex now uuid4 in
        rw (made, same)
          (get-install made_for r.claims c.monitor.id (
              others made_for ex now lt
                (All-imp (λ d h. h.0) made_for (batch_due r limit g ex now uuid4)))
            ∙ held)
  ]

  deleting-Holds :
      (k organization_id : ℕ)
      → During c (deleting k organization_id)
      → Holds c (delete r k organization_id).0
  unfolding delete
  deleting-Holds k organization_id other = ground (arith, get-del r.claims k c.monitor.id)

  updating-Holds : (m : Monitor) → Holds c (update r m).0
  unfolding update
  updating-Holds m = ground arith

call-Holds :
    (c : MonitorClaim) (q : Call) (r : MonitorRepository)
    → Holds c r
    → During c q
    → Holds c (call r q)
unfolding call create
call-Holds c (claiming limit g ex now uuid4) r held during =
    claiming-Holds r c held limit g ex now uuid4 during
call-Holds c (releasing k token) r held during = releasing-Holds r c held k token during
call-Holds c (creating m) r held during = held
call-Holds c (updating m) r held during = updating-Holds r c held m
call-Holds c (deleting k org) r held during = deleting-Holds r c held k org during

calls-Holds :
    (c : MonitorClaim) (qs : List Call) (r : MonitorRepository)
    → Holds c r
    → All (During c) qs
    → Holds c (calls r qs)
unfolding calls
calls-Holds c [] r held during = held
calls-Holds c (q ∷ qs) r held (now, later) =
    calls-Holds c qs (call r q) (call-Holds c q r held now) later

-- Over monitors stored under their identifiers: after a batch of claims and any sequence of calls
-- that claim, release, create, update and delete, a batch that is drawn while a claim of the first
-- still runs has no claim for the monitor of that claim. The calls between are made while that
-- claim runs, and none of them releases it or deletes its monitor.
pub claim_due-exclusive :
    (r r' r'' : MonitorRepository) (limit limit' lease_grace lease_grace' : ℕ)
    (exclude_ids exclude_ids' : List ℕ) (now now' : ℕ) (uuid4 uuid4' : ℕ → ℕ)
    (claims claims' : List MonitorClaim) (c c' : MonitorClaim) (qs : List Call)
    → IsWellFormed r
    → claim_due r limit lease_grace exclude_ids now uuid4 ≡ ok (r', claims)
    → In c claims
    → All (During c) qs
    → claim_due (calls r' qs) limit' lease_grace' exclude_ids' now' uuid4' ≡ ok (r'', claims')
    → In c' claims'
    → now' < c.expires_at
    → c'.monitor.id ≢ c.monitor.id
claim_due-exclusive r r' r'' limit limit' g g' ex ex' now now' uuid4 uuid4' claims claims' c c' qs
      wf h i during h' i' lt same =
    let told = claim_due-contract r r' limit g ex now uuid4 claims wf h in
    let held = All-In (λ c. Dict.get r'.claims c.monitor.id ≡ some c) claims told.1 i in
    let (shape, _) = claim_due-eq-ok (calls r' qs) limit' g' ex' now' uuid4' r'' claims' h' in
    let due =
      All-In _ (batch (calls r' qs) limit' g' ex' now' uuid4')
        (batch_due (calls r' qs) limit' g' ex' now' uuid4') (subst (In c') shape i') in
    cc (
      due.0,
      leased-not_due (calls r' qs) ex' now' c'.monitor c (rw same (calls-Holds c qs r' held during))
          lt,
    )
