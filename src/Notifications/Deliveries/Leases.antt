-- ===== src/Notifications/Deliveries/Leases.antt =====
-- About the leases that `claim_pending` of
-- src/uptime_platform/notifications/in_memory_repository.py gives.
use uptime_platform.Base.{
  ℕ, suc, ◌+◌, ◌≤◌, ◌≡◌, refl, ap, ◌∙◌, true, some, List, [], ◌∷◌, arith, filter, take, count,
  count-take, count-filter, ◌==◌, All, All-take, All-filter, All-filter_of, All-both, Bool, All-imp,
  length, length-take-le, bit, mem, false,
}
use mathlib.Core.Path.{subst}
use uptime_platform.Base.Sort.{All-sort, count-sort}
use uptime_platform.Base.Result.{ok}
use uptime_platform.Base.Dict
use uptime_platform.Base.Dict.{
  Dict, values, IsKeyed, get-put, get-put_self, put-IsKeyed, get-id, values-All, count-id-le,
}
use uptime_platform.Notifications.Entities.{NotificationDelivery}
use uptime_platform.Notifications.Deliveries.{
  is_pending, attempt_before, claim_each, pending_list, claim_pending,
}

abbrev pub has_id : ℕ → NotificationDelivery → Bool
has_id k d = d.id == k

module _ (uuid4 : ℕ → ℕ) (lu : ℕ) where
  get-claim_each :
      (i : ℕ) (ds : List NotificationDelivery) (r : Dict NotificationDelivery) (k : ℕ)
      → count (has_id k) ds ≡ 0
      → Dict.get (claim_each uuid4 i lu ds r).0 k ≡ Dict.get r k
  unfolding claim_each count
  get-claim_each i [] r k h = refl
  get-claim_each i (d ∷ ds) r k h =
      let c = record d { locked_until = some lu; lease_token = some (uuid4 i) } in
      ground (arith, get-claim_each (suc i) ds (Dict.put r d.id c) k, get-put r d.id k c)

  -- What is promised of a claimed delivery: it is what was there, with a lock and a token, and it
  -- is what is there now.
  abbrev pub Claimed :
      (NotificationDelivery → Type 0) → Dict NotificationDelivery → NotificationDelivery → Type 0
  Claimed P r' c =
      (d : NotificationDelivery) × (P d)
      × (token : ℕ) × (c ≡ record d { locked_until = some lu; lease_token = some token })
      × (Dict.get r' c.id ≡ some c)

  claim_each-All :
      (P : NotificationDelivery → Type 0) (i : ℕ) (ds : List NotificationDelivery)
      (r : Dict NotificationDelivery)
      → ((k : ℕ) → count (has_id k) ds ≤ 1)
      → All P ds
      → All (Claimed P (claim_each uuid4 i lu ds r).0) (claim_each uuid4 i lu ds r).1
  unfolding claim_each count
  claim_each-All P i [] r h p = tt
  claim_each-All P i (d ∷ ds) r h p =
      let c = record d { locked_until = some lu; lease_token = some (uuid4 i) } in
      (
        (
          d,
          p.0,
          uuid4 i,
          refl,
          get-claim_each (suc i) ds (Dict.put r d.id c) d.id (ground (arith, h d.id))
              ∙ get-put_self r d.id c,
        ),
        claim_each-All P (suc i) ds (Dict.put r d.id c) (λ k. omega (arith, h k)) p.1,
      )

abbrev pub IsWellFormed : Dict NotificationDelivery → Type 0
IsWellFormed r = IsKeyed (λ d. d.id) r

module _ (r : Dict NotificationDelivery) (wf : IsWellFormed r) (ex : List ℕ)
    (max_attempts now : ℕ) where
  abbrev pub Was : NotificationDelivery → Type 0
  Was d = (is_pending ex max_attempts now d ≡ true) × (Dict.get r d.id ≡ some d)

  stored-All : All (λ d. Dict.get r d.id ≡ some d) (values r)
  stored-All =
      values-All (λ d. Dict.get r d.id ≡ some d) (λ d. d.id) r wf
        (λ k v e. ap (Dict.get r) (get-id (λ d. d.id) r wf e) ∙ e)

  pub pending_list-All : (limit : ℕ) → All Was (take limit (pending_list r ex max_attempts now))
  pending_list-All limit = All-take Was limit (pending_list r ex max_attempts now) (
      All-sort attempt_before Was (filter (is_pending ex max_attempts now) (values r)) (
        All-both (λ d. is_pending ex max_attempts now d ≡ true) (λ d. Dict.get r d.id ≡ some d) _
          (All-filter_of (λ d. is_pending ex max_attempts now d ≡ true)
            (is_pending ex max_attempts now) (λ d e. e) (values r))
          (All-filter (λ d. Dict.get r d.id ≡ some d) (is_pending ex max_attempts now) (values r)
            stored-All)))

  count-pending_list-le :
      (limit k : ℕ) → count (has_id k) (take limit (pending_list r ex max_attempts now)) ≤ 1
  count-pending_list-le limit k = omega (
    arith,
    count-take (has_id k) limit (pending_list r ex max_attempts now),
    count-sort attempt_before (has_id k) (filter (is_pending ex max_attempts now) (values r)),
    count-filter (has_id k) (is_pending ex max_attempts now) (values r),
    count-id-le (λ (d : NotificationDelivery). d.id) r k wf,
  )

pub claim_pending-eq-ok :
    (r r' : Dict NotificationDelivery) (limit max_attempts lease : ℕ) (ex : List ℕ) (now : ℕ)
    (uuid4 : ℕ → ℕ) (claims : List NotificationDelivery)
    → claim_pending r limit max_attempts lease ex now uuid4 ≡ ok (r', claims)
    → claim_each uuid4 0 (now + lease) (take limit (pending_list r ex max_attempts now)) r
      ≡ (r', claims)
unfolding claim_pending
claim_pending-eq-ok r r' limit max_attempts lease ex now uuid4 claims h = ground arith

pub claim_each-IsWellFormed :
    (uuid4 : ℕ → ℕ) (i lu : ℕ) (ds : List NotificationDelivery) (r : Dict NotificationDelivery)
    → IsWellFormed r
    → IsWellFormed (claim_each uuid4 i lu ds r).0
unfolding claim_each
claim_each-IsWellFormed uuid4 i lu [] r h = h
claim_each-IsWellFormed uuid4 i lu (d ∷ ds) r h =
    claim_each-IsWellFormed uuid4 (suc i) lu ds _ (put-IsKeyed (λ d. d.id) r _ h)

pub claim_pending-IsWellFormed :
    (r r' : Dict NotificationDelivery) (limit max_attempts lease : ℕ) (ex : List ℕ) (now : ℕ)
    (uuid4 : ℕ → ℕ) (claims : List NotificationDelivery)
    → IsWellFormed r
    → claim_pending r limit max_attempts lease ex now uuid4 ≡ ok (r', claims)
    → IsWellFormed r'
claim_pending-IsWellFormed r r' limit ma lease ex now uuid4 claims wf h =
    subst (λ p. IsWellFormed (p.0)) (claim_pending-eq-ok r r' limit ma lease ex now uuid4 claims h)
      (claim_each-IsWellFormed uuid4 0 (now + lease) (take limit (pending_list r ex ma now)) r wf)

-- Over deliveries stored under their identifiers, each claimed delivery is a stored one that was
-- pending and not excluded, with nothing changed but the lock, which runs for the lease from now,
-- and the token; and it is what is stored after.
pub claim_pending-Claimed :
    (r r' : Dict NotificationDelivery) (limit max_attempts lease : ℕ) (ex : List ℕ) (now : ℕ)
    (uuid4 : ℕ → ℕ) (claims : List NotificationDelivery)
    → IsWellFormed r
    → claim_pending r limit max_attempts lease ex now uuid4 ≡ ok (r', claims)
    → All
        (Claimed uuid4
          (now + lease)
          (λ d. (is_pending ex max_attempts now d ≡ true) × (Dict.get r d.id ≡ some d))
          r')
        claims
claim_pending-Claimed r r' limit ma lease ex now uuid4 claims wf h =
    let e = claim_pending-eq-ok r r' limit ma lease ex now uuid4 claims h in
    subst (λ p. All (Claimed uuid4 (now + lease) (Was r wf ex ma now) (p.0)) (p.1)) e
      (claim_each-All uuid4 (now + lease) (Was r wf ex ma now) 0
        (take limit (pending_list r ex ma now)) r (count-pending_list-le r wf ex ma now limit)
        (pending_list-All r wf ex ma now limit))

claim_each-ids :
    (uuid4 : ℕ → ℕ) (i lu k : ℕ) (ds : List NotificationDelivery) (r : Dict NotificationDelivery)
    → count (has_id k) (claim_each uuid4 i lu ds r).1 ≡ count (has_id k) ds
unfolding claim_each count
claim_each-ids uuid4 i lu k [] r = refl
claim_each-ids uuid4 i lu k (d ∷ ds) r =
    ap (λ n. bit (d.id == k) + n) (claim_each-ids uuid4 (suc i) lu k ds _)

length-claim_each :
    (uuid4 : ℕ → ℕ) (i lu : ℕ) (ds : List NotificationDelivery) (r : Dict NotificationDelivery)
    → length (claim_each uuid4 i lu ds r).1 ≡ length ds
unfolding claim_each
length-claim_each uuid4 i lu [] r = refl
length-claim_each uuid4 i lu (d ∷ ds) r = ap suc (length-claim_each uuid4 (suc i) lu ds _)

-- A batch has no more deliveries than its limit, no delivery twice and none that is excluded.
pub claim_pending-distinct :
    (r r' : Dict NotificationDelivery) (limit max_attempts lease : ℕ) (ex : List ℕ) (now : ℕ)
    (uuid4 : ℕ → ℕ) (claims : List NotificationDelivery)
    → IsWellFormed r
    → claim_pending r limit max_attempts lease ex now uuid4 ≡ ok (r', claims)
    → (length claims ≤ limit)
      × ((k : ℕ) → count (has_id k) claims ≤ 1)
      × All (λ c. mem c.id ex ≡ false) claims
unfolding is_pending
claim_pending-distinct r r' limit ma lease ex now uuid4 claims wf h =
    let e = claim_pending-eq-ok r r' limit ma lease ex now uuid4 claims h in
    let ds = take limit (pending_list r ex ma now) in
    (
      omega (
        arith,
        ap (λ p. length (p.1)) e,
        length-claim_each uuid4 0 (now + lease) ds r,
        length-take-le limit (pending_list r ex ma now),
      ),
      (λ k. omega (
        arith,
        ap (λ p. count (has_id k) (p.1)) e,
        claim_each-ids uuid4 0 (now + lease) k ds r,
        count-pending_list-le r wf ex ma now limit k,
      )),
      All-imp (λ c was. ground (arith, was.3, was.1)) claims
          (claim_pending-Claimed r r' limit ma lease ex now uuid4 claims wf h),
    )
