-- ===== src/Notifications/Deliveries/Processed.antt =====
-- About deliveries that are processed, in
-- src/uptime_platform/notifications/in_memory_repository.py.
use mathlib.Core.Path.{subst}
use uptime_platform.Base.{
  some_inj, All-imp, ℕ, suc, ◌+◌, ◌≡◌, ◌≢◌, ◌⊎◌, refl, ap, ◌∙◌, sym, false, some, none, List, [],
  ◌∷◌, arith, take, All, is_none, is_key, Option-cases, Bool-cases, inl, inr, any,
}
use uptime_platform.Base.Result.{ok}
use uptime_platform.Base.Dict
use uptime_platform.Base.Dict.{Dict, values, IsKeyed, get-put, put-IsKeyed, get-id}
use uptime_platform.Notifications.Entities.{NotificationDelivery}
use uptime_platform.Notifications.Deliveries.{
  is_pending, claim_each, pending_list, claim_pending, update, release_lock, create_if_missing,
  for_pair, remaining_lease_seconds,
}
use uptime_platform.Notifications.Deliveries.Leases.{
  IsWellFormed, claim_pending-IsWellFormed, Was, pending_list-All, claim_pending-eq-ok,
}

-- One call on the repository, by any worker with any arguments; the identifier of a new delivery
-- is not in use.
pub data Step (r : Dict NotificationDelivery) : Dict NotificationDelivery → Type 0 where
  claimed :
      (limit max_attempts lease : ℕ) (exclude_ids : List ℕ) (now : ℕ) (uuid4 : ℕ → ℕ)
      (r' : Dict NotificationDelivery) (claims : List NotificationDelivery)
      → claim_pending r limit max_attempts lease exclude_ids now uuid4 ≡ ok (r', claims)
      → Step r r'
  updated : (d : NotificationDelivery) (lease_token now : ℕ) → Step r (update r d lease_token now).0
  lock_released : (delivery_id lease_token : ℕ) → Step r (release_lock r delivery_id lease_token).0
  created : (d : NotificationDelivery) → Dict.get r d.id ≡ none → Step r (create_if_missing r d).0

pub data Reach (r : Dict NotificationDelivery) : Dict NotificationDelivery → Type 0 where
  here : Reach r r
  next : {r' r'' : Dict NotificationDelivery} → Reach r r' → Step r' r'' → Reach r r''

-- The repository has `d` under `k`, processed and without a lease, and each delivery under its id.
pub record IsSettled (k : ℕ) (d : NotificationDelivery) (r : Dict NotificationDelivery)
    : Type 0 where
  pub keyed : IsWellFormed r
  pub stored : Dict.get r k ≡ some d
  pub processed : is_none d.processed_at ≡ false
  pub unleased : d.lease_token ≡ none

module _ (k : ℕ) (d : NotificationDelivery) where
  claim_each-kept :
      (uuid4 : ℕ → ℕ) (i lu : ℕ) (ds : List NotificationDelivery) (r : Dict NotificationDelivery)
      → All (λ c. c.id ≢ k) ds
      → Dict.get r k ≡ some d
      → Dict.get (claim_each uuid4 i lu ds r).0 k ≡ some d
  unfolding claim_each
  claim_each-kept uuid4 i lu [] r h e = e
  claim_each-kept uuid4 i lu (c ∷ cs) r h e =
      let c' = record c { locked_until = some lu; lease_token = some (uuid4 i) } in
      claim_each-kept uuid4 (suc i) lu cs _ (h.1) (ground (arith, get-put r c.id k c', h.0))

  module _ (r : Dict NotificationDelivery) (inv : IsSettled k d r) where
    stored_at : {c : NotificationDelivery} → Dict.get r c.id ≡ some c → c.id ≡ k → c ≡ d
    stored_at {c} e same = some_inj (sym e ∙ ap (Dict.get r) same ∙ inv.stored)

    pending_ne :
        (ex : List ℕ) (max_attempts now : ℕ) (c : NotificationDelivery)
        → Was r inv.keyed ex max_attempts now c
        → c.id ≢ k
    unfolding is_pending
    pending_ne ex max_attempts now c was same =
        ground (arith, stored_at {c = c} (was.1) same, was.0, inv.processed)

    claimed-IsSettled :
        (limit max_attempts lease : ℕ) (ex : List ℕ) (now : ℕ) (uuid4 : ℕ → ℕ)
        (r' : Dict NotificationDelivery) (claims : List NotificationDelivery)
        → claim_pending r limit max_attempts lease ex now uuid4 ≡ ok (r', claims)
        → IsSettled k d r'
    claimed-IsSettled limit ma lease ex now uuid4 r' claims h =
        let ds = take limit (pending_list r ex ma now) in
        let e = claim_pending-eq-ok r r' limit ma lease ex now uuid4 claims h in
        record {
          keyed = claim_pending-IsWellFormed r r' limit ma lease ex now uuid4 claims inv.keyed h;
          stored =
              subst (λ p. Dict.get (p.0) k ≡ some d) e
                (claim_each-kept uuid4 0 (now + lease) ds r
                  (All-imp (pending_ne ex ma now) ds (pending_list-All r inv.keyed ex ma now limit))
                  inv.stored);
          processed = inv.processed;
          unleased = inv.unleased;
        }

    put_elsewhere : (c : NotificationDelivery) → c.id ≢ k → IsSettled k d (Dict.put r c.id c)
    put_elsewhere c ne = record {
      keyed = put-IsKeyed (λ d. d.id) r c inv.keyed;
      stored = ground (arith, get-put r c.id k c, inv.stored, ne);
      processed = inv.processed;
      unleased = inv.unleased;
    }

    not_leased :
        (j lease_token now : ℕ)
        → is_none (remaining_lease_seconds r j lease_token now) ≡ false
        → j ≢ k
    unfolding remaining_lease_seconds
    not_leased j lease_token now h same = ground (arith, inv.stored, inv.unleased)

    updated-IsSettled :
        (c : NotificationDelivery) (lease_token now : ℕ)
        → IsSettled k d (update r c lease_token now).0
    unfolding update
    updated-IsSettled c lease_token now =
        elim (Bool-cases (is_none (remaining_lease_seconds r c.id lease_token now))) [
          | inl e ↦ rw e inv
          | inr e ↦ rw e (
              put_elsewhere (record c { locked_until = none; lease_token = none })
                (not_leased c.id lease_token now e))
        ]

    release_lock-cases :
        (j lease_token : ℕ)
        → ((release_lock r j lease_token).0 ≡ r)
          ⊎ ((c : NotificationDelivery) × (c.id ≡ j)
              × (j ≢ k)
              × ((release_lock r j lease_token).0 ≡ Dict.put r j c))
    unfolding release_lock
    release_lock-cases j lease_token = elim (Option-cases (Dict.get r j)) [
      | inl e ↦ rw e (inl refl)
      | inr (c, e) ↦ elim (Bool-cases (is_key c.lease_token lease_token)) [
        | inl t ↦ inr (
          record c { locked_until = none; lease_token = none },
          get-id (λ d. d.id) r inv.keyed e,
          (λ same. ground (arith, inv.stored, inv.unleased)),
          rw (e, t) refl,
        )
        | inr f ↦ rw (e, f) (inl refl)
      ]
    ]

    released-IsSettled : (j lease_token : ℕ) → IsSettled k d (release_lock r j lease_token).0
    released-IsSettled j lease_token = elim (release_lock-cases j lease_token) [
      | inl e ↦ rw e inv
      | inr (c, named, ne, e) ↦ rw (e, ← named) (put_elsewhere c (λ same. ne (sym named ∙ same)))
    ]

    created-IsSettled :
        (c : NotificationDelivery)
        → Dict.get r c.id ≡ none
        → IsSettled k d (create_if_missing r c).0
    unfolding create_if_missing
    created-IsSettled c fresh = elim (Bool-cases (any (for_pair c) (values r))) [
      | inl e ↦ rw e inv
      | inr e ↦ rw e (put_elsewhere c (λ same. ground (arith, inv.stored)))
    ]

Step-IsSettled :
    (k : ℕ) (d : NotificationDelivery) {r r' : Dict NotificationDelivery}
    → Step r r'
    → IsSettled k d r
    → IsSettled k d r'
Step-IsSettled k d {r} (claimed l m g ex now u r' cs h) inv =
    claimed-IsSettled k d r inv l m g ex now u r' cs h
Step-IsSettled k d {r} (updated c t now) inv = updated-IsSettled k d r inv c t now
Step-IsSettled k d {r} (lock_released j t) inv = released-IsSettled k d r inv j t
Step-IsSettled k d {r} (created c fresh) inv = created-IsSettled k d r inv c fresh

-- Over deliveries stored under their identifiers: whatever calls follow, in any order and by any
-- workers, claims, updates with stale results, releases and new deliveries under unused
-- identifiers, a delivery that is stored as processed and without a lease stays stored as it is.
pub Reach-IsSettled :
    (k : ℕ) (d : NotificationDelivery) {r r' : Dict NotificationDelivery}
    → Reach r r'
    → IsSettled k d r
    → IsSettled k d r'
Reach-IsSettled k d here inv = inv
Reach-IsSettled k d (next reach step) inv = Step-IsSettled k d step (Reach-IsSettled k d reach inv)
