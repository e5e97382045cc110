-- ===== src/Notifications/Service/Fanout.antt =====
-- About `fan_out` of src/uptime_platform/notifications/service.py.
use uptime_platform.Base.{
  ℕ, ◌+◌, ◌≤◌, ◌≡◌, refl, ap, true, false, none, List, [], ◌∷◌, arith, Bool, ◌&&◌, ◌==◌, any, count,
  All, All-imp, Bool-cases, inl, inr,
}
use uptime_platform.Base.Dict
use uptime_platform.Base.Dict.{Dict, values, tally, count-put, get-put}
use uptime_platform.Outbox.{OutboxEvent}
use uptime_platform.Notifications.Entities.{NotificationDelivery, NotificationDestination}
use uptime_platform.Notifications.Destinations
use uptime_platform.Notifications.Deliveries.{create_if_missing, for_pair}
use uptime_platform.Notifications.Service.{FanoutStore, new_delivery, create_each, drawn, fan_out}

-- The delivery is the event's for the destination.
abbrev pub of_pair : (event_id destination_id : ℕ) → NotificationDelivery → Bool
of_pair event_id destination_id d = d.event_id == event_id && d.destination_id == destination_id

abbrev pub pair_count : Dict NotificationDelivery → (event_id destination_id : ℕ) → ℕ
pair_count r event_id destination_id = count (of_pair event_id destination_id) (values r)

-- No event has two deliveries for one destination.
abbrev pub IsUnique : Dict NotificationDelivery → Type 0
IsUnique r = (event_id destination_id : ℕ) → pair_count r event_id destination_id ≤ 1

any-count : {A : Type 0} (p : A → Bool) (xs : List A) → any p xs ≡ false → count p xs ≡ 0
unfolding any count
any-count p [] h = refl
any-count p (x ∷ xs) h = ground (arith, any-count p xs)

count-any : {A : Type 0} (p : A → Bool) (xs : List A) → any p xs ≡ true → 1 ≤ count p xs
unfolding any count
count-any p [] h = ground arith
count-any p (x ∷ xs) h = ground (arith, count-any p xs)

any_of_count : {A : Type 0} (p : A → Bool) (xs : List A) → 1 ≤ count p xs → any p xs ≡ true
unfolding any count
any_of_count p [] h = ground arith
any_of_count p (x ∷ xs) h = ground (arith, any_of_count p xs)

create_if_missing-IsUnique :
    (r : Dict NotificationDelivery) (d : NotificationDelivery)
    → IsUnique r
    → IsUnique (create_if_missing r d).0
unfolding create_if_missing
create_if_missing-IsUnique r d h e k = elim (Bool-cases (any (for_pair d) (values r))) [
  | inl t ↦ rw t (h e k)
  | inr f ↦
      rw f (
        ground
          (arith, h e k, any-count (for_pair d) (values r) f, count-put (of_pair e k) r d.id d))
]

-- A new delivery under an unused identifier takes nothing away, and afterwards its pair is there.
create_if_missing-count :
    (r : Dict NotificationDelivery) (d : NotificationDelivery)
    → Dict.get r d.id ≡ none
    → ((e k : ℕ) → pair_count r e k ≤ pair_count (create_if_missing r d).0 e k)
      × (1 ≤ pair_count (create_if_missing r d).0 d.event_id d.destination_id)
unfolding create_if_missing
create_if_missing-count r d fresh = elim (Bool-cases (any (for_pair d) (values r))) [
  | inl t ↦ rw t ((λ e k. omega arith), count-any (for_pair d) (values r) t)
  | inr f ↦ rw f (
    (λ e k. ground (arith, count-put (of_pair e k) r d.id d)),
    ground (arith, count-put (of_pair d.event_id d.destination_id) r d.id d),
  )
]

-- The identifiers that a call draws are not in use, and no two are the same.
pub record IsFresh (uuid4 : ℕ → ℕ) (i : ℕ) (r : Dict NotificationDelivery) : Type 0 where
  pub unused : (j : ℕ) → i ≤ j → Dict.get r (uuid4 j) ≡ none
  pub distinct : (j k : ℕ) → uuid4 j ≡ uuid4 k → j ≡ k

module _ (event_id now : ℕ) (uuid4 : ℕ → ℕ) where
  abbrev made :
      ℕ → List NotificationDestination → Dict NotificationDelivery → Dict NotificationDelivery
  made i ds r = (create_each event_id now (drawn uuid4 i ds) r).0

  create_if_missing-IsFresh :
      (i : ℕ) (d : NotificationDestination) (r : Dict NotificationDelivery)
      → IsFresh uuid4 i r
      → IsFresh uuid4 (i + 1) (create_if_missing r (new_delivery event_id now d (uuid4 i))).0
  unfolding create_if_missing
  create_if_missing-IsFresh i d r h =
      let delivery = new_delivery event_id now d (uuid4 i) in
      elim (Bool-cases (any (for_pair delivery) (values r))) [
        | inl t ↦
            rw t (record { unused = λ j le. h.unused j (omega (arith, le)); distinct = h.distinct })
        | inr f ↦ rw f (record {
          unused = λ j le. ground (
            arith,
            get-put r (uuid4 i) (uuid4 j) delivery,
            h.unused j (omega (arith, le)),
            h.distinct i j,
          );
          distinct = h.distinct;
        })
      ]

  create_each-IsUnique :
      (i : ℕ) (ds : List NotificationDestination) (r : Dict NotificationDelivery)
      → IsUnique r
      → IsUnique (made i ds r)
  unfolding create_each drawn
  create_each-IsUnique i [] r h = h
  create_each-IsUnique i (d ∷ ds) r h =
      create_each-IsUnique (i + 1) ds _ (create_if_missing-IsUnique r _ h)

  create_each-le :
      (i : ℕ) (ds : List NotificationDestination) (r : Dict NotificationDelivery)
      → IsFresh uuid4 i r
      → (e k : ℕ) → pair_count r e k ≤ pair_count (made i ds r) e k
  unfolding create_each drawn
  create_each-le i [] r h e k = omega arith
  create_each-le i (d ∷ ds) r h e k = omega (
    arith,
    (create_if_missing-count r (new_delivery event_id now d (uuid4 i)) (h.unused i (omega arith))).0
        e k,
    create_each-le (i + 1) ds _ (create_if_missing-IsFresh i d r h) e k,
  )

  create_each-All :
      (i : ℕ) (ds : List NotificationDestination) (r : Dict NotificationDelivery)
      → IsFresh uuid4 i r
      → All (λ d. 1 ≤ pair_count (made i ds r) event_id d.id) ds
  unfolding create_each drawn
  create_each-All i [] r h = tt
  create_each-All i (d ∷ ds) r h = (
    omega (
      arith,
      (create_if_missing-count r (new_delivery event_id now d (uuid4 i))
          (h.unused i (omega arith))).1,
      create_each-le (i + 1) ds _ (create_if_missing-IsFresh i d r h) event_id d.id,
    ),
    create_each-All (i + 1) ds _ (create_if_missing-IsFresh i d r h),
  )

  -- Where every destination has its delivery, the loop creates nothing.
  create_each-idle :
      (i : ℕ) (ds : List NotificationDestination) (r : Dict NotificationDelivery)
      → All (λ d. 1 ≤ pair_count r event_id d.id) ds
      → create_each event_id now (drawn uuid4 i ds) r ≡ (r, [])
  unfolding create_each drawn create_if_missing
  create_each-idle i [] r h = refl
  create_each-idle i (d ∷ ds) r h =
      rw
        (any_of_count (of_pair event_id d.id) (values r) (h.0), create_each-idle (i + 1) ds r (h.1))
        refl

module _ {Payload : Type 0} (s : FanoutStore Payload) (event : OutboxEvent Payload) (now : ℕ)
    (uuid4 : ℕ → ℕ) where
  abbrev enabled : List NotificationDestination
  enabled = Destinations.get_enabled s.destinations event.organization_id

  -- After an event is fanned out over deliveries without a double, under unused and distinct
  -- identifiers, each enabled destination of its organization has exactly one delivery of the
  -- event, and there is still no double.
  pub fan_out-once :
      IsUnique s.deliveries
      → IsFresh uuid4 0 s.deliveries
      → All (λ d. pair_count (fan_out s event now uuid4).0.deliveries event.id d.id ≡ 1) enabled
        × IsUnique (fan_out s event now uuid4).0.deliveries
  unfolding fan_out
  fan_out-once u f =
      let unique = create_each-IsUnique event.id now uuid4 0 enabled s.deliveries u in
      (
        All-imp (λ d h. omega (arith, h, unique event.id d.id)) enabled
            (create_each-All event.id now uuid4 0 enabled s.deliveries f),
        unique,
      )

  -- After an event was fanned out under unused and distinct identifiers, fanning it out again, at
  -- any instant, creates nothing and leaves the deliveries as they are.
  pub fan_out_again :
      (now' : ℕ) (uuid4' : ℕ → ℕ)
      → IsFresh uuid4 0 s.deliveries
      → ((fan_out (fan_out s event now uuid4).0 event now' uuid4').0.deliveries
          ≡ (fan_out s event now uuid4).0.deliveries)
        × ((fan_out (fan_out s event now uuid4).0 event now' uuid4').1 ≡ [])
  unfolding fan_out
  fan_out_again now' uuid4' f =
      let idle =
        create_each-idle event.id now' uuid4' 0 enabled (fan_out s event now uuid4).0.deliveries
          (create_each-All event.id now uuid4 0 enabled s.deliveries f) in
      (ap (λ p. p.0) idle, ap (λ p. p.1) idle)
