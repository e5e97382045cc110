-- ===== src/Notifications/Sql/Refines.antt =====
-- About SqlAlchemyNotificationDeliveryRepository of
-- src/uptime_platform/notifications/sqlalchemy_repository.py as an implementation of the protocol
-- that the in-memory repository implements.
use mathlib.Core.Path.{subst}
use uptime_platform.Base.{
  ℕ, ◌≡◌, refl, sym, ap, ◌∙◌, Bool, true, false, not, ◌&&◌, Option, none, some, List, [], ◌∷◌,
  arith, if◌then◌else◌, Bool-cases, inl, inr, is_none, is_key, any, All,
}
use uptime_platform.Base.Session.{Session, IsSession, where_row}
use uptime_platform.Base.Dict
use uptime_platform.Base.Dict.{Dict, values, get-put, get-id, values-All}
use uptime_platform.Notifications.Entities.{NotificationDelivery}
use uptime_platform.Notifications.Deliveries
use uptime_platform.Notifications.Deliveries.Leases.{IsWellFormed}
use uptime_platform.Notifications.Sql
use uptime_platform.Notifications.Sql.{
  NotificationDeliveryModel, is_empty, remaining, refused, assigned, updated, released, same_pair,
}

-- An update keeps the event, the destination and the creation of what is stored.
abbrev pub SameOrigin : NotificationDelivery → Option NotificationDelivery → Type 0
SameOrigin d none = Unit
SameOrigin d (some m) =
    (m.event_id ≡ d.event_id)
    × (m.destination_id ≡ d.destination_id)
    × (m.created_at ≡ d.created_at)

assigned-clean :
    (m d : NotificationDelivery)
    → m.id ≡ d.id
    → m.event_id ≡ d.event_id
    → m.destination_id ≡ d.destination_id
    → m.created_at ≡ d.created_at
    → assigned m d ≡ record d { locked_until = none; lease_token = none }
assigned-clean m d i e t c = ground arith

module _ {Db : Type 0} (session : Session NotificationDeliveryModel Db)
    (laws : IsSession (λ d. d.id) session) where
  -- The table has just the deliveries of the repository.
  abbrev pub Refines : Db → Dict NotificationDelivery → Type 0
  Refines db r = (k : ℕ) → session.get db k ≡ Dict.get r k

  pub save-Refines :
      (db : Db) (r : Dict NotificationDelivery) (k : ℕ) (d : NotificationDelivery)
      → d.id ≡ k
      → Refines db r
      → Refines (session.save db d) (Dict.put r k d)
  save-Refines db r k d e related j =
      ground (arith, laws.get-save db d j, get-put r k j d, related j)

  one-get :
      (db : Db) (r : Dict NotificationDelivery) (k : ℕ) (p : NotificationDelivery → Bool)
      → Refines db r
      → session.one db k p ≡ where_row p (Dict.get r k)
  one-get db r k p related = laws.one-get db k p ∙ ap (where_row p) (related k)

  -- The same answer, and the table still has the deliveries.
  abbrev pub Same : {A : Type 0} → Db × A → Dict NotificationDelivery × A → Type 0
  Same p q = (p.1 ≡ q.1) × Refines p.0 q.0

  module _ (db : Db) (r : Dict NotificationDelivery) (wf : IsWellFormed r)
      (related : Refines db r) where
    remaining-answer :
        (k token now : ℕ)
        → Sql.remaining_lease_seconds session db k token now
          ≡ Deliveries.remaining_lease_seconds r k token now
    unfolding Sql.remaining_lease_seconds Deliveries.remaining_lease_seconds
    remaining-answer k token now =
        ap (λ o. remaining o now)
          (one-get db r k (λ d. is_key d.lease_token token && is_none d.processed_at) related)
        ∙ remaining-row (Dict.get r k)
      where
        remaining-row :
            (o : Option NotificationDelivery)
            → remaining
                (where_row (λ d. is_key d.lease_token token && is_none d.processed_at) o)
                now
              ≡ Deliveries.remaining_of o token now
        remaining-row none = refl
        remaining-row (some d) = ground arith

    released-Same :
        (k token : ℕ) (o : Option NotificationDelivery)
        → Dict.get r k ≡ o
        → Same
            (released session db (where_row (λ d. is_key d.lease_token token) o))
            (Deliveries.released r k o token)
    released-Same k token none held = (refl, related)
    released-Same k token (some d) held = elim (Bool-cases (is_key d.lease_token token)) [
      | inr e ↦ rw e (refl, related)
      | inl e ↦ rw e (
        refl,
        save-Refines db r k (record d { locked_until = none; lease_token = none })
            (get-id (λ d. d.id) r wf held) related,
      )
    ]

    release-Same :
        (k token : ℕ)
        → Same (Sql.release_lock session db k token) (Deliveries.release_lock r k token)
    unfolding Sql.release_lock Deliveries.release_lock
    release-Same k token =
        subst (λ o. Same (released session db o) (Deliveries.released r k (Dict.get r k) token))
          (sym (one-get db r k (λ d. is_key d.lease_token token) related))
          (released-Same k token (Dict.get r k) refl)

    refused-remaining :
        (d : NotificationDelivery) (token now : ℕ)
        → refused d token now ≡ is_none (Deliveries.remaining_of (some d) token now)
    refused-remaining d token now = ground arith

    -- The write of an update, by what is stored.
    abbrev stored_update :
        Option NotificationDelivery
        → NotificationDelivery
        → (token now : ℕ) → Dict NotificationDelivery × Option NotificationDelivery
    stored_update o d token now =
        if is_none (Deliveries.remaining_of o token now)
        then (r, none)
        else (let clean = record d { locked_until = none; lease_token = none } in
            (Dict.put r d.id clean, some clean))

    updated-Same :
        (d : NotificationDelivery) (token now : ℕ) (o : Option NotificationDelivery)
        → Dict.get r d.id ≡ o
        → SameOrigin d o
        → Same
            (updated session db (where_row (λ m. true) o) d token now)
            (stored_update o d token now)
    updated-Same d token now none held origin = (refl, related)
    updated-Same d token now (some m) held (event, destination, time) =
        elim (Bool-cases (refused m token now)) [
          | inl e ↦ rw (e, sym (refused-remaining m token now) ∙ e) (refl, related)
          | inr e ↦
              let same = assigned-clean m d (get-id (λ d. d.id) r wf held) event destination time in
              rw (e, sym (refused-remaining m token now) ∙ e)
                (
                  ap some same,
                  subst
                      (λ x.
                        Refines (session.save db x)
                          (Dict.put r d.id (record d { locked_until = none; lease_token = none })))
                      (sym same)
                      (save-Refines db r d.id (record d { locked_until = none; lease_token = none })
                        refl related),
                )
        ]

    update-Same :
        (d : NotificationDelivery) (token now : ℕ)
        → SameOrigin d (Dict.get r d.id)
        → Same (Sql.update session db d token now) (Deliveries.update r d token now)
    unfolding Sql.update Deliveries.update Deliveries.remaining_lease_seconds
    update-Same d token now origin =
        subst
          (λ o.
            Same (updated session db o d token now) (stored_update (Dict.get r d.id) d token now))
          (sym (one-get db r d.id (λ m. true) related))
          (updated-Same d token now (Dict.get r d.id) refl origin)

  get-any :
      (p : NotificationDelivery → Bool) (r : Dict NotificationDelivery) (k : ℕ)
      (d : NotificationDelivery)
      → Dict.get r k ≡ some d
      → p d ≡ true
      → any p (values r) ≡ true
  unfolding Dict.get any
  get-any p [] k d held passes = cc
  get-any p ((j, m) ∷ r) k d held passes = ground (arith, get-any p r k d)

  none-any :
      (p : NotificationDelivery → Bool) (xs : List NotificationDelivery)
      → All (λ d. p d ≡ false) xs
      → any p xs ≡ false
  unfolding any
  none-any p [] h = refl
  none-any p (x ∷ xs) (h, hs) = ground (arith, h, none-any p xs hs)

  select-any :
      (db : Db) (r : Dict NotificationDelivery) (p : NotificationDelivery → Bool)
      (before : NotificationDelivery → NotificationDelivery → Bool)
      → IsWellFormed r
      → Refines db r
      → is_empty (session.select db p before none) ≡ not (any p (values r))
  select-any db r p before wf related =
      of_rows (session.select db p before none) refl (laws.select-All db p before none)
    where
      of_rows :
          (rows : List NotificationDelivery)
          → session.select db p before none ≡ rows
          → All (λ d. (p d ≡ true) × (session.get db d.id ≡ some d)) rows
          → is_empty rows ≡ not (any p (values r))
      of_rows [] e h = sym (
          ap not (
            none-any p (values r) (
              values-All (λ d. p d ≡ false) (λ d. d.id) r wf
                (λ k d held. laws.select-none db p before k d e (related k ∙ held)))))
      of_rows (d ∷ rows) e ((passes, held), h) =
          sym (ap not (get-any p r d.id d (sym (related d.id) ∙ held) passes))

  create-Same :
      (db : Db) (r : Dict NotificationDelivery) (d : NotificationDelivery)
      → IsWellFormed r
      → Refines db r
      → Same (Sql.create_if_missing session db d) (Deliveries.create_if_missing r d)
  unfolding Sql.create_if_missing Deliveries.create_if_missing
  create-Same db r d wf related =
      let empty = select-any db r (same_pair d) (λ m n. true) wf related in
      elim (Bool-cases (any (same_pair d) (values r))) [
        | inl e ↦ rw (empty, e) (refl, related)
        | inr e ↦ rw (empty, e) (refl, save-Refines db r d.id d refl related)
      ]

  -- For a table that has just the deliveries of an in-memory repository, in which each delivery is
  -- under its id: the remaining time of a lease is the same; an update with a delivery that has the
  -- event, the destination and the creation of the one that is stored under its id, if any, a
  -- release of a lease and a creation, if the event and the destination have none yet, of a delivery
  -- whose id is unused give the same answers and leave the table and the repository with the same
  -- deliveries. The session does what its laws say.
  pub delivery_calls-Refines :
      (db : Db) (r : Dict NotificationDelivery) (d fresh : NotificationDelivery) (k token now : ℕ)
      → IsWellFormed r
      → Refines db r
      → SameOrigin d (Dict.get r d.id)
      → Dict.get r fresh.id ≡ none
      → (Sql.remaining_lease_seconds session db k token now
          ≡ Deliveries.remaining_lease_seconds r k token now)
        × Same (Sql.update session db d token now) (Deliveries.update r d token now)
        × Same (Sql.release_lock session db k token) (Deliveries.release_lock r k token)
        × Same (Sql.create_if_missing session db fresh) (Deliveries.create_if_missing r fresh)
  delivery_calls-Refines db r d fresh k token now wf related origin unused = (
    remaining-answer db r wf related k token now,
    update-Same db r wf related d token now origin,
    release-Same db r wf related k token,
    create-Same db r fresh wf related,
  )
