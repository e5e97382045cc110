-- ===== src/Retention/Kept.antt =====
-- About what src/uptime_platform/retention/repository.py deletes and keeps.
use uptime_platform.Base.{
  ℕ, ◌-◌, ◌≤◌, ◌≡◌, refl, sym, ap, ◌∙◌, Bool, true, false, not, ◌&&◌, Option, none, some, some_inj,
  List, [], ◌∷◌, arith, ◌==◌, ==_iff, ==_self, if◌then◌else◌, is_none, any, All, Bool-cases, inl,
  inr,
}
use uptime_platform.Base.Time.{days}
use uptime_platform.Base.Session.{Session, IsSession, where_row}
use uptime_platform.Outbox.{OutboxEvent}
use uptime_platform.Notifications.Entities.{NotificationDelivery}
use uptime_platform.Retention.{
  Settings, Sessions, Tables, expired, earlier, remove_each, candidates, delete_batch, cleanup,
  is_resolved, is_empty, delivery_conditions, event_conditions,
}

any-All :
    {A : Type 0} (P : A → Type 0) (q : A → Bool) (xs : List A)
    → All P xs
    → any q xs ≡ true
    → (x : A) × P x × (q x ≡ true)
unfolding any
any-All P q [] h e = cc
any-All P q (x ∷ xs) h e = elim (Bool-cases (q x)) [
  | inl t ↦ (x, h.0, t)
  | inr f ↦ any-All P q xs (h.1) (rw f at e)
]

not_empty : {A : Type 0} (xs : List A) → (xs ≡ [] → ⊥) → is_empty xs ≡ false
not_empty [] h = absurd (h refl)
not_empty (x ∷ xs) h = refl

and_false : (a b : Bool) → b ≡ false → (a && b) ≡ false
and_false true b h = h
and_false false b h = refl

not_both : {b : Bool} → b ≡ true → b ≡ false → ⊥
not_both h k = cc

module _ {Row Db : Type 0} (session : Session Row Db) (id : Row → ℕ)
    (laws : IsSession id session) where
  get-remove_each :
      (rows : List Row) (db : Db) (k : ℕ)
      → session.get (remove_each session id rows db) k
        ≡ (if any (λ row. id row == k) rows then none else session.get db k)
  unfolding remove_each any
  get-remove_each [] db k = refl
  get-remove_each (row ∷ rows) db k =
      ground
        (arith, get-remove_each rows (session.remove db (id row)) k, laws.get-remove db (id row) k)

  module _ (db : Db) (timestamp : Row → Option ℕ) (cutoff limit : ℕ) (conditions : Row → Bool) where
    -- A batch deletes only rows that have expired and meet the conditions.
    pub delete_batch-kept :
        (k : ℕ) (row : Row)
        → session.get db k ≡ some row
        → (expired (timestamp row) cutoff && conditions row) ≡ false
        → session.get (delete_batch session id db timestamp cutoff limit conditions).0 k ≡ some row
    unfolding delete_batch
    delete_batch-kept k row held e =
        let rows = candidates session id db timestamp cutoff limit conditions in
        elim (Bool-cases (any (λ x. id x == k) rows)) [
          | inr f ↦
              get-remove_each rows db k ∙ ap (λ b. if b then none else session.get db k) f ∙ held
          | inl t ↦
              let (x, (passes, stored), same) =
                any-All
                  (λ x.
                    ((expired (timestamp x) cutoff && conditions x) ≡ true)
                    × (session.get db (id x) ≡ some x))
                  (λ x. id x == k) rows
                  (laws.select-All db (λ x. expired (timestamp x) cutoff && conditions x)
                    (λ x y. earlier (timestamp x) (timestamp y)) (some limit))
                  t in
              let row_eq =
                some_inj (sym stored ∙ ap (session.get db) ((==_iff (id x) k).0 same) ∙ held) in
              absurd (
                not_both passes (ap (λ y. expired (timestamp y) cutoff && conditions y) row_eq ∙ e))
        ]

    pub delete_batch-size : (delete_batch session id db timestamp cutoff limit conditions).1 ≤ limit
    unfolding delete_batch
    delete_batch-size =
        laws.select-Within db (λ x. expired (timestamp x) cutoff && conditions x)
          (λ x y. earlier (timestamp x) (timestamp y)) (some limit)

    -- What is there after a batch was there before.
    pub delete_batch-was :
        (k : ℕ) (row : Row)
        → session.get (delete_batch session id db timestamp cutoff limit conditions).0 k ≡ some row
        → session.get db k ≡ some row
    unfolding delete_batch
    delete_batch-was k row h =
        ground
          (arith, get-remove_each (candidates session id db timestamp cutoff limit conditions) db k)

module _ {Payload C I D E : Type 0} (sessions : Sessions Payload C I D E)
    (on_deliveries : IsSession (λ d. d.id) sessions.deliveries)
    (on_events : IsSession (λ e. e.id) sessions.events) (settings : Settings) (now : ℕ)
    (t : Tables C I D E) where
  abbrev cutoff : ℕ
  cutoff = now - days settings.retention_notifications_days

  pub cleanup-kept :
      (k : ℕ) (d : NotificationDelivery)
      → sessions.deliveries.get t.deliveries k ≡ some d
      → (expired d.processed_at cutoff
          && is_none d.lease_token
          && not (
              is_none (
                where_row
                  (λ e. not (is_none e.processed_at))
                  (sessions.events.get t.events d.event_id))))
        ≡ false
      → sessions.deliveries.get (cleanup sessions settings now t).0.deliveries k ≡ some d
  unfolding cleanup
  cleanup-kept k d held e =
      delete_batch-kept sessions.deliveries (λ d. d.id) on_deliveries t.deliveries
        (λ d. d.processed_at) cutoff settings.retention_batch_size
        (delivery_conditions sessions t.events) k d held
        (ground (arith, on_events.one-get t.events d.event_id (λ e. not (is_none e.processed_at))))

  abbrev selection : D → OutboxEvent Payload → List NotificationDelivery
  selection deliveries event =
      sessions.deliveries.select deliveries (λ x. x.event_id == event.id) (λ x y. true) none

  -- A cleanup takes no event from a delivery that it leaves. The sessions do what their laws say.
  pub cleanup-events :
      (k : ℕ) (d : NotificationDelivery) (event : OutboxEvent Payload)
      → sessions.deliveries.get (cleanup sessions settings now t).0.deliveries k ≡ some d
      → sessions.events.get t.events d.event_id ≡ some event
      → sessions.events.get (cleanup sessions settings now t).0.events d.event_id ≡ some event
  unfolding cleanup
  cleanup-events k d event left held =
      let (deliveries, _) =
        delete_batch sessions.deliveries (λ d. d.id) t.deliveries (λ d. d.processed_at) cutoff
          settings.retention_batch_size (delivery_conditions sessions t.events) in
      delete_batch-kept sessions.events (λ e. e.id) on_events t.events (λ e. e.processed_at) cutoff
        settings.retention_batch_size (event_conditions sessions deliveries) d.event_id event held
        (and_false (expired event.processed_at cutoff) (event_conditions sessions deliveries event)
          (not_empty (selection deliveries event) (λ none_left.
            not_both
              (ap (λ j. j == event.id) (sym (on_events.get-id t.events d.event_id event held))
                ∙ ==_self event.id)
              (on_deliveries.select-none deliveries (λ x. x.event_id == event.id) (λ x y. true) k d
                none_left left))))

-- A cleanup deletes at most a batch from each table.
pub cleanup-le :
    {Payload C I D E : Type 0} (sessions : Sessions Payload C I D E) (settings : Settings) (now : ℕ)
    (t : Tables C I D E)
    → IsSession (λ c. c.id) sessions.checks
    → IsSession (λ i. i.id) sessions.incidents
    → IsSession (λ d. d.id) sessions.deliveries
    → IsSession (λ e. e.id) sessions.events
    → ((cleanup sessions settings now t).1.checks ≤ settings.retention_batch_size)
      × ((cleanup sessions settings now t).1.incidents ≤ settings.retention_batch_size)
      × ((cleanup sessions settings now t).1.deliveries ≤ settings.retention_batch_size)
      × ((cleanup sessions settings now t).1.events ≤ settings.retention_batch_size)
unfolding cleanup
cleanup-le sessions settings now t on_checks on_incidents on_deliveries on_events =
    let limit = settings.retention_batch_size in
    let cutoff = now - days settings.retention_notifications_days in
    (
      delete_batch-size sessions.checks (λ c. c.id) on_checks t.checks (λ c. some c.checked_at)
          (now - days settings.retention_checks_days) limit (λ c. true),
      delete_batch-size sessions.incidents (λ i. i.id) on_incidents t.incidents (λ i. i.resolved_at)
          (now - days settings.retention_incidents_days) limit (λ i. is_resolved i.status),
      delete_batch-size sessions.deliveries (λ d. d.id) on_deliveries t.deliveries
          (λ d. d.processed_at) cutoff limit (delivery_conditions sessions t.events),
      delete_batch-size sessions.events (λ e. e.id) on_events t.events (λ e. e.processed_at) cutoff
          limit _,
    )
