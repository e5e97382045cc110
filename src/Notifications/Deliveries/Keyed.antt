-- ===== src/Notifications/Deliveries/Keyed.antt =====
-- About the keys of InMemoryNotificationDeliveryRepository in
-- src/uptime_platform/notifications/in_memory_repository.py.
use uptime_platform.Base.{ℕ, none, any, is_key, Option-cases, Bool-cases, inl, inr}
use uptime_platform.Base.Dict
use uptime_platform.Base.Dict.{Dict, values, put-IsKeyed, put-IsKeyed_at, get-id}
use uptime_platform.Notifications.Entities.{NotificationDelivery}
use uptime_platform.Notifications.Deliveries.{
  update, remaining_lease_seconds, release_lock, create_if_missing, for_pair,
}
use uptime_platform.Notifications.Deliveries.Leases.{IsWellFormed}
use uptime_platform.Base.{is_none}

module _ (r : Dict NotificationDelivery) (wf : IsWellFormed r) where
  pub update-IsWellFormed :
      (d : NotificationDelivery) (lease_token now : ℕ) → IsWellFormed (update r d lease_token now).0
  unfolding update
  update-IsWellFormed d lease_token now =
      elim (Bool-cases (is_none (remaining_lease_seconds r d.id lease_token now))) [
        | inl e ↦ rw e wf
        | inr e ↦
            rw e
              (put-IsKeyed (λ d. d.id) r (record d { locked_until = none; lease_token = none }) wf)
      ]

  pub create_if_missing-IsWellFormed :
      (d : NotificationDelivery) → IsWellFormed (create_if_missing r d).0
  unfolding create_if_missing
  create_if_missing-IsWellFormed d = elim (Bool-cases (any (for_pair d) (values r))) [
    | inl e ↦ rw e wf
    | inr e ↦ rw e (put-IsKeyed (λ d. d.id) r d wf)
  ]

  pub release_lock-IsWellFormed :
      (k lease_token : ℕ) → IsWellFormed (release_lock r k lease_token).0
  unfolding release_lock
  release_lock-IsWellFormed k lease_token = elim (Option-cases (Dict.get r k)) [
    | inl e ↦ rw e wf
    | inr (d, e) ↦ elim (Bool-cases (is_key d.lease_token lease_token)) [
      | inr f ↦ rw (e, f) wf
      | inl f ↦
          rw (e, f)
            (put-IsKeyed_at (λ d. d.id) r k (record d { locked_until = none; lease_token = none })
              (get-id (λ d. d.id) r wf e) wf)
    ]
  ]
