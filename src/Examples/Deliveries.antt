-- ===== src/Examples/Deliveries.antt =====
-- Calls on the deliveries in memory and in their table.
use uptime_platform.Base.{ℕ, ◌+◌, ◌-◌, ◌≡◌, refl, some, [], ◌∷◌, arith}
use uptime_platform.Notifications.Sql.Claims.{SameClaims, claim_pending-refined}
use uptime_platform.Examples.Data.{uuids}
use uptime_platform.Base.Dict
use uptime_platform.Base.Dict.{Dict}
use uptime_platform.Notifications.Entities.{NotificationDelivery}
use uptime_platform.Notifications.Deliveries
use uptime_platform.Notifications.Sql
use uptime_platform.Notifications.Sql.{NotificationDeliveryModel, claim_pending}
use uptime_platform.Notifications.Sql.Refines.{Same, delivery_calls-Refines}
use uptime_platform.Examples.Tables.{Table, session, session-IsSession}
use uptime_platform.Examples.Notifications.{waiting, other}

abbrev id : NotificationDeliveryModel → ℕ
id model = model.id

-- The delivery under a claim until 1200.
abbrev leased : NotificationDelivery
leased = record waiting { locked_until = some 1200; lease_token = some 0 }

abbrev leased_deliveries : Dict NotificationDelivery
leased_deliveries = (3, leased) ∷ []

abbrev leased_table : Table id
unfolding Dict.get
leased_table = record { rows = leased_deliveries; keyed = (refl, refl, tt) }

-- The result of the delivery's first attempt.
abbrev attempted : NotificationDelivery
attempted = record leased { attempts = 1; last_error = some "refused"; next_attempt_at = 5000200 }

delivery_calls-Refines_example :
    (Sql.remaining_lease_seconds (session id) leased_table 3 0 500
      ≡ Deliveries.remaining_lease_seconds leased_deliveries 3 0 500)
    × Same
        (session id)
        (session-IsSession id)
        (Sql.update (session id) leased_table attempted 0 500)
        (Deliveries.update leased_deliveries attempted 0 500)
    × Same
        (session id)
        (session-IsSession id)
        (Sql.release_lock (session id) leased_table 3 0)
        (Deliveries.release_lock leased_deliveries 3 0)
    × Same
        (session id)
        (session-IsSession id)
        (Sql.create_if_missing (session id) leased_table other)
        (Deliveries.create_if_missing leased_deliveries other)
unfolding Dict.get
delivery_calls-Refines_example =
    delivery_calls-Refines (session id) (session-IsSession id) leased_table leased_deliveries
      attempted other 3 0 500 (refl, refl, tt) (λ k. refl) (refl, refl, refl) refl

abbrev pending_deliveries : Dict NotificationDelivery
pending_deliveries = (3, waiting) ∷ []

abbrev pending_table : Table id
unfolding Dict.get
pending_table = record { rows = pending_deliveries; keyed = (refl, refl, tt) }

claim_pending-refined_example :
    SameClaims
      (session id)
      (session-IsSession id)
      (claim_pending (session id) pending_table 2 5 1000 [] 200 210 uuids)
      (Deliveries.claim_pending pending_deliveries 2 5 (1000 + (210 - 200)) [] 200 uuids)
unfolding Dict.get
claim_pending-refined_example =
    claim_pending-refined (session id) (session-IsSession id) pending_table pending_deliveries 2 5
      1000 [] 200 210 uuids (refl, refl, tt) (λ k. refl) (omega arith) (omega arith)
