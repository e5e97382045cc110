-- ===== src/Notifications/Sql.antt =====
-- SqlAlchemyNotificationDeliveryRepository of
-- src/uptime_platform/notifications/sqlalchemy_repository.py. The session is a parameter
-- (Base.Session). A row of NotificationDeliveryModel has the fields of NotificationDelivery, which
-- `_to_entity` copies. `now` is the reading of clock_timestamp(); rows that other transactions
-- lock, which `skip_locked` passes over, are not in the model.
pub mod Refines
pub mod Claims
use uptime_platform.Base.{
  ℕ, suc, ◌+◌, ◌-◌, Bool, true, false, not, ◌&&◌, ◌||◌, Option, none, some, List, [], ◌∷◌, leb, ltb,
  ◌==◌, if◌then◌else◌, is_none, is_key, mem,
}
use uptime_platform.Base.Result.{Result, ok, err, ValueError, value_error}
use uptime_platform.Base.Session.{Session}
use uptime_platform.Notifications.Entities.{NotificationDelivery}

abbrev pub NotificationDeliveryModel : Type 0
NotificationDeliveryModel = NotificationDelivery

-- `locked_until is None or locked_until <= now`
abbrev pub expired : Option ℕ → ℕ → Bool
expired none now = true
expired (some t) now = leb t now

unfoldable pub is_pending :
    (exclude_ids : List ℕ) (max_attempts now : ℕ) → NotificationDeliveryModel → Bool
is_pending exclude_ids max_attempts now model =
    is_none model.processed_at
    && ltb model.attempts max_attempts
    && leb model.next_attempt_at now
    && expired model.locked_until now
    && not (mem model.id exclude_ids)

-- `order_by(next_attempt_at, id)`
abbrev pub attempt_before : NotificationDeliveryModel → NotificationDeliveryModel → Bool
attempt_before m n =
    ltb m.next_attempt_at n.next_attempt_at
    || (m.next_attempt_at == n.next_attempt_at && leb m.id n.id)

-- The rows of the unique constraint on the event and the destination.
abbrev pub same_pair : NotificationDelivery → NotificationDeliveryModel → Bool
same_pair d model = model.event_id == d.event_id && model.destination_id == d.destination_id

abbrev pub is_empty : {A : Type 0} → List A → Bool
is_empty [] = true
is_empty (x ∷ xs) = false

-- The time that is left, if any.
abbrev left_until : Option ℕ → ℕ → Option ℕ
left_until none now = none
left_until (some t) now = if ltb 0 (t - now) then some (t - now) else none

abbrev pub remaining : Option NotificationDeliveryModel → ℕ → Option ℕ
remaining none now = none
remaining (some model) now = left_until model.locked_until now

-- The lease is not the caller's, or over, or the delivery is processed.
abbrev pub refused : NotificationDeliveryModel → (lease_token now : ℕ) → Bool
refused model lease_token now =
    not (is_key model.lease_token lease_token)
    || expired model.locked_until now
    || not (is_none model.processed_at)

-- The assignments of `update`.
abbrev pub assigned : NotificationDeliveryModel → NotificationDelivery → NotificationDeliveryModel
assigned model d = record model {
  processed_at = d.processed_at;
  attempts = d.attempts;
  last_error = d.last_error;
  next_attempt_at = d.next_attempt_at;
  locked_until = none;
  lease_token = none;
}

module _ {Db : Type 0} (session : Session NotificationDeliveryModel Db) where
  unfoldable pub create : Db → NotificationDelivery → Db × NotificationDelivery
  create db delivery = (session.save db delivery, delivery)

  unfoldable pub get_by_id : Db → (delivery_id : ℕ) → Option NotificationDelivery
  get_by_id db delivery_id = session.get db delivery_id

  -- The loop of `claim_pending`; `uuid4 i` is the i-th token that the call draws.
  unfoldable pub claim_each :
      (uuid4 : ℕ → ℕ) (i locked_until : ℕ)
      → List NotificationDeliveryModel
      → Db
      → Db × List NotificationDelivery
  claim_each uuid4 i locked_until [] db = (db, [])
  claim_each uuid4 i locked_until (model ∷ models) db =
      let claimed = record model {
        locked_until = some locked_until;
        lease_token = some (uuid4 i);
      } in
      let (db', rest) = claim_each uuid4 (suc i) locked_until models (session.save db claimed) in
      (db', claimed ∷ rest)

  -- `read_at` is the clock in the statement, `now` the reading after it.
  unfoldable pub claim_pending :
      Db
      → (limit max_attempts lease : ℕ) (exclude_ids : List ℕ) (read_at now : ℕ) (uuid4 : ℕ → ℕ)
      → Result ValueError (Db × List NotificationDelivery)
  unfolding claim_each
  claim_pending db limit max_attempts lease exclude_ids read_at now uuid4 =
      if ltb limit 1 || ltb max_attempts 1 || leb lease 0
      then err value_error
      else ok (
          claim_each uuid4 0 (now + lease)
            (session.select db (is_pending exclude_ids max_attempts read_at) attempt_before
              (some limit))
            db)

  unfoldable pub remaining_lease_seconds : Db → (delivery_id lease_token now : ℕ) → Option ℕ
  remaining_lease_seconds db delivery_id lease_token now =
      remaining
        (session.one db delivery_id
          (λ model. is_key model.lease_token lease_token && is_none model.processed_at))
        now

  abbrev pub updated :
      Db
      → Option NotificationDeliveryModel
      → NotificationDelivery
      → (lease_token now : ℕ) → Db × Option NotificationDelivery
  updated db none delivery lease_token now = (db, none)
  updated db (some model) delivery lease_token now =
      if refused model lease_token now
      then (db, none)
      else (session.save db (assigned model delivery), some (assigned model delivery))

  unfoldable pub update :
      Db → NotificationDelivery → (lease_token now : ℕ) → Db × Option NotificationDelivery
  update db delivery lease_token now =
      updated db (session.one db delivery.id (λ model. true)) delivery lease_token now

  -- INSERT … ON CONFLICT DO NOTHING. The conflict is one of the event and the destination; an id
  -- that is in use is an error of the database that is not in the model.
  unfoldable pub create_if_missing : Db → NotificationDelivery → Db × Bool
  create_if_missing db delivery =
      if is_empty (session.select db (same_pair delivery) (λ m n. true) none)
      then (session.save db delivery, true)
      else (db, false)

  abbrev pub released : Db → Option NotificationDeliveryModel → Db × Bool
  released db none = (db, false)
  released db (some model) =
      (session.save db (record model { locked_until = none; lease_token = none }), true)

  unfoldable pub release_lock : Db → (delivery_id lease_token : ℕ) → Db × Bool
  release_lock db delivery_id lease_token =
      released db (session.one db delivery_id (λ model. is_key model.lease_token lease_token))
