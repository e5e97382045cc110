-- ===== src/Notifications/Deliveries.antt =====
-- InMemoryNotificationDeliveryRepository of
-- src/uptime_platform/notifications/in_memory_repository.py. A method that reads the clock takes
-- its reading, and the i-th token of a claim is `uuid4 i`. Durations are microseconds.
use uptime_platform.Base.{
  ℕ, suc, ◌+◌, ◌-◌, Bool, true, false, not, ◌&&◌, ◌||◌, Option, none, some, List, [], ◌∷◌, leb, ltb,
  ◌==◌, if◌then◌else◌, is_none, is_key, filter, take, mem, any,
}
pub mod Leases
pub mod Keyed
pub mod Processed
use uptime_platform.Base.Sort.{sort}
use uptime_platform.Base.Result.{Result, ok, err, ValueError, value_error}
use uptime_platform.Base.Dict
use uptime_platform.Base.Dict.{Dict, values}
use uptime_platform.Notifications.Entities.{NotificationDelivery}

unfoldable pub create : Dict NotificationDelivery → NotificationDelivery → Dict NotificationDelivery
create r delivery = Dict.put r delivery.id delivery

unfoldable pub get_by_id : Dict NotificationDelivery → ℕ → Option NotificationDelivery
get_by_id r delivery_id = Dict.get r delivery_id

-- `locked_until is None or locked_until <= now`
abbrev pub unlocked : Option ℕ → ℕ → Bool
unlocked none now = true
unlocked (some t) now = leb t now

-- The test of the comprehension in `claim_pending`.
unfoldable pub is_pending :
    (exclude_ids : List ℕ) (max_attempts now : ℕ) → NotificationDelivery → Bool
is_pending exclude_ids max_attempts now d =
    not (mem d.id exclude_ids)
    && is_none d.processed_at
    && ltb d.attempts max_attempts
    && leb d.next_attempt_at now
    && unlocked d.locked_until now

-- The order of the key `(delivery.next_attempt_at, delivery.id)`.
unfoldable pub attempt_before : NotificationDelivery → NotificationDelivery → Bool
attempt_before d e =
    ltb d.next_attempt_at e.next_attempt_at
    || (d.next_attempt_at == e.next_attempt_at && leb d.id e.id)

-- The loop of `claim_pending`.
unfoldable pub claim_each :
    (uuid4 : ℕ → ℕ) (i locked_until : ℕ)
    → List NotificationDelivery
    → Dict NotificationDelivery
    → Dict NotificationDelivery × List NotificationDelivery
claim_each uuid4 i locked_until [] r = (r, [])
claim_each uuid4 i locked_until (d ∷ ds) r =
    let claimed = record d { locked_until = some locked_until; lease_token = some (uuid4 i) } in
    let (r', rest) = claim_each uuid4 (suc i) locked_until ds (Dict.put r d.id claimed) in
    (r', claimed ∷ rest)

abbrev pub pending_list :
    Dict NotificationDelivery
    → (exclude_ids : List ℕ) (max_attempts now : ℕ) → List NotificationDelivery
pending_list r exclude_ids max_attempts now =
    sort attempt_before (filter (is_pending exclude_ids max_attempts now) (values r))

unfoldable pub claim_pending :
    Dict NotificationDelivery
    → (limit max_attempts lease : ℕ) (exclude_ids : List ℕ) (now : ℕ) (uuid4 : ℕ → ℕ)
    → Result ValueError (Dict NotificationDelivery × List NotificationDelivery)
claim_pending r limit max_attempts lease exclude_ids now uuid4 =
    if ltb limit 1 || ltb max_attempts 1 || leb lease 0
    then err value_error
    else ok (
        claim_each uuid4 0 (now + lease) (take limit (pending_list r exclude_ids max_attempts now))
          r)

abbrev lease_left : Option ℕ → ℕ → Option ℕ
lease_left none now = none
lease_left (some t) now = if ltb now t then some (t - now) else none

abbrev pub remaining_of : Option NotificationDelivery → (lease_token now : ℕ) → Option ℕ
remaining_of none lease_token now = none
remaining_of (some d) lease_token now =
    if not (is_key d.lease_token lease_token) || not (is_none d.processed_at)
    then none
    else lease_left d.locked_until now

-- `remaining_lease_seconds`, in microseconds.
unfoldable pub remaining_lease_seconds :
    Dict NotificationDelivery → (delivery_id lease_token now : ℕ) → Option ℕ
remaining_lease_seconds r delivery_id lease_token now =
    remaining_of (Dict.get r delivery_id) lease_token now

unfoldable pub update :
    Dict NotificationDelivery
    → NotificationDelivery
    → (lease_token now : ℕ) → Dict NotificationDelivery × Option NotificationDelivery
unfolding remaining_lease_seconds
update r delivery lease_token now =
    if is_none (remaining_lease_seconds r delivery.id lease_token now)
    then (r, none)
    else (let updated = record delivery { locked_until = none; lease_token = none } in
        (Dict.put r delivery.id updated, some updated))

abbrev pub for_pair : NotificationDelivery → NotificationDelivery → Bool
for_pair d existing = existing.event_id == d.event_id && existing.destination_id == d.destination_id

unfoldable pub create_if_missing :
    Dict NotificationDelivery → NotificationDelivery → Dict NotificationDelivery × Bool
create_if_missing r delivery =
    if any (for_pair delivery) (values r)
    then (r, false)
    else (Dict.put r delivery.id delivery, true)

abbrev pub released :
    Dict NotificationDelivery
    → ℕ
    → Option NotificationDelivery
    → ℕ
    → Dict NotificationDelivery × Bool
released r delivery_id none lease_token = (r, false)
released r delivery_id (some d) lease_token =
    if not (is_key d.lease_token lease_token)
    then (r, false)
    else (Dict.put r delivery_id (record d { locked_until = none; lease_token = none }), true)

unfoldable pub release_lock :
    Dict NotificationDelivery → (delivery_id lease_token : ℕ) → Dict NotificationDelivery × Bool
release_lock r delivery_id lease_token = released r delivery_id (Dict.get r delivery_id) lease_token
