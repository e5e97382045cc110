-- ===== src/Notifications/Service/Retry.antt =====
-- About `process` and `_retry_delay` of src/uptime_platform/notifications/service.py.
use uptime_platform.Base.{
  ℕ, zero, suc, ◌+◌, ◌-◌, ◌*◌, ◌^◌, ◌≤◌, min, ◌≡◌, refl, true, false, some, none, List, [], ◌∷◌,
  arith, Option, Bool, not, ◌&&◌, leb, ltb, mem, String, length,
}
use uptime_platform.Base.Time.{seconds}
use uptime_platform.Notifications.Entities.{NotificationDelivery}
use uptime_platform.Notifications.Deliveries.{is_pending}
use uptime_platform.Notifications.Service.{Settings, error_text, Sent, failed, retry_delay, process}

pow-pos : (n : ℕ) → 1 ≤ 2 ^ n
pow-pos zero = omega arith
pow-pos (suc n) = omega (arith, pow-pos n)

mul-pos : (b p : ℕ) → 1 ≤ b → 1 ≤ p → 1 ≤ b * p
mul-pos zero p h k = omega arith
mul-pos (suc b) p h k = omega arith

doubled : (b m e e' : ℕ) → e' ≡ suc e → min (b * 2 ^ e') m ≡ min (2 * min (b * 2 ^ e) m) m
doubled b m e e' h = omega (arith, twice)
  where
    pow : 2 ^ e' ≡ 2 * 2 ^ e
    pow = rw h (omega arith)

    twice : b * 2 ^ e' ≡ 2 * (b * 2 ^ e)
    twice = rw pow (omega arith)

-- The first retry waits for the base delay and each later one for twice the delay before it, all
-- cut at the maximum.
pub retry_delay-double :
    (self : Settings) (n : ℕ)
    → (retry_delay self 1 ≡ min self.retry_base_seconds self.retry_max_seconds)
      × (retry_delay self (n + 2) ≡ min (2 * retry_delay self (n + 1)) self.retry_max_seconds)
unfolding retry_delay
retry_delay-double self n = (
  omega arith,
  doubled self.retry_base_seconds self.retry_max_seconds (n + 1 - 1) (n + 2 - 1) (omega arith),
)

-- Every retry waits at least one second and at most the maximum, when both settings are positive.
pub retry_delay-bounds :
    (self : Settings) (attempts : ℕ)
    → 1 ≤ self.retry_base_seconds
    → 1 ≤ self.retry_max_seconds
    → (1 ≤ retry_delay self attempts) × (retry_delay self attempts ≤ self.retry_max_seconds)
unfolding retry_delay
retry_delay-bounds self attempts h k =
    omega (arith, mul-pos self.retry_base_seconds (2 ^ (attempts - 1)) h (pow-pos (attempts - 1)))

abbrev pub is_failed : Sent → Bool
is_failed (failed _) = true
is_failed _ = false

-- After an unprocessed delivery is processed, it is pending at an instant exactly when the send
-- had failed, it is not excluded, an attempt is left, and the delay of this attempt has passed.
pub process-is_pending :
    (self : Settings) (d d' : NotificationDelivery) (sent : Sent) (now : ℕ) (exclude_ids : List ℕ)
    (max_attempts t : ℕ)
    → d.processed_at ≡ none
    → process self d sent now ≡ some d'
    → is_pending exclude_ids max_attempts t d' ≡ (
        is_failed sent
        && not (mem d.id exclude_ids)
        && ltb (d.attempts + 1) max_attempts
        && leb (now + seconds (retry_delay self (d.attempts + 1))) t)
unfolding process is_pending
process-is_pending self d d' sent now ex max_attempts t h e = ground arith

-- The delivery after a run of failed attempts, each with its error and its instant.
unfoldable pub after_errors :
    Settings → NotificationDelivery → List (String × ℕ) → Option NotificationDelivery
after_errors self d [] = some d
after_errors self d ((error, now) ∷ rest) = elim (process self d (failed error) now) [
  | none ↦ none
  | some d' ↦ after_errors self d' rest
]

failures-attempts :
    (self : Settings) (d : NotificationDelivery) (errors : List (String × ℕ))
    → (d' : NotificationDelivery) × (after_errors self d errors ≡ some d')
      × (d'.attempts ≡ d.attempts + length errors)
unfolding after_errors process
failures-attempts self d [] = (d, refl, omega arith)
failures-attempts self d ((error, now) ∷ rest) =
    let failed_once : NotificationDelivery = record d {
      attempts = d.attempts + 1;
      last_error = some (error_text self error);
      next_attempt_at = now + seconds (retry_delay self (d.attempts + 1));
      locked_until = none;
      lease_token = none;
    } in
    let (d', e, n) = failures-attempts self failed_once rest in (d', e, omega (arith, n))

-- A delivery that has failed as often as is allowed is pending at no instant any more.
pub failures_exhausted :
    (self : Settings) (d d' : NotificationDelivery) (errors : List (String × ℕ))
    (exclude_ids : List ℕ) (max_attempts t : ℕ)
    → max_attempts ≤ d.attempts + length errors
    → after_errors self d errors ≡ some d'
    → is_pending exclude_ids max_attempts t d' ≡ false
unfolding is_pending
failures_exhausted self d d' errors ex max_attempts t h e =
    ground (arith, failures-attempts self d errors)
