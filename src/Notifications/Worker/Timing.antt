-- ===== src/Notifications/Worker/Timing.antt =====
-- About the leases and timeouts of `_process_delivery` in
-- src/uptime_platform/notifications/worker.py.
use uptime_platform.Base.{
  ℕ, ◌+◌, ◌*◌, ◌-◌, ◌≤◌, ◌<◌, ◌≡◌, sym, ap, ◌∙◌, true, none, some, List, In, All-In, arith,
}
use uptime_platform.Base.Time.{seconds}
use uptime_platform.Base.Result.{ok}
use uptime_platform.Base.Dict
use uptime_platform.Base.Dict.{Dict, get-put_self}
use uptime_platform.Outbox.{OutboxEvent}
use uptime_platform.Notifications.Entities.{NotificationDelivery, NotificationDestination}
use uptime_platform.Notifications.Deliveries.{
  is_pending, claim_pending, remaining_lease_seconds, update,
}
use uptime_platform.Notifications.Deliveries.Leases.{IsWellFormed, claim_pending-Claimed}
use uptime_platform.Notifications.Factory.{NotificationChannel, create_notification_channel}
use uptime_platform.Notifications.Service.{
  Settings, Sent, delivered, failed, crashed, FanoutStore, process,
}
use uptime_platform.Notifications.Worker.{
  Arguments, NotificationWorker, init, World, Turn, load_delivery_data, time_left, sending,
  process_delivery, process_under, write,
}
use uptime_platform.Notifications.Worker.Cycle.{init-IsPositive}

module _ {Payload : Type 0} (self : NotificationWorker) (world : World Payload)
    (s : FanoutStore Payload) (d : NotificationDelivery) (token : ℕ) (turn : Turn) where
  module _ (stored : NotificationDelivery) (held : Dict.get s.deliveries d.id ≡ some stored) where
    -- The time that a send gets, the time that went by and the time of one transaction fit the
    -- lease.
    pub time_left-le :
        (locked_until timeout : ℕ)
        → stored.locked_until ≡ some locked_until
        → time_left self world s d token turn ≡ some timeout
        → (timeout ≤ self.arguments.notification_timeout)
          × (1 ≤ timeout)
          × (turn.read_at + turn.elapsed + timeout + self.arguments.database_timeout ≤ locked_until)
          × (stored.lease_token ≡ some token)
          × (stored.processed_at ≡ none)
    unfolding time_left remaining_lease_seconds
    time_left-le locked_until timeout e h =
        (ground arith, ground arith, ground arith, ground arith, ground arith)

    pub time_left-whole :
        (locked_until : ℕ)
        → stored.locked_until ≡ some locked_until
        → stored.lease_token ≡ some token
        → stored.processed_at ≡ none
        → turn.read_at + turn.elapsed + self.arguments.notification_timeout
            + self.arguments.database_timeout
          ≤ locked_until
        → 1 ≤ self.arguments.notification_timeout
        → time_left self world s d token turn ≡ some self.arguments.notification_timeout
    unfolding time_left remaining_lease_seconds
    time_left-whole locked_until e t p le pos = ground arith

is_pending-unprocessed :
    (ex : List ℕ) (max_attempts now : ℕ) (d : NotificationDelivery)
    → is_pending ex max_attempts now d ≡ true
    → d.processed_at ≡ none
unfolding is_pending
is_pending-unprocessed ex max_attempts now d h = ground arith

process-id :
    (settings : Settings) (d d' : NotificationDelivery) (sent : Sent) (now : ℕ)
    → process settings d sent now ≡ some d'
    → d'.id ≡ d.id
unfolding process
process-id settings d d' delivered now h = ground arith
process-id settings d d' (failed error) now h = ground arith
process-id settings d d' crashed now h = ground arith

update-written :
    (r : Dict NotificationDelivery) (d : NotificationDelivery) (token now remaining : ℕ)
    → remaining_lease_seconds r d.id token now ≡ some remaining
    → update r d token now ≡ (
      Dict.put r d.id (record d { locked_until = none; lease_token = none }),
      some (record d { locked_until = none; lease_token = none }),
    )
unfolding update
update-written r d token now remaining h = ground arith

module _ {Payload : Type 0} (self : NotificationWorker) (world : World Payload)
    (s : FanoutStore Payload) (r r' : Dict NotificationDelivery) (limit max_attempts : ℕ)
    (ex : List ℕ) (now : ℕ) (uuid4 : ℕ → ℕ) (claims : List NotificationDelivery)
    (c : NotificationDelivery) where
  -- A worker that the constructor accepted gives a delivery that it has claimed the whole
  -- notification timeout, if it comes to the send within two database timeouts and a second from
  -- the claim: the lease is long enough. The deliveries stand under their identifiers.
  pub fresh_claim-time_left :
      (arguments : Arguments) (token : ℕ) (turn : Turn)
      → init arguments ≡ ok self
      → IsWellFormed r
      → claim_pending r limit max_attempts self.lease ex now uuid4 ≡ ok (s.deliveries, claims)
      → In c claims
      → c.lease_token ≡ some token
      → turn.read_at + turn.elapsed ≤ now + 2 * self.arguments.database_timeout + seconds 1
      → time_left self world s c token turn ≡ some self.arguments.notification_timeout
  fresh_claim-time_left a token turn built wf h i t soon =
      let positive = init-IsPositive a self built in
      let (d, (was, _), token', e, held) =
        All-In _ claims
          (claim_pending-Claimed r s.deliveries limit max_attempts self.lease ex now uuid4 claims wf
            h)
          i in
      time_left-whole self world s c token turn c held (now + self.lease)
        (ap (λ c. c.locked_until) e) t
        (ap (λ c. c.processed_at) e ∙ is_pending-unprocessed ex max_attempts now d was)
        (omega (arith, positive.enough, soon)) positive.timeout

module _ {Payload : Type 0} (self : NotificationWorker) (world : World Payload) (i : ℕ)
    (s : FanoutStore Payload) (d : NotificationDelivery) (token timeout : ℕ)
    (event : OutboxEvent Payload) (destination : NotificationDestination)
    (channel : NotificationChannel) (d' stored : NotificationDelivery) (locked_until : ℕ) where
  sending-eq :
      (world.turn i d).connected ≡ true
      → load_delivery_data s d ≡ (some event, some destination)
      → time_left self world s d token (world.turn i d) ≡ some timeout
      → create_notification_channel destination self.arguments.notification_timeout
          self.arguments.public_app_url
        ≡ ok channel
      → process self.arguments.service d
          (world.send i channel event timeout)
          (world.turn i d).sent_at
        ≡ some d'
      → sending self world i s d token ≡ some d'
  unfolding sending
  sending-eq connected loaded left made sent = ground arith

  remaining-eq :
      time_left self world s d token (world.turn i d) ≡ some timeout
      → Dict.get s.deliveries d.id ≡ some stored
      → stored.locked_until ≡ some locked_until
      → (world.turn i d).updated_at
        < (world.turn i d).read_at
          + (world.turn i d).elapsed
          + timeout
          + self.arguments.database_timeout
      → remaining_lease_seconds s.deliveries d.id token (world.turn i d).updated_at
        ≡ some (locked_until - (world.turn i d).updated_at)
  unfolding remaining_lease_seconds
  remaining-eq left held lock soon =
      let (_, _, ends, same, unprocessed) =
        time_left-le self world s d token (world.turn i d) stored held locked_until timeout lock
          left in
      ground arith

  write-eq :
      (clean : NotificationDelivery) (r : Dict NotificationDelivery)
      → (world.turn i d).written ≡ true
      → update s.deliveries d' token (world.turn i d).updated_at ≡ (r, some clean)
      → write self world s (some d') token (world.turn i d) ≡ (record s { deliveries = r }, true)
  write-eq clean r written e = ground arith

  -- A delivery whose event and destination are stored and have a channel, that has time left, and
  -- whose send ends in its time, is written as the service leaves it, when its transactions go
  -- through and the last one comes within the database timeout.
  pub process_delivery-written :
      d.lease_token ≡ some token
      → (world.turn i d).connected ≡ true
      → (world.turn i d).written ≡ true
      → load_delivery_data s d ≡ (some event, some destination)
      → time_left self world s d token (world.turn i d) ≡ some timeout
      → create_notification_channel destination self.arguments.notification_timeout
          self.arguments.public_app_url
        ≡ ok channel
      → process self.arguments.service d
          (world.send i channel event timeout)
          (world.turn i d).sent_at
        ≡ some d'
      → Dict.get s.deliveries d.id ≡ some stored
      → stored.locked_until ≡ some locked_until
      → (world.turn i d).updated_at
        < (world.turn i d).read_at
          + (world.turn i d).elapsed
          + timeout
          + self.arguments.database_timeout
      → ((process_delivery self world i s d).1 ≡ true)
        × (Dict.get (process_delivery self world i s d).0.deliveries d.id
            ≡ some (record d' { locked_until = none; lease_token = none }))
  unfolding process_delivery
  process_delivery-written t connected written loaded left made sent held lock soon =
      let clean = record d' { locked_until = none; lease_token = none } in
      let r = Dict.put s.deliveries d'.id clean in
      let same =
        process-id self.arguments.service d d' (world.send i channel event timeout)
          (world.turn i d).sent_at sent in
      let done =
        ap (process_under self world i s d) t
        ∙ ap (λ x. write self world s x token (world.turn i d))
            (sending-eq connected loaded left made sent)
        ∙ write-eq clean r written (
            update-written s.deliveries d' token (world.turn i d).updated_at _ (
              ap (λ k. remaining_lease_seconds s.deliveries k token (world.turn i d).updated_at)
                same
              ∙ remaining-eq left held lock soon)) in
      (
        ap (λ p. p.1) done,
        ap (λ p. Dict.get (p.0).deliveries d.id) done
            ∙ ap (Dict.get r) (sym same)
            ∙ get-put_self s.deliveries d'.id clean,
      )
