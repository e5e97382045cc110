-- ===== src/Notifications/Worker/Attempts.antt =====
-- About the deliveries that `run_once` of src/uptime_platform/notifications/worker.py attempts.
use uptime_platform.Base.{
  ℕ, suc, ◌-◌, ◌≤◌, ◌≡◌, refl, ap, ◌∙◌, min, true, false, Option, none, some, List, [], ◌∷◌, ◌++◌,
  map, length, length-append, length-map, count, mem, All-map, arith, Bool-cases, Option-cases, inl,
  inr,
}
use mathlib.Core.Path.{subst}
use uptime_platform.Base.Distinct.{map-IsDistinct, IsDistinct, append-IsDistinct}
use uptime_platform.Base.Result.{Result, ok, err, Result-cases, ValueError}
use uptime_platform.Base.Waves.{Cycled, waves-invariant}
use uptime_platform.Base.Dict.{Dict}
use uptime_platform.Notifications.Entities.{NotificationDelivery, NotificationDestination}
use uptime_platform.Outbox.{OutboxEvent, claim_pending}
use uptime_platform.Notifications.Deliveries
use uptime_platform.Notifications.Deliveries.Keyed.{
  update-IsWellFormed, create_if_missing-IsWellFormed, release_lock-IsWellFormed,
}
use uptime_platform.Notifications.Deliveries.Leases.{
  IsWellFormed, claim_pending-IsWellFormed, claim_pending-distinct,
}
use uptime_platform.Notifications.Service.{FanoutStore, fan_out, create_each}
use uptime_platform.Notifications.Worker.{
  NotificationWorker, WorkerError, World, Turn, run_wave, process_under, write, deliver, waves_of,
  process_delivery, process_wave, release_each, release_claims, claim_deliveries, fan_out_each,
  fan_out_pending_events, run_once, counted, sending,
}

ok_inj :
    {A B : Type 0} {a a' : A} {b b' : B}
    → ◌≡◌ {A = Result WorkerError (A × B)} (ok (a, b)) (ok (a', b'))
    → (a ≡ a') × (b ≡ b')
ok_inj h = (cc, cc)

err_not_ok :
    {A : Type 0} {e : WorkerError} {a : A} → ◌≡◌ {A = Result WorkerError A} (err e) (ok a) → ⊥
err_not_ok h = cc

create_each-IsWellFormed :
    (event_id now : ℕ) (ds : List (NotificationDestination × ℕ)) (r : Dict NotificationDelivery)
    → IsWellFormed r
    → IsWellFormed (create_each event_id now ds r).0
unfolding create_each
create_each-IsWellFormed event_id now [] r wf = wf
create_each-IsWellFormed event_id now ((d, u) ∷ ds) r wf =
    create_each-IsWellFormed event_id now ds _ (create_if_missing-IsWellFormed r wf _)

module _ {Payload : Type 0} (self : NotificationWorker) (world : World Payload) where
  fan_out_each-IsWellFormed :
      (j : ℕ) (events : List (OutboxEvent Payload)) (s : FanoutStore Payload)
      → IsWellFormed s.deliveries
      → IsWellFormed (fan_out_each self world j events s).deliveries
  unfolding fan_out_each fan_out
  fan_out_each-IsWellFormed j [] s wf = wf
  fan_out_each-IsWellFormed j (e ∷ es) s wf =
      fan_out_each-IsWellFormed (suc j) es _ (create_each-IsWellFormed e.id _ _ _ wf)

  write-IsWellFormed :
      (s : FanoutStore Payload) (updated : Option NotificationDelivery) (token : ℕ) (turn : Turn)
      → IsWellFormed s.deliveries
      → IsWellFormed (write self world s updated token turn).0.deliveries
  write-IsWellFormed s none token turn wf = wf
  write-IsWellFormed s (some d) token turn wf = elim (Bool-cases turn.written) [
    | inr e ↦ rw e wf
    | inl e ↦ rw e (update-IsWellFormed s.deliveries wf d token turn.updated_at)
  ]

  process_under-IsWellFormed :
      (i : ℕ) (s : FanoutStore Payload) (d : NotificationDelivery) (token : Option ℕ)
      → IsWellFormed s.deliveries
      → IsWellFormed (process_under self world i s d token).0.deliveries
  process_under-IsWellFormed i s d none wf = wf
  process_under-IsWellFormed i s d (some token) wf =
      write-IsWellFormed s (sending self world i s d token) token (world.turn i d) wf

  process_wave-IsWellFormed :
      (i : ℕ) (ds : List NotificationDelivery) (s : FanoutStore Payload)
      → IsWellFormed s.deliveries
      → IsWellFormed (process_wave self world i ds s).0.deliveries
  unfolding process_wave process_delivery
  process_wave-IsWellFormed i [] s wf = wf
  process_wave-IsWellFormed i (d ∷ ds) s wf =
      process_wave-IsWellFormed i ds _ (process_under-IsWellFormed i s d d.lease_token wf)

  release_each-IsWellFormed :
      (ds : List NotificationDelivery) (r : Dict NotificationDelivery)
      → IsWellFormed r
      → IsWellFormed (release_each self world ds r)
  unfolding release_each
  release_each-IsWellFormed [] r wf = wf
  release_each-IsWellFormed (d ∷ ds) r wf = elim (Option-cases d.lease_token) [
    | inl e ↦ rw e (release_each-IsWellFormed ds r wf)
    | inr (token, e) ↦
        rw e (release_each-IsWellFormed ds _ (release_lock-IsWellFormed r wf d.id token))
  ]

  run_wave-IsWellFormed :
      (i : ℕ) (ds : List NotificationDelivery) (s : FanoutStore Payload)
      → IsWellFormed s.deliveries
      → IsWellFormed (run_wave self world i ds s).0.deliveries
  unfolding run_wave release_claims
  run_wave-IsWellFormed i ds s wf = elim (Bool-cases (world.cleanup i)) [
    | inl e ↦ rw e (release_each-IsWellFormed ds _ (process_wave-IsWellFormed i ds s wf))
    | inr e ↦ rw e (process_wave-IsWellFormed i ds s wf)
  ]

  -- What was attempted fits the batch, each delivery once, and the deliveries stand under their
  -- identifiers.
  abbrev Bounded : List ℕ → FanoutStore Payload → Type 0
  Bounded attempted s =
      (length attempted ≤ self.arguments.batch_size)
      × IsDistinct attempted
      × IsWellFormed s.deliveries

  abbrev ids : List NotificationDelivery → List ℕ
  ids ds = map (λ d. d.id) ds

  abbrev limit : List ℕ → ℕ
  limit attempted = min self.arguments.concurrency (self.arguments.batch_size - length attempted)

  abbrev claims :
      ℕ
      → List ℕ
      → FanoutStore Payload
      → Result ValueError (Dict NotificationDelivery × List NotificationDelivery)
  claims i attempted s =
      Deliveries.claim_pending s.deliveries (limit attempted) self.arguments.max_attempts self.lease
        attempted (world.now i) (world.uuid4 i)

  -- A claim that went through is one of the repository.
  claim_deliveries-eq-ok :
      (i : ℕ) (attempted : List ℕ) (s s' : FanoutStore Payload) (ds : List NotificationDelivery)
      → claim_deliveries self world i attempted s ≡ ok (s', ds)
      → (r : Dict NotificationDelivery) × (record s { deliveries = r } ≡ s')
        × (claims i attempted s ≡ ok (r, ds))
  unfolding claim_deliveries
  claim_deliveries-eq-ok i attempted s s' ds h = elim (Bool-cases (world.answers i)) [
    | inr f ↦ absurd (err_not_ok (rw f at h))
    | inl f ↦ elim (Result-cases (claims i attempted s)) [
      | inr (e, g) ↦ absurd (err_not_ok (rw (f, g) at h))
      | inl ((r, cs), g) ↦
          let (same, same_claims) = ok_inj (rw (f, g) at h) in
          (r, same, g ∙ ap (λ c. ok (r, c)) same_claims)
    ]
  ]

  claim_deliveries-Bounded :
      (i : ℕ) (attempted : List ℕ) (s s' : FanoutStore Payload) (ds : List NotificationDelivery)
      → Bounded attempted s
      → claim_deliveries self world i attempted s ≡ ok (s', ds)
      → Bounded (attempted ++ ids ds) s'
  claim_deliveries-Bounded i attempted s s' ds (room, distinct, wf) h =
      let (r, same, h') = claim_deliveries-eq-ok i attempted s s' ds h in
      let (size, once, absent) =
        claim_pending-distinct s.deliveries r (limit attempted) self.arguments.max_attempts
          self.lease attempted (world.now i) (world.uuid4 i) ds wf h' in
      (
        omega (
          arith,
          size,
          length-append attempted (ids ds),
          length-map (λ (d : NotificationDelivery). d.id) ds,
        ),
        append-IsDistinct attempted (ids ds) distinct (map-IsDistinct (λ d. d.id) ds once)
            (All-map (λ k. mem k attempted ≡ false) (λ d. d.id) ds absent),
        subst (λ store. IsWellFormed store.deliveries) same
            (claim_pending-IsWellFormed s.deliveries r (limit attempted) self.arguments.max_attempts
              self.lease attempted (world.now i) (world.uuid4 i) ds wf h'),
      )

  empty-Bounded :
      (i : ℕ) (attempted : List ℕ) (s s' : FanoutStore Payload)
      → Bounded attempted s
      → claim_deliveries self world i attempted s ≡ ok (s', [])
      → Bounded attempted s'
  empty-Bounded i attempted s s' (room, distinct, wf) h =
      (room, distinct, (claim_deliveries-Bounded i attempted s s' [] (room, distinct, wf) h).2)

  wave-Bounded :
      (i : ℕ) (attempted : List ℕ) (s s' : FanoutStore Payload) (d : NotificationDelivery)
      (ds : List NotificationDelivery)
      → Bounded attempted s
      → claim_deliveries self world i attempted s ≡ ok (s', d ∷ ds)
      → Bounded (attempted ++ ids (d ∷ ds)) (run_wave self world i (d ∷ ds) s').0
  wave-Bounded i attempted s s' d ds b h =
      let (room, distinct, wf) = claim_deliveries-Bounded i attempted s s' (d ∷ ds) b h in
      (room, distinct, run_wave-IsWellFormed i (d ∷ ds) s' wf)

  counted-eq-ok :
      (m n : ℕ) (x : Option (Result WorkerError (Cycled (FanoutStore Payload))))
      (out : Cycled (FanoutStore Payload))
      → counted m x ≡ some (ok (n, out))
      → x ≡ some (ok out)
  counted-eq-ok m n none out h = cc
  counted-eq-ok m n (some (ok o)) out h = cc
  counted-eq-ok m n (some (err e)) out h = cc

  -- A cycle that ended with a result fanned out, and its waves ended with that result.
  deliver-eq-ok :
      (x : Result WorkerError (FanoutStore Payload × ℕ)) (n : ℕ)
      (out : Cycled (FanoutStore Payload))
      → deliver self world x ≡ some (ok (n, out))
      → (s : FanoutStore Payload) × (m : ℕ) × (x ≡ ok (s, m))
        × (waves_of self world s ≡ some (ok out))
  deliver-eq-ok (err e) n out h = cc
  deliver-eq-ok (ok (s, m)) n out h = (s, m, refl, counted-eq-ok m n (waves_of self world s) out h)

  fanned :
      (s s' : FanoutStore Payload) (m : ℕ)
      → fan_out_pending_events self world s ≡ ok (s', m)
      → fan_out_each self world 0 (claim_pending s.outbox self.arguments.batch_size) s ≡ s'
  unfolding fan_out_pending_events
  fanned s s' m h = ground arith

  fan_out_pending_events-IsWellFormed :
      (s s' : FanoutStore Payload) (m : ℕ)
      → IsWellFormed s.deliveries
      → fan_out_pending_events self world s ≡ ok (s', m)
      → IsWellFormed s'.deliveries
  fan_out_pending_events-IsWellFormed s s' m wf h =
      let events = claim_pending s.outbox self.arguments.batch_size in
      subst (λ store. IsWellFormed store.deliveries) (fanned s s' m h)
        (fan_out_each-IsWellFormed 0 events s wf)

  -- A cycle over deliveries that stand under their identifiers attempts no more of them than the
  -- batch size and none twice, and leaves them under their identifiers, whatever the channels, the
  -- clocks and the database do.
  pub run_once-Bounded :
      (s : FanoutStore Payload) (n : ℕ) (out : Cycled (FanoutStore Payload))
      → IsWellFormed s.deliveries
      → run_once self world s ≡ some (ok (n, out))
      → Bounded out.attempted out.store
  unfolding count run_once
  run_once-Bounded s n out wf h =
      let (s', m, fanned, h') = deliver-eq-ok (fan_out_pending_events self world s) n out h in
      waves-invariant self.arguments.batch_size (λ d. d.id) (claim_deliveries self world)
        (run_wave self world) Bounded empty-Bounded wave-Bounded (suc self.arguments.batch_size) 0
        [] true s' out
        (omega arith, (λ k. omega arith), fan_out_pending_events-IsWellFormed s s' m wf fanned) h'
