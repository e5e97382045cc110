-- ===== src/Scheduler/Attempts.antt =====
-- About the identifiers that `run_once` of src/uptime_platform/scheduler/scheduler.py attempts.
use mathlib.Core.Path.{subst}
use uptime_platform.Base.{
  ℕ, suc, ◌-◌, ◌≤◌, ◌≡◌, refl, ap, sym, ◌∙◌, min, Bool, true, false, some, List, [], ◌∷◌, ◌++◌,
  length, length-append, length-map, count, mem, All-imp, All-map, arith,
}
use uptime_platform.Base.Distinct.{map-IsDistinct, IsDistinct, append-IsDistinct}
use uptime_platform.Base.Result.{ok}
use uptime_platform.Monitors.Entities.{MonitorClaim}
use uptime_platform.Monitors.Repository.{MonitorRepository, is_due, release_check_lease}
use uptime_platform.Monitors.Repository.Installed.{for_monitor, count-claims-le}
use uptime_platform.Monitors.Repository.Leases.{IsWellFormed, claim_due-eq-ok, claim_due-contract}
use uptime_platform.Checks.Service.{Store, Draws}
use uptime_platform.Checks.Service.Keyed.{record_check-IsWellFormed}
use uptime_platform.Notifications.Content.{Filters}
use uptime_platform.Scheduler.{
  Settings, World, Probed, answered, timed_out, crashed, ids, check_monitor, check_wave,
  release_each, release_claims, run_wave, claim_monitors, run_once,
}
use uptime_platform.Scheduler.Cycle.{claim_monitors-eq-ok}
use uptime_platform.Base.Waves.{Cycled, waves-invariant}

due-excluded :
    (r : MonitorRepository) (ks : List ℕ) (now : ℕ) (c : MonitorClaim)
    → is_due r ks now c.monitor ≡ true
    → mem c.monitor.id ks ≡ false
unfolding is_due
due-excluded r ks now c h = ground arith

release_check_lease-monitors :
    (r : MonitorRepository) (k token : ℕ) → (release_check_lease r k token).0.monitors ≡ r.monitors
unfolding release_check_lease
release_check_lease-monitors r k token = ground arith

module _ (lib : Filters) (world : World) where
  check_monitor-IsWellFormed :
      (s : Store) (claim : MonitorClaim) (probed : Probed) (draws : Draws)
      → IsWellFormed s.monitors
      → IsWellFormed (check_monitor lib s claim probed draws).0.monitors
  unfolding check_monitor
  check_monitor-IsWellFormed s claim (answered result) draws h =
      record_check-IsWellFormed lib s claim.monitor.id result (some claim.token)
        (some claim.monitor) draws h
  check_monitor-IsWellFormed s claim (timed_out ms) draws h =
      record_check-IsWellFormed lib s claim.monitor.id _ (some claim.token) (some claim.monitor)
        draws h
  check_monitor-IsWellFormed s claim crashed draws h = h

  check_wave-IsWellFormed :
      (i : ℕ) (claims : List MonitorClaim) (s : Store)
      → IsWellFormed s.monitors
      → IsWellFormed (check_wave lib world i claims s).0.monitors
  unfolding check_wave
  check_wave-IsWellFormed i [] s h = h
  check_wave-IsWellFormed i (c ∷ cs) s h =
      check_wave-IsWellFormed i cs _
        (check_monitor-IsWellFormed s c (world.probe i c) (world.draws i c) h)

  release_each-monitors :
      (claims : List MonitorClaim) (r : MonitorRepository)
      → (release_each lib claims r).monitors ≡ r.monitors
  unfolding release_each
  release_each-monitors [] r = refl
  release_each-monitors (c ∷ cs) r =
      release_each-monitors cs (release_check_lease r c.monitor.id c.token).0
      ∙ release_check_lease-monitors r c.monitor.id c.token

  release_claims-monitors :
      (done : Bool) (claims : List MonitorClaim) (s : Store)
      → (release_claims lib done claims s).0.monitors.monitors ≡ s.monitors.monitors
  unfolding release_claims
  release_claims-monitors true claims s = release_each-monitors claims s.monitors
  release_claims-monitors false claims s = refl

  run_wave-IsWellFormed :
      (i : ℕ) (claims : List MonitorClaim) (s : Store)
      → IsWellFormed s.monitors
      → IsWellFormed (run_wave lib world i claims s).0.monitors
  unfolding run_wave
  run_wave-IsWellFormed i claims s h =
      rw (release_claims-monitors (world.cleanup i) claims (check_wave lib world i claims s).0)
        (check_wave-IsWellFormed i claims s h)

module _ (lib : Filters) (self : Settings) (world : World) where
  -- What was attempted fits the batch, each monitor once, and the repository is as it should be.
  abbrev Bounded : List ℕ → Store → Type 0
  Bounded attempted s =
      (length attempted ≤ self.batch_size) × IsDistinct attempted × IsWellFormed s.monitors

  claim_monitors-Bounded :
      (i : ℕ) (attempted : List ℕ) (s s' : Store) (claims : List MonitorClaim)
      → Bounded attempted s
      → claim_monitors lib self world i attempted s ≡ ok (s', claims)
      → Bounded (attempted ++ ids claims) s'
  claim_monitors-Bounded i attempted s s' claims (room, distinct, wf) h =
      let limit = min self.concurrency (self.batch_size - length attempted) in
      let (r, same_store, h') = claim_monitors-eq-ok lib self world i attempted s s' claims h in
      let (due, _, size, same) =
        claim_due-contract s.monitors r limit self.lease_grace attempted (world.now i)
          (world.uuid4 i) claims wf h' in
      let once =
        count-claims-le s.monitors limit self.lease_grace attempted (world.now i) (world.uuid4 i) in
      let claimed =
        (claim_due-eq-ok s.monitors limit self.lease_grace attempted (world.now i) (world.uuid4 i) r
          claims h').0 in
      let absent =
        All-imp (λ c d. due-excluded s.monitors attempted (world.now i) c (d.0)) claims due in
      (
        omega (
          arith,
          size,
          length-append attempted (ids claims),
          length-map (λ (c : MonitorClaim). c.monitor.id) claims,
        ),
        append-IsDistinct attempted (ids claims) distinct
            (map-IsDistinct (λ c. c.monitor.id) claims
              (λ k. omega (arith, ap (count (for_monitor k)) claimed, once k wf)))
            (All-map (λ k. mem k attempted ≡ false) (λ c. c.monitor.id) claims absent),
        subst (λ store. IsWellFormed store.monitors) (sym same_store) (rw same wf),
      )

  empty-Bounded :
      (i : ℕ) (attempted : List ℕ) (s s' : Store)
      → Bounded attempted s
      → claim_monitors lib self world i attempted s ≡ ok (s', [])
      → Bounded attempted s'
  empty-Bounded i attempted s s' (room, distinct, wf) h =
      (room, distinct, (claim_monitors-Bounded i attempted s s' [] (room, distinct, wf) h).2)

  wave-Bounded :
      (i : ℕ) (attempted : List ℕ) (s s' : Store) (c : MonitorClaim) (cs : List MonitorClaim)
      → Bounded attempted s
      → claim_monitors lib self world i attempted s ≡ ok (s', c ∷ cs)
      → Bounded (attempted ++ ids (c ∷ cs)) (run_wave lib world i (c ∷ cs) s').0
  wave-Bounded i attempted s s' c cs b h =
      let (room, distinct, wf) = claim_monitors-Bounded i attempted s s' (c ∷ cs) b h in
      (room, distinct, run_wave-IsWellFormed lib world i (c ∷ cs) s' wf)

  -- A cycle over a repository that has each monitor under its identifier attempts no more monitors
  -- than the batch size and none of them twice, whatever the network, the clock and the cleanups
  -- do.
  pub run_once-attempted :
      (s : Store) (out : Cycled Store)
      → IsWellFormed s.monitors
      → run_once lib self world s ≡ some (ok out)
      → (length out.attempted ≤ self.batch_size) × IsDistinct out.attempted
  unfolding run_once count
  run_once-attempted s out wf h =
      let (room, distinct, _) =
        waves-invariant self.batch_size (λ claim. claim.monitor.id) (claim_monitors lib self world)
          (run_wave lib world) Bounded empty-Bounded wave-Bounded (suc self.batch_size) 0 [] true s
          out (omega arith, (λ k. omega arith), wf) h in
      (room, distinct)
