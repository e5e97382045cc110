-- ===== src/Scheduler/Cycle.antt =====
-- About the end of `run_once` of src/uptime_platform/scheduler/scheduler.py.
use uptime_platform.Base.{
  ℕ, ◌-◌, ◌≤◌, ◌<◌, inl, inr, ap, ◌≡◌, sym, ◌∙◌, min, true, false, Bool-cases, some, List, [],
  length, arith,
}
use uptime_platform.Base.Result.{Result, ok, err, ValueError, Result-cases}
use uptime_platform.Base.Waves.{Cycled, IsEnd, waves_stop}
use uptime_platform.Monitors.Entities.{MonitorClaim}
use uptime_platform.Monitors.Repository.{MonitorRepository, claim_due}
use uptime_platform.Monitors.Repository.Leases.{claim_due-ok}
use uptime_platform.Checks.Service.{Store}
use uptime_platform.Notifications.Content.{Filters}
use uptime_platform.Scheduler.{
  Settings, World, SchedulerError, invalid, database, run_wave, claim_monitors, run_once,
}

not_both :
    {x : Result SchedulerError (Store × List MonitorClaim)} {e : SchedulerError}
    {a : Store × List MonitorClaim}
    → x ≡ err e
    → x ≡ ok a
    → ⊥
not_both h k = cc

ok_inj :
    {s s' : Store} {cs cs' : List MonitorClaim}
    → ◌≡◌ {A = Result SchedulerError (Store × List MonitorClaim)} (ok (s, cs)) (ok (s', cs'))
    → (s ≡ s') × (cs ≡ cs')
ok_inj h = (cc, cc)

module _ (lib : Filters) (self : Settings) (world : World) (i : ℕ) (attempted : List ℕ)
    (s : Store) where
  abbrev pub limit : ℕ
  limit = min self.concurrency (self.batch_size - length attempted)

  pub claim_monitors-ok :
      (r : MonitorRepository) (claims : List MonitorClaim)
      → world.answers i ≡ true
      → claim_due s.monitors limit self.lease_grace attempted (world.now i) (world.uuid4 i)
        ≡ ok (r, claims)
      → claim_monitors lib self world i attempted s ≡ ok (record s { monitors = r }, claims)
  unfolding claim_monitors
  claim_monitors-ok r claims e h = ground arith

  unanswered : world.answers i ≡ false → claim_monitors lib self world i attempted s ≡ err database
  unfolding claim_monitors
  unanswered e = ground arith

  refused :
      (x : ValueError)
      → claim_due s.monitors limit self.lease_grace attempted (world.now i) (world.uuid4 i) ≡ err x
      → (e : SchedulerError) × (claim_monitors lib self world i attempted s ≡ err e)
  unfolding claim_monitors
  refused x h = elim (Bool-cases (world.answers i)) [
    | inl e ↦ (invalid, ground arith)
    | inr e ↦ (database, unanswered e)
  ]

  pub claim_monitors-eq-ok :
      (s' : Store) (claims : List MonitorClaim)
      → claim_monitors lib self world i attempted s ≡ ok (s', claims)
      → (r : MonitorRepository) × (s' ≡ record s { monitors = r })
        × (claim_due s.monitors limit self.lease_grace attempted (world.now i) (world.uuid4 i)
            ≡ ok (r, claims))
  claim_monitors-eq-ok s' claims h = elim (Bool-cases (world.answers i)) [
    | inr f ↦ absurd (not_both (unanswered f) h)
    | inl t ↦
        elim (Result-cases
          (claim_due s.monitors limit self.lease_grace attempted (world.now i) (world.uuid4 i))) [
            | inl ((r, cs), e) ↦
                let (same, cs-claims) = ok_inj (sym (claim_monitors-ok r cs t e) ∙ h) in
                (r, sym same, e ∙ ap (λ claims. ok (r, claims)) cs-claims)
            | inr (x, e) ↦ absurd (not_both ((refused x e).1) h)
          ]
  ]

err_inj :
    {e f : SchedulerError}
    → ◌≡◌ {A = Result SchedulerError (Store × List MonitorClaim)} (err e) (err f)
    → e ≡ f
err_inj h = cc

-- The end of a cycle with a result, or with the exception of a claim that did not go through.
abbrev pub IsExpected : World → Result SchedulerError (Cycled Store) → Type 0
IsExpected world (ok out) = Unit
IsExpected world (err e) = (e ≡ database) × ((i : ℕ) × (world.answers i ≡ false))

end-IsExpected :
    (world : World) (out : Result SchedulerError (Cycled Store))
    → IsEnd (λ e. (e ≡ database) × ((i : ℕ) × (world.answers i ≡ false))) out
    → IsExpected world out
end-IsExpected world (ok out) h = tt
end-IsExpected world (err e) h = h

module _ (lib : Filters) (self : Settings) (world : World) where
  module _ (concurrent : 1 ≤ self.concurrency) (grace : 1 ≤ self.lease_grace) where
    claim_raises_database :
        (i : ℕ) (attempted : List ℕ) (s : Store) (e : SchedulerError)
        → length attempted < self.batch_size
        → claim_monitors lib self world i attempted s ≡ err e
        → (e ≡ database) × ((i : ℕ) × (world.answers i ≡ false))
    claim_raises_database i attempted s e lt h = elim (Bool-cases (world.answers i)) [
      | inr f ↦ (err_inj (sym h ∙ unanswered lib self world i attempted s f), (i, f))
      | inl t ↦ absurd (
          not_both h (
            claim_monitors-ok lib self world i attempted s _ _ t (
              claim_due-ok s.monitors (limit lib self world i attempted s) self.lease_grace
                attempted (world.now i) (world.uuid4 i) (omega (arith, lt, concurrent)) grace)))
    ]

    -- With a positive concurrency and grace, a cycle ends within its fuel of one wave for each place
    -- of the batch and one more, whatever the network, the clock, the claims' transactions and the
    -- cleanups do: with a result, or with the exception of a claim's transaction that failed or came
    -- too late, and never because the limits are refused.
    pub run_once_stops :
        (s : Store)
        → (out : Result SchedulerError (Cycled Store)) × (run_once lib self world s ≡ some out)
          × IsExpected world out
    unfolding run_once
    run_once_stops s =
        let (out, stopped, end) =
          waves_stop self.batch_size (λ claim. claim.monitor.id) (claim_monitors lib self world)
            (run_wave lib world) (λ e. (e ≡ database) × ((i : ℕ) × (world.answers i ≡ false)))
            claim_raises_database self.batch_size 0 [] true s (omega arith) in
        (out, stopped, end-IsExpected world out end)
