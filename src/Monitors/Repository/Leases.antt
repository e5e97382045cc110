-- ===== src/Monitors/Repository/Leases.antt =====
-- About the leases that `claim_due` of src/uptime_platform/monitors/in_memory_repository.py gives.
use uptime_platform.Base.{
  ℕ, suc, ◌+◌, ◌<◌, ◌≤◌, ◌≡◌, refl, ap, true, false, some, List, [], ◌∷◌, arith, min, filter, take,
  count, All, All-take, All-filter_of, length, length-take, length-filter,
}
use uptime_platform.Base.Sort.{length-sort, All-sort}
use uptime_platform.Base.Result.{ok}
use uptime_platform.Base.Dict
use uptime_platform.Base.Dict.{Dict, values, IsKeyed, get-put, get-put_self}
use uptime_platform.Monitors.Entities.{Monitor, MonitorClaim}
use uptime_platform.Monitors.Repository.{
  MonitorRepository, make_claims, install, due_list, is_due, due_before, claim_due,
}
use uptime_platform.Monitors.Repository.Installed.{count-claims-le, install-All}
use uptime_platform.Base.Time.{seconds}

abbrev pub IsWellFormed : MonitorRepository → Type 0
IsWellFormed r = IsKeyed (λ m. m.id) r.monitors

module _ (r : MonitorRepository) (limit lease_grace : ℕ) (exclude_ids : List ℕ) (now : ℕ)
    (uuid4 : ℕ → ℕ) where
  abbrev pub batch : List MonitorClaim
  batch = make_claims uuid4 0 lease_grace now (take limit (due_list r exclude_ids now))

  pub claim_due-eq-ok :
      (r' : MonitorRepository) (claims : List MonitorClaim)
      → claim_due r limit lease_grace exclude_ids now uuid4 ≡ ok (r', claims)
      → (claims ≡ batch) × (r' ≡ record r { claims = install batch r.claims })
  unfolding claim_due
  claim_due-eq-ok r' claims h = ground arith

pub claim_due-ok :
    (r : MonitorRepository) (limit lease_grace : ℕ) (exclude_ids : List ℕ) (now : ℕ) (uuid4 : ℕ → ℕ)
    → 1 ≤ limit
    → 1 ≤ lease_grace
    → claim_due r limit lease_grace exclude_ids now uuid4
      ≡ ok (
        record r { claims = install (batch r limit lease_grace exclude_ids now uuid4) r.claims },
        batch r limit lease_grace exclude_ids now uuid4,
      )
unfolding claim_due
claim_due-ok r limit lease_grace exclude_ids now uuid4 h k = ground arith

make_claims-All :
    (P : Monitor → Type 0) (uuid4 : ℕ → ℕ) (i lease_grace now : ℕ) (ms : List Monitor)
    → All P ms
    → All
        (λ c.
          P c.monitor × (c.expires_at ≡ now + (seconds c.monitor.timeout_seconds + lease_grace)))
        (make_claims uuid4 i lease_grace now ms)
unfolding make_claims
make_claims-All P uuid4 i g now [] h = tt
make_claims-All P uuid4 i g now (m ∷ ms) h =
    ((h.0, refl), make_claims-All P uuid4 (suc i) g now ms h.1)

length-make_claims :
    (uuid4 : ℕ → ℕ) (i lease_grace now : ℕ) (ms : List Monitor)
    → length (make_claims uuid4 i lease_grace now ms) ≡ length ms
unfolding make_claims
length-make_claims uuid4 i g now [] = refl
length-make_claims uuid4 i g now (m ∷ ms) = ap suc (length-make_claims uuid4 (suc i) g now ms)

pub batch_due :
    (r : MonitorRepository) (limit lease_grace : ℕ) (exclude_ids : List ℕ) (now : ℕ) (uuid4 : ℕ → ℕ)
    → All
        (λ c.
          (is_due r exclude_ids now c.monitor ≡ true)
          × (c.expires_at ≡ now + (seconds c.monitor.timeout_seconds + lease_grace)))
        (batch r limit lease_grace exclude_ids now uuid4)
batch_due r limit g ex now uuid4 =
    make_claims-All P uuid4 0 g now (take limit (due_list r ex now)) (
      All-take P limit (due_list r ex now) (
        All-sort due_before P (filter (is_due r ex now) (values r.monitors))
          (All-filter_of P (is_due r ex now) (λ m e. e) (values r.monitors))))
  where
    P : Monitor → Type 0
    P m = is_due r ex now m ≡ true

length-batch :
    (r : MonitorRepository) (limit lease_grace : ℕ) (exclude_ids : List ℕ) (now : ℕ) (uuid4 : ℕ → ℕ)
    → length (batch r limit lease_grace exclude_ids now uuid4)
      ≡ min limit (count (is_due r exclude_ids now) (values r.monitors))
length-batch r limit g ex now uuid4 = omega (
  arith,
  length-make_claims uuid4 0 g now (take limit (due_list r ex now)),
  length-take limit (due_list r ex now),
  length-sort due_before (filter (is_due r ex now) (values r.monitors)),
  length-filter (is_due r ex now) (values r.monitors),
)

-- While a stored lease runs, its monitor is not due for anybody.
pub leased-not_due :
    (r : MonitorRepository) (exclude_ids : List ℕ) (now : ℕ) (m : Monitor) (c : MonitorClaim)
    → Dict.get r.claims m.id ≡ some c
    → now < c.expires_at
    → is_due r exclude_ids now m ≡ false
unfolding is_due
leased-not_due r ex now m c h lt = ground arith

-- Over monitors stored under their identifiers, every claim of a batch is for a monitor that was
-- due and not excluded, runs for the monitor's timeout and the grace, and is stored under its
-- monitor; there are as many as the limit and the due monitors allow, and the monitors are
-- untouched.
pub claim_due-contract :
    (r r' : MonitorRepository) (limit lease_grace : ℕ) (exclude_ids : List ℕ) (now : ℕ)
    (uuid4 : ℕ → ℕ) (claims : List MonitorClaim)
    → IsWellFormed r
    → claim_due r limit lease_grace exclude_ids now uuid4 ≡ ok (r', claims)
    → All
        (λ c.
          (is_due r exclude_ids now c.monitor ≡ true)
          × (c.expires_at ≡ now + (seconds c.monitor.timeout_seconds + lease_grace)))
        claims
      × All (λ c. Dict.get r'.claims c.monitor.id ≡ some c) claims
      × (length claims ≡ min limit (count (is_due r exclude_ids now) (values r.monitors)))
      × (r'.monitors ≡ r.monitors)
claim_due-contract r r' limit g ex now uuid4 claims wf h =
    let (e, e') = claim_due-eq-ok r limit g ex now uuid4 r' claims h in
    rw (e, e')
      (
        batch_due r limit g ex now uuid4,
        install-All (batch r limit g ex now uuid4) r.claims
            (λ k. count-claims-le r limit g ex now uuid4 k wf),
        length-batch r limit g ex now uuid4,
        refl,
      )
