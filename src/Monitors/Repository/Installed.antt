-- ===== src/Monitors/Repository/Installed.antt =====
-- About the table of claims that `claim_due` of
-- src/uptime_platform/monitors/in_memory_repository.py fills.
use uptime_platform.Base.{
  ℕ, suc, ◌≤◌, ◌≡◌, refl, Bool, some, List, [], ◌∷◌, arith, ◌==◌, filter, take, count, count-take,
  count-filter, All,
}
use uptime_platform.Base.Sort.{count-sort}
use uptime_platform.Base.Dict
use uptime_platform.Base.Dict.{Dict, values, IsKeyed, count-id-le, get-put, get-put_self}
use uptime_platform.Monitors.Entities.{Monitor, MonitorClaim}
use uptime_platform.Monitors.Repository.{
  MonitorRepository, make_claims, install, due_list, is_due, due_before,
}

abbrev pub for_monitor : ℕ → MonitorClaim → Bool
for_monitor k c = c.monitor.id == k

count-make_claims :
    (k : ℕ) (uuid4 : ℕ → ℕ) (i lease_grace now : ℕ) (ms : List Monitor)
    → count (for_monitor k) (make_claims uuid4 i lease_grace now ms) ≡ count (λ m. m.id == k) ms
unfolding count make_claims
count-make_claims k uuid4 i g now [] = refl
count-make_claims k uuid4 i g now (m ∷ ms) =
    ground (arith, count-make_claims k uuid4 (suc i) g now ms)

-- A batch claims each monitor at most once.
pub count-claims-le :
    (r : MonitorRepository) (limit lease_grace : ℕ) (exclude_ids : List ℕ) (now : ℕ) (uuid4 : ℕ → ℕ)
    (k : ℕ)
    → IsKeyed (λ m. m.id) r.monitors
    → count
        (for_monitor k)
        (make_claims uuid4 0 lease_grace now (take limit (due_list r exclude_ids now)))
      ≤ 1
count-claims-le r limit g ex now uuid4 k h = omega (
  arith,
  count-make_claims k uuid4 0 g now (take limit (due_list r ex now)),
  count-take (λ (m : Monitor). m.id == k) limit (due_list r ex now),
  count-sort due_before (λ (m : Monitor). m.id == k) (filter (is_due r ex now) (values r.monitors)),
  count-filter (λ (m : Monitor). m.id == k) (is_due r ex now) (values r.monitors),
  count-id-le (λ (m : Monitor). m.id) r.monitors k h,
)

-- The claims that are stored for other monitors stay.
pub get-install :
    (cs : List MonitorClaim) (d : Dict MonitorClaim) (k : ℕ)
    → count (for_monitor k) cs ≡ 0
    → Dict.get (install cs d) k ≡ Dict.get d k
unfolding install count
get-install [] d k h = refl
get-install (c ∷ cs) d k h =
    ground (arith, get-install cs (Dict.put d c.monitor.id c) k, get-put d c.monitor.id k c)

pub install-All :
    (cs : List MonitorClaim) (d : Dict MonitorClaim)
    → ((k : ℕ) → count (for_monitor k) cs ≤ 1)
    → All (λ c. Dict.get (install cs d) c.monitor.id ≡ some c) cs
unfolding install count
install-All [] d h = tt
install-All (c ∷ cs) d h = (
  ground (
    arith,
    h c.monitor.id,
    get-install cs (Dict.put d c.monitor.id c) c.monitor.id,
    get-put_self d c.monitor.id c,
  ),
  install-All cs (Dict.put d c.monitor.id c) λ k. omega (arith, h k),
)
