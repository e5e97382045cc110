-- ===== src/Monitors/Repository.antt =====
-- src/uptime_platform/monitors/in_memory_repository.py. Each method takes the repository and the
-- clock's reading where it reads the clock, and returns the repository that it leaves.
pub mod Installed
pub mod Leases
pub mod Order
pub mod Exclusive
use uptime_platform.Base.{
  ℕ, suc, ◌+◌, String, Bool, true, false, not, ◌&&◌, ◌||◌, Option, none, some, List, [], ◌∷◌, leb,
  ltb, ◌==◌, if◌then◌else◌, is_none, filter, take, mem,
}
use uptime_platform.Base.Sort.{sort}
use uptime_platform.Base.Time.{seconds}
use uptime_platform.Base.Result.{Result, ok, err, ValueError, value_error}
use uptime_platform.Base.Dict
use uptime_platform.Base.Dict.{Dict, values}
use uptime_platform.Monitors.Entities.{Monitor, MonitorClaim, is_paused}

pub record MonitorRepository : Type 0 where
  pub claims : Dict MonitorClaim
  pub monitors : Dict Monitor

unfoldable pub create : MonitorRepository → Monitor → MonitorRepository × Monitor
create r monitor = (record r { monitors = Dict.put r.monitors monitor.id monitor }, monitor)

unfoldable pub get_all : MonitorRepository → ℕ → List Monitor
get_all r organization_id = filter (λ m. m.organization_id == organization_id) (values r.monitors)

-- The monitor, if it is there and belongs to the organization.
abbrev pub in_organization : ℕ → Option Monitor → Option Monitor
in_organization organization_id none = none
in_organization organization_id (some m) =
    if not (m.organization_id == organization_id) then none else some m

unfoldable pub get_by_id : MonitorRepository → ℕ → ℕ → Option Monitor
get_by_id r monitor_id organization_id =
    in_organization organization_id (Dict.get r.monitors monitor_id)

-- `claim is None or claim.token != lease_token or claim.expires_at <= now`
abbrev pub lease_lost : Option MonitorClaim → ℕ → ℕ → Bool
lease_lost none lease_token now = true
lease_lost (some c) lease_token now = not (c.token == lease_token) || leb c.expires_at now

abbrev pub lease_refused : Option MonitorClaim → Option ℕ → ℕ → Bool
lease_refused claim none now = false
lease_refused claim (some t) now = lease_lost claim t now

abbrev pub in_optional_organization : Option ℕ → Option Monitor → Option Monitor
in_optional_organization none found = found
in_optional_organization (some organization_id) found = in_organization organization_id found

unfoldable pub get_by_id_for_update :
    MonitorRepository
    → (monitor_id : ℕ) (organization_id lease_token : Option ℕ) (now : ℕ) → Option Monitor
get_by_id_for_update r monitor_id organization_id lease_token now =
    if lease_refused (Dict.get r.claims monitor_id) lease_token now
    then none
    else in_optional_organization organization_id (Dict.get r.monitors monitor_id)

-- `monitor.id not in self._claims or self._claims[monitor.id].expires_at <= now`
abbrev pub claim_free : Option MonitorClaim → ℕ → Bool
claim_free none now = true
claim_free (some c) now = leb c.expires_at now

unfoldable pub is_due : MonitorRepository → List ℕ → ℕ → Monitor → Bool
is_due r exclude_ids now m =
    leb m.next_check_at now
    && not (is_paused m.status)
    && not (mem m.id exclude_ids)
    && claim_free (Dict.get r.claims m.id) now

-- The order of the key `(monitor.next_check_at, monitor.id)`.
unfoldable pub due_before : Monitor → Monitor → Bool
due_before m n =
    ltb m.next_check_at n.next_check_at || (m.next_check_at == n.next_check_at && leb m.id n.id)

abbrev pub due_list : MonitorRepository → List ℕ → ℕ → List Monitor
due_list r exclude_ids now = sort due_before (filter (is_due r exclude_ids now) (values r.monitors))

-- One claim for each monitor; `uuid4 i` is the i-th token that the call draws.
unfoldable pub make_claims : (ℕ → ℕ) → ℕ → ℕ → ℕ → List Monitor → List MonitorClaim
make_claims uuid4 i lease_grace now [] = []
make_claims uuid4 i lease_grace now (m ∷ ms) =
    record {
      monitor = m;
      token = uuid4 i;
      expires_at = now + (seconds m.timeout_seconds + lease_grace);
    }
    ∷ make_claims uuid4 (suc i) lease_grace now ms

-- The loop that stores the claims.
unfoldable pub install : List MonitorClaim → Dict MonitorClaim → Dict MonitorClaim
install [] d = d
install (c ∷ cs) d = install cs (Dict.put d c.monitor.id c)

-- The argument `lease_grace` is `lease_grace_seconds` as a duration.
unfoldable pub claim_due :
    MonitorRepository
    → (limit lease_grace : ℕ) (exclude_ids : List ℕ) (now : ℕ) (uuid4 : ℕ → ℕ)
    → Result ValueError (MonitorRepository × List MonitorClaim)
claim_due r limit lease_grace exclude_ids now uuid4 =
    if ltb limit 1 || leb lease_grace 0
    then err value_error
    else (let claims =
          make_claims uuid4 0 lease_grace now (take limit (due_list r exclude_ids now)) in
        ok (record r { claims = install claims r.claims }, claims))

-- `claim is None or claim.token != token`
abbrev pub not_holder : Option MonitorClaim → ℕ → Bool
not_holder none token = true
not_holder (some c) token = not (c.token == token)

unfoldable pub release_check_lease : MonitorRepository → ℕ → ℕ → MonitorRepository × Bool
release_check_lease r monitor_id token =
    if not_holder (Dict.get r.claims monitor_id) token
    then (r, false)
    else (record r { claims = Dict.del r.claims monitor_id }, true)

unfoldable pub update : MonitorRepository → Monitor → MonitorRepository × Option Monitor
update r monitor =
    if is_none (Dict.get r.monitors monitor.id)
    then (r, none)
    else (record r { monitors = Dict.put r.monitors monitor.id monitor }, some monitor)

unfoldable pub delete : MonitorRepository → ℕ → ℕ → MonitorRepository × Bool
delete r monitor_id organization_id =
    if is_none (in_organization organization_id (Dict.get r.monitors monitor_id))
    then (r, false)
    else (
      record r { monitors = Dict.del r.monitors monitor_id; claims = Dict.del r.claims monitor_id },
      true,
    )

unfoldable pub get_due : MonitorRepository → ℕ → ℕ → List Monitor
get_due r now limit = take limit (
    sort (λ m n. leb m.next_check_at n.next_check_at)
      (filter (λ m. leb m.next_check_at now && not (is_paused m.status)) (values r.monitors)))
