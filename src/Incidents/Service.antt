-- ===== src/Incidents/Service.antt =====
-- src/uptime_platform/incidents/service.py: the incidents that an organization sees.
use uptime_platform.Base.{
  arith, Bool-cases, inl, inr, true, ℕ, ◌≡◌, Option, none, some, List, [], ◌∷◌, if◌then◌else◌, mem,
  map, All, All-imp, All-take, All-filter_of, All-filter,
}
use uptime_platform.Base.Sort.{All-sort}
use uptime_platform.Base.Dict.{values}
use uptime_platform.Incidents
use uptime_platform.Incidents.{
  Incident, IncidentStatus, IncidentRepository, with_status, newest_first,
}
use uptime_platform.Monitors.Entities.{Monitor}
use uptime_platform.Monitors.Repository
use uptime_platform.Monitors.Repository.{MonitorRepository}

abbrev pub ids : List Monitor → List ℕ
ids monitors = map (λ m. m.id) monitors

abbrev get_for : IncidentRepository → Option IncidentStatus → Option ℕ → ℕ → List ℕ → List Incident
get_for r status none limit monitor_ids = Incidents.get_all r status monitor_ids limit
get_for r status (some monitor_id) limit monitor_ids =
    if mem monitor_id monitor_ids then Incidents.get_all r status (monitor_id ∷ []) limit else []

unfoldable pub get_all :
    IncidentRepository
    → MonitorRepository
    → (organization_id : ℕ) → Option IncidentStatus
    → (monitor_id : Option ℕ) → (limit : ℕ) → List Incident
get_all r monitors organization_id status monitor_id limit =
    get_for r status monitor_id limit (ids (Repository.get_all monitors organization_id))

-- The incident, if its monitor is one of the organization's.
abbrev of_organization : MonitorRepository → ℕ → Option Incident → Option Incident
of_organization monitors organization_id none = none
of_organization monitors organization_id (some i) =
    elim (Repository.get_by_id monitors i.monitor_id organization_id) [
      | none ↦ none
      | some m ↦ some i
    ]

unfoldable pub get_by_id :
    IncidentRepository → MonitorRepository → (organization_id incident_id : ℕ) → Option Incident
get_by_id r monitors organization_id incident_id =
    of_organization monitors organization_id (Incidents.get_by_id r incident_id)

module _ (P : Incident → Type 0) where
  with_status-All :
      (status : Option IncidentStatus) (is : List Incident)
      → All P is
      → All P (with_status status is)
  with_status-All none is h = h
  with_status-All (some s) is h = All-filter P _ is h

mem_singleton : (k j : ℕ) (ks : List ℕ) → mem j (k ∷ []) ≡ true → mem k ks ≡ true → mem j ks ≡ true
unfolding mem
mem_singleton k j ks h e = rw (j_eq_k) e
  where
    j_eq_k : j ≡ k
    j_eq_k = ground arith

repository_get_all-All :
    (r : IncidentRepository) (status : Option IncidentStatus) (monitor_ids : List ℕ) (limit : ℕ)
    → All (λ i. mem i.monitor_id monitor_ids ≡ true) (Incidents.get_all r status monitor_ids limit)
unfolding Incidents.get_all
repository_get_all-All r status monitor_ids limit = All-take P limit _ (
    All-sort newest_first P _
      (with_status-All P status _ (All-filter_of P _ (λ i e. e) (values r))))
  where
    P : Incident → Type 0
    P i = mem i.monitor_id monitor_ids ≡ true

-- Every listed incident belongs to a monitor of the organization, whichever filters are asked for.
pub get_all-All :
    (r : IncidentRepository) (monitors : MonitorRepository) (organization_id : ℕ)
    (status : Option IncidentStatus) (monitor_id : Option ℕ) (limit : ℕ)
    → All
        (λ i. mem i.monitor_id (ids (Repository.get_all monitors organization_id)) ≡ true)
        (get_all r monitors organization_id status monitor_id limit)
unfolding get_all
get_all-All r monitors org status none limit = repository_get_all-All r status _ limit
get_all-All r monitors org status (some k) limit =
    elim (Bool-cases (mem k (ids (Repository.get_all monitors org)))) [
      | inl e ↦ rw e (
          All-imp (λ i h. mem_singleton k i.monitor_id _ h e) _
            (repository_get_all-All r status (k ∷ []) limit))
      | inr e ↦ rw e tt
    ]
