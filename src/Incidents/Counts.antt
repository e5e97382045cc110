-- ===== src/Incidents/Counts.antt =====
-- About the number of open incidents of a monitor in
-- src/uptime_platform/incidents/in_memory_repository.py.
use uptime_platform.Base.{
  is_none, Bool-cases, inl, inr, ℕ, ◌+◌, ◌≡◌, none, some, ◌==◌, bit, count, find?-passes,
  count-find?, arith,
}
use uptime_platform.Base.Dict
use uptime_platform.Base.Dict.{Dict, values, IsKeyed, put-IsKeyed, count-put, get-find?}
use uptime_platform.Incidents.{Incident, open_for, opened, resolved, get_open_by_monitor_id, update}

pub count-put_opened :
    (r : Dict Incident) (i : Incident) (j : ℕ)
    → Dict.get r i.id ≡ none
    → i.status ≡ opened
    → count (open_for j) (values (Dict.put r i.id i))
      ≡ count (open_for j) (values r) + bit (i.monitor_id == j)
count-put_opened r i j fresh e = ground (arith, count-put (open_for j) r i.id i)

pub count-put_resolved :
    (r : Dict Incident) (i i' : Incident) (j : ℕ)
    → Dict.get r i.id ≡ some i
    → i.status ≡ opened
    → i'.status ≡ resolved
    → count (open_for j) (values (Dict.put r i.id i')) + bit (i.monitor_id == j)
      ≡ count (open_for j) (values r)
count-put_resolved r i i' j stored e e' = ground (arith, count-put (open_for j) r i.id i')

-- The open incident that the scan finds is stored, open, and the monitor's.
pub get_open_by_monitor_id-stored :
    (r : Dict Incident) (k : ℕ) (i : Incident)
    → IsKeyed (λ i. i.id) r
    → get_open_by_monitor_id r k ≡ some i
    → (Dict.get r i.id ≡ some i) × (i.monitor_id ≡ k) × (i.status ≡ opened)
unfolding get_open_by_monitor_id
get_open_by_monitor_id-stored r k i keyed e =
    let passes = find?-passes (open_for k) (values r) e in
    (get-find? (λ i. i.id) (open_for k) r keyed e, ground arith, ground arith)

pub get_open_by_monitor_id-none :
    (r : Dict Incident) (k : ℕ)
    → get_open_by_monitor_id r k ≡ none
    → count (open_for k) (values r) ≡ 0
unfolding get_open_by_monitor_id
get_open_by_monitor_id-none r k e = count-find? (open_for k) (values r) e

pub update-IsKeyed :
    (r : Dict Incident) (i : Incident) → IsKeyed (λ i. i.id) r → IsKeyed (λ i. i.id) (update r i).0
unfolding update
update-IsKeyed r i h = elim (Bool-cases (is_none (Dict.get r i.id))) [
  | inl e ↦ rw e h
  | inr e ↦ rw e (put-IsKeyed (λ i. i.id) r i h)
]
