-- ===== src/StatusPages/Service/Status.antt =====
-- About `calculate_status_page_status` of src/uptime_platform/status_pages/service.py.
use uptime_platform.Base.{
  ℕ, ◌≤◌, ◌≡◌, refl, Bool, true, not, ◌&&◌, ◌||◌, List, [], ◌∷◌, ◌==◌, if◌then◌else◌, filter, any,
  count, length, arith,
}
use uptime_platform.Monitors.Entities.{Monitor, is_paused, is_pending, is_down, is_up}
use uptime_platform.StatusPages.{operational, partial_outage, major_outage, unknown}
use uptime_platform.StatusPages.Service.{calculate_status_page_status}

abbrev pub some_down : List Monitor → Bool
some_down ms = any (λ m. is_down m.status) ms

-- A monitor that is checked and not down.
abbrev pub some_running : List Monitor → Bool
some_running ms = any (λ m. is_up m.status || is_pending m.status) ms

abbrev pub some_pending : List Monitor → Bool
some_pending ms = any (λ m. is_pending m.status) ms

abbrev active : List Monitor → List Monitor
active ms = filter (λ m. not (is_paused m.status)) ms

abbrev downs : List Monitor → ℕ
downs ms = count (λ m. is_down m.status) (active ms)

active-facts :
    (ms : List Monitor)
    → ((downs ms == 0) ≡ not (some_down ms))
      × ((downs ms == length (active ms)) ≡ not (some_running ms))
      × (any (λ m. is_pending m.status) (active ms) ≡ some_pending ms)
      × (downs ms ≤ length (active ms))
unfolding filter any count
active-facts [] = (refl, refl, refl, omega arith)
active-facts (m ∷ ms) = ground (arith, active-facts ms)

pending_runs : (ms : List Monitor) → some_pending ms ≡ true → some_running ms ≡ true
unfolding any
pending_runs [] h = h
pending_runs (m ∷ ms) h = ground (arith, pending_runs ms)

-- With a monitor down, the page shows a partial outage if another is up or pending and a major one
-- otherwise; with none down, it is operational if one is up and none is pending, and unknown
-- otherwise.
pub calculate_status_page_status_lem :
    (ms : List Monitor)
    → calculate_status_page_status ms ≡ (
        if some_down ms
        then (if some_running ms then partial_outage else major_outage)
        else (if some_running ms && not (some_pending ms) then operational else unknown))
unfolding calculate_status_page_status
calculate_status_page_status_lem ms = ground (arith, active-facts ms, pending_runs ms)
