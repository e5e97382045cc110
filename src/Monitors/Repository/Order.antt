-- ===== src/Monitors/Repository/Order.antt =====
-- About the order in which `claim_due` of
-- src/uptime_platform/monitors/in_memory_repository.py takes the due monitors.
use uptime_platform.Base.{
  ℕ, suc, ◌+◌, ◌≡◌, refl, ◌∙◌, ap, Bool, true, false, List, [], ◌∷◌, arith, filter, take, drop,
  count, count-take-add-drop, All,
}
use uptime_platform.Base.Sort.{sort-IsSorted, count-sort, take-before-drop}
use uptime_platform.Base.Result.{ok}
use uptime_platform.Base.Dict.{values}
use uptime_platform.Monitors.Entities.{Monitor, MonitorClaim}
use uptime_platform.Monitors.Repository.{
  MonitorRepository, make_claims, due_list, is_due, due_before, claim_due,
}
use uptime_platform.Monitors.Repository.Leases.{claim_due-eq-ok}

due_before_total : (m n : Monitor) → due_before m n ≡ false → due_before n m ≡ true
unfolding due_before
due_before_total m n h = ground arith

due_before_trans :
    (l m n : Monitor) → due_before l m ≡ true → due_before m n ≡ true → due_before l n ≡ true
unfolding due_before
due_before_trans l m n h k = ground arith

abbrev pub claimed_monitors : List MonitorClaim → List Monitor
claimed_monitors [] = []
claimed_monitors (c ∷ cs) = c.monitor ∷ claimed_monitors cs

claimed_monitors-make_claims :
    (uuid4 : ℕ → ℕ) (i lease_grace now : ℕ) (ms : List Monitor)
    → claimed_monitors (make_claims uuid4 i lease_grace now ms) ≡ ms
unfolding make_claims
claimed_monitors-make_claims uuid4 i g now [] = refl
claimed_monitors-make_claims uuid4 i g now (m ∷ ms) =
    ap (λ l. m ∷ l) (claimed_monitors-make_claims uuid4 (suc i) g now ms)

-- The due monitors are the claimed ones and a rest, and each claimed one stands before each of the
-- rest in the order by next check and identifier.
pub claim_due_priority :
    (r r' : MonitorRepository) (limit lease_grace : ℕ) (exclude_ids : List ℕ) (now : ℕ)
    (uuid4 : ℕ → ℕ) (claims : List MonitorClaim)
    → claim_due r limit lease_grace exclude_ids now uuid4 ≡ ok (r', claims)
    → (rest : List Monitor) × ((p : Monitor → Bool)
        → count p (claimed_monitors claims) + count p rest
          ≡ count p (filter (is_due r exclude_ids now) (values r.monitors)))
      × All (λ m. All (λ c. due_before c m ≡ true) (claimed_monitors claims)) rest
claim_due_priority r r' limit g ex now uuid4 claims h =
    let due = due_list r ex now in
    let (e, _) = claim_due-eq-ok r limit g ex now uuid4 r' claims h in
    rw (e, claimed_monitors-make_claims uuid4 0 g now (take limit due))
      (
        drop limit due,
        (λ p.
            count-take-add-drop p limit due
            ∙ count-sort due_before p (filter (is_due r ex now) (values r.monitors))),
        take-before-drop due_before limit due (
            sort-IsSorted due_before due_before_total due_before_trans
              (filter (is_due r ex now) (values r.monitors))),
      )
