-- ===== src/StatusPages/Service/Public.antt =====
-- About the public view and the deletion of a page, in src/uptime_platform/status_pages.
use mathlib.Core.Path.{subst}
use uptime_platform.Base.{
  ℕ, ◌≡◌, ◌≢◌, refl, sym, ap, some_inj, String, Bool, true, false, not, Option, none, some, List,
  [], ◌∷◌, if◌then◌else◌, filter, any, map, All, All-imp, All-filter, All-filter_of, All-both, In,
  arith, inl, inr, Option-cases,
}
use uptime_platform.Base.Sort.{All-sort, sort}
use uptime_platform.Base.Dict
use uptime_platform.Base.Dict.{Dict, values, get-del}
use uptime_platform.Monitors.Entities.{Monitor}
use uptime_platform.Monitors.Repository
use uptime_platform.Monitors.Repository.{MonitorRepository}
use uptime_platform.StatusPages
use uptime_platform.StatusPages.{
  StatusPage, StatusPageMonitor, StatusPageRepository, of_page, has_key,
}
use uptime_platform.StatusPages.Service.{
  PublicStatusPageResponse, response, found_monitors, calculate_status_page_status, published_view,
  public_get,
}

-- The monitor is stored, belongs to the organization, and stands under the page.
abbrev pub IsShown :
    StatusPageRepository → MonitorRepository → (organization_id page_id : ℕ) → Monitor → Type 0
IsShown r monitors organization_id page_id m =
    (k : ℕ) × (Dict.get monitors.monitors k ≡ some m)
    × (m.organization_id ≡ organization_id)
    × (any (has_key page_id k) r.monitors ≡ true)

any-In : {A : Type 0} (p : A → Bool) (xs : List A) {x : A} → In x xs → p x ≡ true → any p xs ≡ true
unfolding any
any-In p [] i h = absurd i
any-In p (y ∷ ys) (inl e) h = ground arith
any-In p (y ∷ ys) (inr i) h = ground (arith, any-In p ys i h)

All-self : {A : Type 0} (xs ys : List A) → ((x : A) → In x ys → In x xs) → All (λ x. In x xs) ys
All-self xs [] f = tt
All-self xs (y ∷ ys) f = (f y (inl refl), All-self xs ys (λ x i. f x (inr i)))

relations-All :
    (r : StatusPageRepository) (page_id : ℕ)
    → All
        (λ l. any (has_key page_id l.monitor_id) r.monitors ≡ true)
        (StatusPages.get_monitors r page_id)
unfolding StatusPages.get_monitors
relations-All r page_id =
    All-sort _ (λ l. any (has_key page_id l.monitor_id) r.monitors ≡ true)
      (filter (of_page page_id) r.monitors)
      (All-imp (λ l h. any-In (has_key page_id l.monitor_id) r.monitors (h.1) (ground (arith, h.0)))
        (filter (of_page page_id) r.monitors)
        (All-both (λ l. of_page page_id l ≡ true) (λ l. In l r.monitors) _
          (All-filter_of (λ l. of_page page_id l ≡ true) (of_page page_id) (λ l e. e) r.monitors)
          (All-filter (λ l. In l r.monitors) (of_page page_id) r.monitors
            (All-self r.monitors r.monitors (λ x i. i)))))

found_in :
    (monitors : MonitorRepository) (organization_id k : ℕ) (m : Monitor)
    → Repository.get_by_id monitors k organization_id ≡ some m
    → (Dict.get monitors.monitors k ≡ some m) × (m.organization_id ≡ organization_id)
unfolding Repository.get_by_id
found_in monitors organization_id k m h = ground arith

-- The monitors that the lookups of a list of relations give: what a lookup finds goes in front.
abbrev in_front : Option Monitor → List Monitor → List Monitor
in_front none ms = ms
in_front (some m) ms = m ∷ ms

found_monitors-cons :
    (monitors : MonitorRepository) (organization_id : ℕ) (l : StatusPageMonitor)
    (ls : List StatusPageMonitor)
    → found_monitors monitors organization_id (l ∷ ls)
      ≡ in_front
          (Repository.get_by_id monitors l.monitor_id organization_id)
          (found_monitors monitors organization_id ls)
unfolding found_monitors
found_monitors-cons monitors organization_id l ls = ground arith

found_monitors-All :
    (r : StatusPageRepository) (monitors : MonitorRepository) (organization_id page_id : ℕ)
    (relations : List StatusPageMonitor)
    → All (λ l. any (has_key page_id l.monitor_id) r.monitors ≡ true) relations
    → All
        (IsShown r monitors organization_id page_id)
        (found_monitors monitors organization_id relations)
unfolding found_monitors
found_monitors-All r monitors org page_id [] h = tt
found_monitors-All r monitors org page_id (l ∷ ls) h =
    let rest = found_monitors-All r monitors org page_id ls (h.1) in
    subst shown (sym (found_monitors-cons monitors org l ls))
      (elim (Option-cases (Repository.get_by_id monitors l.monitor_id org)) [
        | inl e ↦ subst (λ o. shown (in_front o (found_monitors monitors org ls))) (sym e) rest
        | inr (m, e) ↦
            let (stored, owned) = found_in monitors org l.monitor_id m e in
            subst (λ o. shown (in_front o (found_monitors monitors org ls))) (sym e)
              ((l.monitor_id, stored, owned, h.0), rest)
      ])
  where
    shown : List Monitor → Type 0
    shown ms = All (IsShown r monitors org page_id) ms

opened_view :
    (published : Bool) (v w : PublicStatusPageResponse)
    → (if not published then none else some v) ≡ some w
    → (published ≡ true) × (w ≡ v)
opened_view true v w h = (refl, sym (some_inj h))
opened_view false v w h = cc

public_get-cases :
    (r : StatusPageRepository) (monitors : MonitorRepository) (slug : String)
    (view : PublicStatusPageResponse)
    → public_get r monitors slug ≡ some view
    → (page : StatusPage) × (StatusPages.get_by_slug r slug ≡ some page)
      × (page.published ≡ true)
      × (view ≡ published_view r monitors page)
unfolding public_get
public_get-cases r monitors slug view h = elim (Option-cases (StatusPages.get_by_slug r slug)) [
  | inl e ↦ absurd (cc (rw (e, public_get) at h))
  | inr (page, e) ↦
      let (shown, same) =
        opened_view page.published (published_view r monitors page) view
          (rw (e, public_get) at h) in
      (page, e, shown, same)
]

-- What the public sees under a slug is a published page with that slug; it lists only monitors
-- that are stored, belong to the page's organization and were put on the page, and the status is
-- the one of just these.
pub public_get-IsShown :
    (r : StatusPageRepository) (monitors : MonitorRepository) (slug : String)
    (view : PublicStatusPageResponse)
    → public_get r monitors slug ≡ some view
    → (page : StatusPage) × (StatusPages.get_by_slug r slug ≡ some page)
      × (page.published ≡ true)
      × ((shown : List Monitor) × (view.monitors ≡ map response shown)
          × (view.status ≡ calculate_status_page_status shown)
          × All (IsShown r monitors page.organization_id page.id) shown)
unfolding published_view
public_get-IsShown r monitors slug view h =
    let (page, found, published, e) = public_get-cases r monitors slug view h in
    (
      page,
      found,
      published,
      (
        found_monitors monitors page.organization_id (StatusPages.get_monitors r page.id),
        ap (λ v. v.monitors) e,
        ap (λ v. v.status) e,
        found_monitors-All r monitors page.organization_id page.id _ (relations-All r page.id),
      ),
    )

filter-both :
    (p q : StatusPageMonitor → Bool) (ls : List StatusPageMonitor)
    → ((l : StatusPageMonitor) → p l ≡ true → q l ≡ true)
    → filter p (filter q ls) ≡ filter p ls
unfolding filter
filter-both p q [] h = refl
filter-both p q (l ∷ ls) h = ground (arith, filter-both p q ls h, h l)

filter-none :
    (p : StatusPageMonitor → Bool) (ls : List StatusPageMonitor)
    → filter p (filter (λ l. not (p l)) ls) ≡ []
unfolding filter
filter-none p [] = refl
filter-none p (l ∷ ls) = ground (arith, filter-none p ls)

delete-eq :
    (r r' : StatusPageRepository) (page_id organization_id : ℕ)
    → StatusPages.delete r page_id organization_id ≡ (r', true)
    → (r'.pages ≡ Dict.del r.pages page_id)
      × (r'.monitors ≡ filter (λ l. not (of_page page_id l)) r.monitors)
unfolding StatusPages.delete
delete-eq r r' page_id organization_id h = ground arith

-- A deleted page is gone with all its relations, and the relations of every other page stay.
pub delete-get_monitors :
    (r r' : StatusPageRepository) (page_id organization_id other : ℕ)
    → StatusPages.delete r page_id organization_id ≡ (r', true)
    → other ≢ page_id
    → (Dict.get r'.pages page_id ≡ none)
      × (StatusPages.get_monitors r' page_id ≡ [])
      × (StatusPages.get_monitors r' other ≡ StatusPages.get_monitors r other)
unfolding StatusPages.get_monitors sort
delete-get_monitors r r' page_id organization_id other h ne =
    let (e, e') = delete-eq r r' page_id organization_id h in
    rw (e, e')
      (
        ground (arith, get-del r.pages page_id page_id),
        ap (sort _) (filter-none (of_page page_id) r.monitors),
        ap (sort _) (
            filter-both (of_page other) (λ l. not (of_page page_id l)) r.monitors
              (λ l t. ground (arith, ne))),
      )
