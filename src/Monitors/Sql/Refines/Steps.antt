-- ===== src/Monitors/Sql/Refines/Steps.antt =====
-- About src/uptime_platform/monitors/sqlalchemy_repository.py as an implementation of the protocol
-- that monitors/in_memory_repository.py implements: one call.
use mathlib.Core.Path.{subst}
use uptime_platform.Base.{
  ℕ, ◌≡◌, refl, sym, ap, ◌∙◌, Bool, true, false, Option, none, some, arith, ◌==◌, if◌then◌else◌,
  Bool-cases, Option-cases, inl, inr, is_none, is_key, some_inj,
}
use uptime_platform.Base.Result.{Result, ok}
use uptime_platform.Base.Json.{Conversions, ConversionError}
use uptime_platform.Base.Session.{Session, IsSession, where_row}
use uptime_platform.Base.Dict
use uptime_platform.Base.Dict.{get-put, get-del}
use uptime_platform.Monitors.Entities.{Monitor, MonitorClaim}
use uptime_platform.Monitors.Repository
use uptime_platform.Monitors.Repository.{MonitorRepository}
use uptime_platform.Monitors.Service.Configs.{kind}
use uptime_platform.Monitors.Sql
use uptime_platform.Monitors.Models.{MonitorModel, new_model, with_lease, assigned}
use uptime_platform.Monitors.Sql.{entity, fenced, released, updated, belongs}
use uptime_platform.Monitors.Sql.Config.{to_entity-new_model}
use uptime_platform.Monitors.Sql.Refines.{
  row, IsStored, Refines, Call, creating, getting, locking, releasing, updating, deleting, Answer,
  found, done, answer, created, in_memory, in_sql, SameOrigin, IsAllowed,
}
use uptime_platform.Monitors.Sql.Refines.Rows.{
  one-row, read-row, getting-answer, locking-answer, written-Refines, unclaimed, unchanged,
}

module _ (lib : Conversions) {Db : Type 0} (session : Session MonitorModel Db)
    (laws : IsSession (λ model. model.id) session) (db : Db) (r : MonitorRepository)
    (related : Refines session db r) where
  -- A call is answered as the repository answers it, and the table follows.
  abbrev pub Step : Call → Type 0
  Step call =
      ((in_sql lib session db call).1 ≡ (in_memory r call).1)
      × Refines session (in_sql lib session db call).0 (in_memory r call).0

  creating-Step : (m : Monitor) → IsAllowed r (creating m) → Step (creating m)
  unfolding in_sql in_memory Sql.create Repository.create new_model
  creating-Step m (unused, t) = (
    ap created (to_entity-new_model lib m none none t),
    written-Refines lib session laws db r related m.id _ _ (some (new_model m)) (some m) none
        (laws.get-save db (new_model m)) (λ j. get-put r.monitors m.id j m)
        (λ j.
          unchanged lib session laws db r related m.id (Dict.get r.claims) none j
            (unclaimed lib session laws db r related m.id unused))
        refl (refl, t),
  )

  getting-Step : (k org : ℕ) → Step (getting k org)
  unfolding in_sql in_memory
  getting-Step k org = (ap answer (getting-answer lib session laws db r related k org), related)

  locking-Step : (k : ℕ) (org token : Option ℕ) (now : ℕ) → Step (locking k org token now)
  unfolding in_sql in_memory
  locking-Step k org token now =
      (ap answer (locking-answer lib session laws db r related k org token now), related)

  belongs-row :
      (m : Option Monitor) (c : Option MonitorClaim) (org : ℕ)
      → is_none (where_row (belongs (some org)) (row m c))
        ≡ is_none (Repository.in_organization org m)
  unfolding new_model
  belongs-row none c org = refl
  belongs-row (some m) none org = ground arith
  belongs-row (some m) (some c) org = ground arith

  deleting-Step : (k org : ℕ) → Step (deleting k org)
  unfolding in_sql in_memory Sql.delete Repository.delete
  deleting-Step k org =
      let same =
        ap is_none (one-row lib session laws db r related k (belongs (some org)))
        ∙ belongs-row (Dict.get r.monitors k) (Dict.get r.claims k) org in
      elim (Bool-cases (is_none (Repository.in_organization org (Dict.get r.monitors k)))) [
        | inl e ↦ rw (same, e) (refl, related)
        | inr e ↦
            rw (same, e)
              (
                refl,
                written-Refines lib session laws db r related k _ _ none none none
                    (λ j. laws.get-remove db k j) (λ j. get-del r.monitors k j)
                    (λ j. get-del r.claims k j) refl refl,
              )
      ]

  -- The UPDATE of a release finds a row exactly when the claim is the caller's.
  releasing-row :
      (m : Option Monitor) (c : Option MonitorClaim) (k token : ℕ)
      → IsStored k m c
      → where_row (λ model. is_key model.check_lease_token token) (row m c)
        ≡ (if Repository.not_holder c token then none else row m c)
  unfolding new_model
  releasing-row none none k token h = refl
  releasing-row none (some c) k token h = cc
  releasing-row (some m) none k token h = refl
  releasing-row (some m) (some c) k token h = ground arith

  -- The row of a monitor whose claim is the caller's.
  released-row :
      (m : Option Monitor) (c : Option MonitorClaim) (k token : ℕ)
      → IsStored k m c
      → Repository.not_holder c token ≡ false
      → (m' : Monitor) × (model : MonitorModel) × (m ≡ some m')
        × (row m c ≡ some model)
        × (model.id ≡ k)
        × (with_lease model none none ≡ new_model m')
  unfolding new_model
  released-row none none k token h e = cc
  released-row none (some c) k token h e = cc
  released-row (some m) none k token h e = cc
  released-row (some m) (some c) k token h e = (m, _, refl, refl, h.0, refl)

  step_of :
      (call : Call) (db' : Db) (r' : MonitorRepository) (a : Answer)
      → in_sql lib session db call ≡ (db', a)
      → in_memory r call ≡ (r', a)
      → Refines session db' r'
      → Step call
  step_of call db' r' a e e' h = (
    ap (λ p. p.1) e ∙ sym (ap (λ p. p.1) e'),
    subst (λ x. Refines session x (in_memory r call).0) (sym (ap (λ p. p.0) e))
        (subst (Refines session db') (sym (ap (λ p. p.0) e')) h),
  )

  -- A monitor is stored as it was when its claim goes.
  still :
      (k : ℕ) (m : Option Monitor) (m' : Monitor) (c : Option MonitorClaim)
      → m ≡ some m'
      → IsStored k m c
      → IsStored k (some m') none
  still k none m' c e h = cc
  still k (some m) m' c e h = subst (λ x. IsStored k (some x) none) (some_inj e) h

  abbrev sql_done : Db × Bool → Db × Answer
  sql_done (db', b) = (db', done b)

  abbrev mem_done : MonitorRepository × Bool → MonitorRepository × Answer
  mem_done (r', b) = (r', done b)

  releasing-Step : (k token : ℕ) → Step (releasing k token)
  unfolding in_sql in_memory Sql.release_check_lease Repository.release_check_lease
  releasing-Step k token =
      let m = Dict.get r.monitors k in
      let c = Dict.get r.claims k in
      let one =
        one-row lib session laws db r related k (λ model. is_key model.check_lease_token token)
        ∙ releasing-row m c k token (related.stored k) in
      elim (Bool-cases (Repository.not_holder c token)) [
        | inl e ↦ rw (one, e) (refl, related)
        | inr e ↦
            let (m', model, em, er, id, clean) = released-row m c k token (related.stored k) e in
            step_of (releasing k token) (session.save db (with_lease model none none))
              (record r { claims = Dict.del r.claims k }) (done true)
              (ap (λ o. sql_done (released lib session db o))
                (one ∙ ap (λ b. if b then none else row m c) e ∙ er))
              (ap
                (λ b.
                  mem_done
                    (if b then (r, false) else (record r { claims = Dict.del r.claims k }, true)))
                e)
              (written-Refines lib session laws db r related k _ _
                (some (with_lease model none none)) (some m') none
                (λ j.
                  laws.get-save db (with_lease model none none) j
                  ∙ ap (λ i. if i == j then some (with_lease model none none) else session.get db j)
                      id)
                (λ j.
                  unchanged lib session laws db r related k (Dict.get r.monitors) (some m') j em)
                (λ j. get-del r.claims k j) (ap some clean)
                (still k (Dict.get r.monitors k) m' (Dict.get r.claims k) em (related.stored k)))
      ]

  assigned-row :
      (m old : Monitor) (c : Option MonitorClaim) (model : MonitorModel)
      → row (some old) c ≡ some model
      → m.id ≡ old.id
      → m.organization_id ≡ old.organization_id
      → m.created_at ≡ old.created_at
      → some (assigned model m) ≡ row (some m) c
  unfolding new_model assigned
  assigned-row m old none model e i o t = ground arith
  assigned-row m old (some c) model e i o t = ground arith

  row-some :
      (m : Monitor) (c : Option MonitorClaim)
      → (model : MonitorModel) × (row (some m) c ≡ some model)
  row-some m none = (_, refl)
  row-some m (some c) = (_, refl)

  entity-row :
      (m : Monitor) (c : Option MonitorClaim)
      → kind m.config ≡ m.monitor_type
      → entity lib session (row (some m) c) ≡ ok (some m)
  unfolding new_model
  entity-row m none t = read-row lib session laws db r related m none none t
  entity-row m (some c) t =
      read-row lib session laws db r related m (some c.token) (some c.expires_at) t

  abbrev sql_found : Db × Result ConversionError (Option Monitor) → Db × Answer
  sql_found (db', m) = (db', answer m)

  abbrev mem_found : MonitorRepository × Option Monitor → MonitorRepository × Answer
  mem_found (r', m) = (r', found m)

  updating_stored :
      (m old : Monitor)
      → Dict.get r.monitors m.id ≡ some old
      → kind m.config ≡ m.monitor_type
      → m.organization_id ≡ old.organization_id
      → m.created_at ≡ old.created_at
      → Step (updating m)
  unfolding in_sql in_memory Sql.update Repository.update assigned
  updating_stored m old held t same_org same_time =
      let c = Dict.get r.claims m.id in
      let (model, em) = row-some old c in
      let held_row = related.rows m.id ∙ ap (λ x. row x c) held ∙ em in
      let stored = subst (λ x. IsStored m.id x c) held (related.stored m.id) in
      let assigned_row = assigned-row m old c model em (sym (stored.0)) same_org same_time in
      let r' = record r { monitors = Dict.put r.monitors m.id m } in
      step_of (updating m) (session.save db (assigned model m)) r' (found (some m))
        (ap (λ o. sql_found (updated lib session db o m)) held_row
          ∙ ap (λ x. (session.save db (assigned model m), answer x))
              (ap (entity lib session) assigned_row ∙ entity-row m c t))
        (ap (λ x. mem_found (if is_none x then (r, none) else (r', some m))) held)
        (written-Refines lib session laws db r related m.id _ _ (some (assigned model m)) (some m) c
          (λ j.
            laws.get-save db (assigned model m) j
            ∙ ap (λ i. if i == j then some (assigned model m) else session.get db j)
                (laws.get-id db m.id model held_row))
          (λ j. get-put r.monitors m.id j m)
          (λ j. unchanged lib session laws db r related m.id (Dict.get r.claims) c j refl)
          assigned_row (refl, t))

  updating_missing : (m : Monitor) → Dict.get r.monitors m.id ≡ none → Step (updating m)
  unfolding in_sql in_memory Sql.update Repository.update
  updating_missing m missing =
      step_of (updating m) db r (found none)
        (ap (λ o. sql_found (updated lib session db o m))
          (related.rows m.id ∙ ap (λ x. row x (Dict.get r.claims m.id)) missing))
        (ap
          (λ x. mem_found (
            if is_none x
            then (r, none)
            else (record r { monitors = Dict.put r.monitors m.id m }, some m)))
          missing)
        related

  pub call-Step : (call : Call) → IsAllowed r call → Step call
  call-Step (creating m) h = creating-Step m h
  call-Step (getting k org) h = getting-Step k org
  call-Step (locking k org token now) h = locking-Step k org token now
  call-Step (releasing k token) h = releasing-Step k token
  call-Step (deleting k org) h = deleting-Step k org
  call-Step (updating m) (t, origin) = elim (Option-cases (Dict.get r.monitors m.id)) [
    | inl e ↦ updating_missing m e
    | inr (old, e) ↦
        let (same_org, same_time) = subst (SameOrigin m) e origin in
        updating_stored m old e t same_org same_time
  ]
