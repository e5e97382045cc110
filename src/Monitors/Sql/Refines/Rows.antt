-- ===== src/Monitors/Sql/Refines/Rows.antt =====
-- About src/uptime_platform/monitors/sqlalchemy_repository.py as an implementation of the protocol
-- that monitors/in_memory_repository.py implements: what a lookup reads, and a write
-- under one key.
use mathlib.Core.Path.{subst}
use uptime_platform.Base.{
  ℕ, ◌≡◌, refl, sym, ap, ◌∙◌, Bool, Option, none, some, arith, ◌==◌, if◌then◌else◌, ==_iff,
  Bool-cases, inl, inr,
}
use uptime_platform.Base.Result.{ok}
use uptime_platform.Base.Json.{Conversions}
use uptime_platform.Base.Session.{Session, IsSession, where_row}
use uptime_platform.Base.Dict
use uptime_platform.Base.Dict.{get-put, get-del}
use uptime_platform.Monitors.Entities.{Monitor, MonitorClaim}
use uptime_platform.Monitors.Repository
use uptime_platform.Monitors.Repository.{MonitorRepository}
use uptime_platform.Monitors.Service.Configs.{kind}
use uptime_platform.Monitors.Sql
use uptime_platform.Monitors.Models.{MonitorModel, new_model, with_lease, to_entity}
use uptime_platform.Monitors.Sql.{entity, fenced, released, updated, belongs}
use uptime_platform.Monitors.Sql.Config.{to_entity-new_model}
use uptime_platform.Monitors.Sql.Refines.{row, IsStored, Refines}

module _ (lib : Conversions) {Db : Type 0} (session : Session MonitorModel Db)
    (laws : IsSession (λ model. model.id) session) (db : Db) (r : MonitorRepository)
    (related : Refines session db r) where
  pub one-row :
      (k : ℕ) (p : MonitorModel → Bool)
      → session.one db k p ≡ where_row p (row (Dict.get r.monitors k) (Dict.get r.claims k))
  one-row k p = laws.one-get db k p ∙ ap (where_row p) (related.rows k)

  pub read-row :
      (m : Monitor) (token until : Option ℕ)
      → kind m.config ≡ m.monitor_type
      → entity lib session (some (with_lease (new_model m) token until)) ≡ ok (some m)
  unfolding to_entity
  read-row m token until t = rw (to_entity-new_model lib m token until t) refl

  getting-row :
      (m : Option Monitor) (c : Option MonitorClaim) (k org : ℕ)
      → IsStored k m c
      → entity lib session (where_row (belongs (some org)) (row m c))
        ≡ ok (Repository.in_organization org m)
  unfolding new_model
  getting-row none c k org h = refl
  getting-row (some m) none k org h = ground (arith, read-row m none none (h.1))
  getting-row (some m) (some c) k org h =
      ground (arith, read-row m (some c.token) (some c.expires_at) (h.1))

  locking-row :
      (m : Option Monitor) (c : Option MonitorClaim) (k : ℕ) (org token : Option ℕ) (now : ℕ)
      → IsStored k m c
      → entity lib session (fenced lib session (where_row (belongs org) (row m c)) token now)
        ≡ ok (
            if Repository.lease_refused c token now
            then none
            else Repository.in_optional_organization org m)
  unfolding new_model
  locking-row none c k org token now h = ground arith
  locking-row (some m) none k org token now h = ground (arith, read-row m none none (h.1))
  locking-row (some m) (some c) k org token now h =
      ground (arith, read-row m (some c.token) (some c.expires_at) (h.1))

  pub getting-answer :
      (k org : ℕ) → Sql.get_by_id lib session db k org ≡ ok (Repository.get_by_id r k org)
  unfolding Sql.get_by_id Repository.get_by_id
  getting-answer k org =
      ap (entity lib session) (one-row k (belongs (some org)))
      ∙ getting-row (Dict.get r.monitors k) (Dict.get r.claims k) k org (related.stored k)

  pub locking-answer :
      (k : ℕ) (org token : Option ℕ) (now : ℕ)
      → Sql.get_by_id_for_update lib session db k org token now
        ≡ ok (Repository.get_by_id_for_update r k org token now)
  unfolding Sql.get_by_id_for_update Repository.get_by_id_for_update
  locking-answer k org token now =
      ap (λ found. entity lib session (fenced lib session found token now))
        (one-row k (belongs org))
      ∙ locking-row (Dict.get r.monitors k) (Dict.get r.claims k) k org token now (related.stored k)

  -- A row that is as the repository has it, and what is stored with it.
  abbrev RefinesAt : Db → MonitorRepository → ℕ → Type 0
  RefinesAt db' r' j =
      (session.get db' j ≡ row (Dict.get r'.monitors j) (Dict.get r'.claims j))
      × IsStored j (Dict.get r'.monitors j) (Dict.get r'.claims j)

  at_key :
      (db' : Db) (r' : MonitorRepository) (model : Option MonitorModel) (m : Option Monitor)
      (c : Option MonitorClaim) (j : ℕ)
      → session.get db' j ≡ model
      → Dict.get r'.monitors j ≡ m
      → Dict.get r'.claims j ≡ c
      → model ≡ row m c
      → IsStored j m c
      → RefinesAt db' r' j
  at_key db' r' model m c j held monitor claim same stored = (
    held ∙ same ∙ sym (ap (λ x. row x (Dict.get r'.claims j)) monitor ∙ ap (row m) claim),
    subst (λ x. IsStored j x (Dict.get r'.claims j)) (sym monitor)
        (subst (IsStored j m) (sym claim) stored),
  )

  -- A write under one key, on both sides.
  pub written-Refines :
      (k : ℕ) (db' : Db) (r' : MonitorRepository) (model : Option MonitorModel) (m : Option Monitor)
      (c : Option MonitorClaim)
      → ((j : ℕ) → session.get db' j ≡ (if k == j then model else session.get db j))
      → ((j : ℕ) → Dict.get r'.monitors j ≡ (if k == j then m else Dict.get r.monitors j))
      → ((j : ℕ) → Dict.get r'.claims j ≡ (if k == j then c else Dict.get r.claims j))
      → model ≡ row m c
      → IsStored k m c
      → Refines session db' r'
  written-Refines k db' r' model m c rows monitors claims same stored =
      let at : (j : ℕ) → RefinesAt db' r' j = λ j. elim (Bool-cases (k == j)) [
        | inl e ↦
            at_key db' r' model m c j (rows j ∙ ap (λ b. if b then model else session.get db j) e)
              (monitors j ∙ ap (λ b. if b then m else Dict.get r.monitors j) e)
              (claims j ∙ ap (λ b. if b then c else Dict.get r.claims j) e) same
              (subst (λ i. IsStored i m c) ((==_iff k j).0 e) stored)
        | inr e ↦
            at_key db' r' (session.get db j) (Dict.get r.monitors j) (Dict.get r.claims j) j
              (rows j ∙ ap (λ b. if b then model else session.get db j) e)
              (monitors j ∙ ap (λ b. if b then m else Dict.get r.monitors j) e)
              (claims j ∙ ap (λ b. if b then c else Dict.get r.claims j) e) (related.rows j)
              (related.stored j)
      ] in
      record { rows = λ j. (at j).0; stored = λ j. (at j).1 }

  pub unclaimed : (k : ℕ) → Dict.get r.monitors k ≡ none → Dict.get r.claims k ≡ none
  unclaimed k e = subst (λ m. IsStored k m (Dict.get r.claims k)) e (related.stored k)

  pub unchanged :
      (k : ℕ) {V : Type 0} (f : ℕ → V) (v : V) (j : ℕ) → f k ≡ v → f j ≡ (if k == j then v else f j)
  unchanged k f v j e = elim (Bool-cases (k == j)) [
    | inl t ↦ rw t (sym (ap f ((==_iff k j).0 t)) ∙ e)
    | inr t ↦ rw t refl
  ]
