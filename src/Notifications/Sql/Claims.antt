-- ===== src/Notifications/Sql/Claims.antt =====
-- About `claim_pending` of src/uptime_platform/notifications/sqlalchemy_repository.py.
use uptime_platform.Base.{
  ltb, leb, ◌||◌, ℕ, suc, ◌+◌, ◌-◌, ◌≤◌, ◌≡◌, refl, sym, ap, ◌∙◌, Bool, true, false, some, some_inj,
  List, [], ◌∷◌, arith, if◌then◌else◌, take,
}
use uptime_platform.Base.Result.{Result, ok, err, ValueError, value_error}
use uptime_platform.Base.Session.{Session, IsSession, Selectable, select-IsFirst}
use uptime_platform.Base.Selection.{IsOrder, IsFirst-unique, IsFirst-same}
use uptime_platform.Base.Selected.{Passing, take-IsFirst}
use uptime_platform.Base.Dict
use uptime_platform.Base.Dict.{Dict}
use uptime_platform.Notifications.Entities.{NotificationDelivery}
use uptime_platform.Notifications.Deliveries
use uptime_platform.Notifications.Deliveries.Leases.{IsWellFormed}
use uptime_platform.Notifications.Sql
use uptime_platform.Notifications.Sql.{
  NotificationDeliveryModel, is_pending, attempt_before, claim_pending,
}
use uptime_platform.Notifications.Sql.Refines.{Refines, Same, save-Refines}

-- The two `is_pending` read the conditions in another order.
is_pending-same :
    (ex : List ℕ) (max_attempts now : ℕ) (d : NotificationDelivery)
    → is_pending ex max_attempts now d ≡ Deliveries.is_pending ex max_attempts now d
unfolding is_pending Deliveries.is_pending
is_pending-same ex max_attempts now d = ground arith

attempt_before-IsOrder : IsOrder (λ d. d.id) attempt_before
attempt_before-IsOrder = record {
  total = λ x y h. ground arith;
  trans = λ x y z h k. ground arith;
  anti = λ x y h k. ground arith;
}

-- The check of the arguments does not depend on how much longer a positive lease is.
longer :
    (limit max_attempts lease more : ℕ)
    → 1 ≤ lease
    → (ltb limit 1 || ltb max_attempts 1 || leb (lease + more) 0)
      ≡ (ltb limit 1 || ltb max_attempts 1 || leb lease 0)
longer limit max_attempts lease more h = ground arith

module _ {Db : Type 0} (session : Session NotificationDeliveryModel Db)
    (laws : IsSession (λ d. d.id) session) where
  claim_each-Same :
      (uuid4 : ℕ → ℕ) (i until : ℕ) (ds : List NotificationDelivery) (db : Db)
      (r : Dict NotificationDelivery)
      → Refines session laws db r
      → Same session laws
          (Sql.claim_each session uuid4 i until ds db)
          (Deliveries.claim_each uuid4 i until ds r)
  unfolding Sql.claim_each Deliveries.claim_each
  claim_each-Same uuid4 i until [] db r related = (refl, related)
  claim_each-Same uuid4 i until (d ∷ ds) db r related =
      let c = record d { locked_until = some until; lease_token = some (uuid4 i) } in
      let (same, related') =
        claim_each-Same uuid4 (suc i) until ds (session.save db c) (Dict.put r d.id c)
          (save-Refines session laws db r d.id c refl related) in
      (ap (λ xs. c ∷ xs) same, related')

  -- Both raise, or both claim the same, and the table still has the deliveries.
  abbrev pub SameClaims :
      Result ValueError (Db × List NotificationDelivery)
      → Result ValueError (Dict NotificationDelivery × List NotificationDelivery)
      → Type 0
  SameClaims (ok p) (ok q) = Same session laws p q
  SameClaims (err e) (err f) = Unit
  SameClaims p q = ⊥

  checked-SameClaims :
      (b : Bool) (p : Db × List NotificationDelivery)
      (q : Dict NotificationDelivery × List NotificationDelivery)
      → Same session laws p q
      → SameClaims (if b then err value_error else ok p) (if b then err value_error else ok q)
  checked-SameClaims true p q same = tt
  checked-SameClaims false p q same = same

  module _ (db : Db) (r : Dict NotificationDelivery) (wf : IsWellFormed r)
      (related : Refines session laws db r) where
    -- The statement selects what the slice of the sorted comprehension has.
    select-take :
        (limit max_attempts : ℕ) (ex : List ℕ) (read_at : ℕ)
        → session.select db (is_pending ex max_attempts read_at) attempt_before (some limit)
          ≡ take limit (Deliveries.pending_list r ex max_attempts read_at)
    unfolding Deliveries.attempt_before
    select-take limit max_attempts ex read_at =
        let p = is_pending ex max_attempts read_at in
        let q = Deliveries.is_pending ex max_attempts read_at in
        IsFirst-unique (λ d. d.id) attempt_before attempt_before-IsOrder
          (Selectable session (λ d. d.id) db p) limit _ _
          (λ x y h k e. some_inj (sym h.1 ∙ ap (session.get db) e ∙ k.1))
          (select-IsFirst (λ d. d.id) session laws db p attempt_before limit attempt_before-IsOrder)
          (IsFirst-same (λ d. d.id) attempt_before
            (Passing (λ d. d.id) attempt_before attempt_before-IsOrder q r wf)
            (Selectable session (λ d. d.id) db p) limit _
            (λ d h. (is_pending-same ex max_attempts read_at d ∙ h.0, related d.id ∙ h.1))
            (λ d h.
              (sym (is_pending-same ex max_attempts read_at d) ∙ h.0, sym (related d.id) ∙ h.1))
            (take-IsFirst (λ d. d.id) attempt_before attempt_before-IsOrder q r wf limit))

  -- Over a table that has just the deliveries of an in-memory repository, in which each is under its
  -- id, `claim_pending` with a positive lease does what the repository does at the statement's
  -- reading of the clock: with a limit or a number of attempts that is 0 both raise, and otherwise
  -- they claim the same deliveries in the same order, with the same leases, and have the same
  -- deliveries then. The repository's lease is longer by the time from that reading to the one after
  -- the statement. The session does what its laws say.
  pub claim_pending-refined :
      (db : Db) (r : Dict NotificationDelivery) (limit max_attempts lease : ℕ) (ex : List ℕ)
      (read_at now : ℕ) (uuid4 : ℕ → ℕ)
      → IsWellFormed r
      → Refines session laws db r
      → 1 ≤ lease
      → read_at ≤ now
      → SameClaims
          (claim_pending session db limit max_attempts lease ex read_at now uuid4)
          (Deliveries.claim_pending r limit max_attempts (lease + (now - read_at)) ex read_at uuid4)
  unfolding claim_pending Deliveries.claim_pending
  claim_pending-refined db r limit max_attempts lease ex read_at now uuid4 wf related h order =
      let until : read_at + (lease + (now - read_at)) ≡ now + lease = omega (arith, order) in
      rw
        (
          select-take db r wf related limit max_attempts ex read_at,
          longer limit max_attempts lease (now - read_at) h,
          until,
        )
        (checked-SameClaims (ltb limit 1 || ltb max_attempts 1 || leb lease 0) _ _ (
          claim_each-Same uuid4 0 (now + lease)
            (take limit (Deliveries.pending_list r ex max_attempts read_at)) db r related))
