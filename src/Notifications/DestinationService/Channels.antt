-- ===== src/Notifications/DestinationService/Channels.antt =====
-- About the destinations of src/uptime_platform/notifications/destination_service.py as
-- notifications/factory.py meets them.
use uptime_platform.Base.{
  Bool, false, is_none, if◌then◌else◌, true, ℕ, ◌≡◌, ◌∙◌, Bool-cases, Option-cases, inl, inr, none,
  some, List, [], ◌∷◌, arith, All, All-imp,
}
use uptime_platform.Base.Result.{Result, ok, err, ValueError, Result-cases}
use uptime_platform.Base.Dict
use uptime_platform.Base.Dict.{Dict, values, All-put, All-del, get-All}
use uptime_platform.Notifications.Entities.{NotificationDestination, NotificationDestinationConfig}
use uptime_platform.Notifications.Destinations
use uptime_platform.Notifications.DestinationService.Configs.{
  IsUsable, HasChannel, create_config-type, new_config-type, create_config-IsAccepted,
  new_config-IsAccepted, IsUsable-HasChannel,
}
use uptime_platform.Notifications.DestinationService.{
  NotificationDestinationCreate, NotificationDestinationUpdate, validate_config, new_config,
  updated, create_request, create, update, update_request, validate_url, validate_new_url, delete,
}

-- The request of a route, with the organization of its context.
pub data Request : Type 0 where
  creation : (organization_id : ℕ) → NotificationDestinationCreate → (uuid4 now : ℕ) → Request
  updating : (organization_id destination_id : ℕ) → NotificationDestinationUpdate → Request
  deletion : (organization_id destination_id : ℕ) → Request

-- What a request leaves: an exception writes nothing.
abbrev kept :
    {A : Type 0}
    → Dict NotificationDestination
    → Result ValueError (Dict NotificationDestination × A)
    → Dict NotificationDestination
kept r (ok (r', _)) = r'
kept r (err e) = r

unfoldable pub step : Dict NotificationDestination → Request → Dict NotificationDestination
unfolding create_request update_request delete
step r (creation org request uuid4 now) = kept r (create_request r org request uuid4 now)
step r (updating org id request) = kept r (update_request r org id request)
step r (deletion org id) = (delete r org id).0

unfoldable pub run : Dict NotificationDestination → List Request → Dict NotificationDestination
run r [] = r
run r (q ∷ qs) = run (step r q) qs

-- What the repository holds after an update and after a delete.
update-repository :
    (r : Dict NotificationDestination) (d : NotificationDestination)
    → (Destinations.update r d).0
      ≡ (if is_none (Destinations.get_by_id r d.id d.organization_id) then r else Dict.put r d.id d)
unfolding Destinations.update
update-repository r d = ground arith

delete-repository :
    (r : Dict NotificationDestination) (id org : ℕ)
    → (Destinations.delete r id org).0
      ≡ (if is_none (Destinations.get_by_id r id org) then r else Dict.del r id)
unfolding Destinations.delete
delete-repository r id org = ground arith

if-IsUsable :
    (b : Bool) (r r' : Dict NotificationDestination)
    → All IsUsable (values r)
    → All IsUsable (values r')
    → All IsUsable (values (if b then r else r'))
if-IsUsable true r r' h h' = h
if-IsUsable false r r' h h' = h'

update-kept :
    (r : Dict NotificationDestination) (d : NotificationDestination)
    → All IsUsable (values r)
    → IsUsable d
    → All IsUsable (values (Destinations.update r d).0)
update-kept r d h t = rw (update-repository r d) (
    if-IsUsable (is_none (Destinations.get_by_id r d.id d.organization_id)) r (Dict.put r d.id d) h
      (All-put IsUsable r d.id d h t))

get_by_id-get :
    (r : Dict NotificationDestination) (id org : ℕ) (d : NotificationDestination)
    → Destinations.get_by_id r id org ≡ some d
    → Dict.get r id ≡ some d
unfolding Destinations.get_by_id
get_by_id-get r id org d h = ground arith

module _ (r : Dict NotificationDestination) (org id : ℕ)
    (request : NotificationDestinationUpdate) where
  missing-kept : Destinations.get_by_id r id org ≡ none → kept r (update r org id request) ≡ r
  unfolding update
  missing-kept e = ground arith

  module _ (d : NotificationDestination) (found : Destinations.get_by_id r id org ≡ some d) where
    refused-kept :
        (x : ValueError)
        → new_config d.config request.config ≡ err x
        → kept r (update r org id request) ≡ r
    unfolding update
    refused-kept x f = ground arith

    updated-kept :
        (config : NotificationDestinationConfig)
        → new_config d.config request.config ≡ ok config
        → kept r (update r org id request) ≡ (Destinations.update r (updated d request config)).0
    unfolding update
    updated-kept config f = ground arith

module _ (r : Dict NotificationDestination) (h : All IsUsable (values r)) where
  creation-IsUsable :
      (org : ℕ) (request : NotificationDestinationCreate) (uuid4 now : ℕ)
      → All IsUsable (values (kept r (create_request r org request uuid4 now)))
  unfolding create_request create Destinations.create
  creation-IsUsable org request uuid4 now = elim (Bool-cases (validate_url request.config)) [
    | inr e ↦ rw e h
    | inl e ↦ elim (Bool-cases (validate_config request.destination_type request.config)) [
      | inr f ↦ rw (e, f) h
      | inl f ↦
          rw (e, f)
            (All-put IsUsable r uuid4 _ h (
              create_config-type request.destination_type request.config f,
              create_config-IsAccepted request.config e,
            ))
    ]
  ]

  update-IsUsable :
      (org id : ℕ) (request : NotificationDestinationUpdate)
      → validate_new_url request.config ≡ true
      → All IsUsable (values (kept r (update r org id request)))
  update-IsUsable org id request valid = elim (Option-cases (Destinations.get_by_id r id org)) [
    | inl e ↦ rw (missing-kept r org id request e) h
    | inr (d, e) ↦ elim (Result-cases (new_config d.config request.config)) [
      | inr (x, f) ↦ rw (refused-kept r org id request d e x f) h
      | inl (config, f) ↦
          let (typed, accepted) = get-All IsUsable r id h (get_by_id-get r id org d e) in
          rw (updated-kept r org id request d e config f) (
            update-kept r (updated d request config) h (
              new_config-type d.config request.config config f ∙ typed,
              new_config-IsAccepted d.config request.config config accepted valid f,
            ))
    ]
  ]

  updating-IsUsable :
      (org id : ℕ) (request : NotificationDestinationUpdate)
      → All IsUsable (values (kept r (update_request r org id request)))
  unfolding update_request
  updating-IsUsable org id request = elim (Bool-cases (validate_new_url request.config)) [
    | inl e ↦ rw e (update-IsUsable org id request e)
    | inr e ↦ rw e h
  ]

step-IsUsable :
    (q : Request) (r : Dict NotificationDestination)
    → All IsUsable (values r)
    → All IsUsable (values (step r q))
unfolding step delete
step-IsUsable (creation org request uuid4 now) r h = creation-IsUsable r h org request uuid4 now
step-IsUsable (updating org id request) r h = updating-IsUsable r h org id request
step-IsUsable (deletion org id) r h = rw (delete-repository r id org) (
    if-IsUsable (is_none (Destinations.get_by_id r id org)) r (Dict.del r id) h
      (All-del IsUsable r id h))

run-IsUsable :
    (qs : List Request) (r : Dict NotificationDestination)
    → All IsUsable (values r)
    → All IsUsable (values (run r qs))
unfolding run
run-IsUsable [] r h = h
run-IsUsable (q ∷ qs) r h = run-IsUsable qs (step r q) (step-IsUsable q r h)

-- After any sequence of requests to create, update and delete destinations, by any organizations
-- and refused ones included, the factory makes a channel for every stored destination and never
-- raises, if the stored destinations had configurations of their types before, and Slack URLs that
-- pass the check.
pub run-HasChannel :
    (qs : List Request) (r : Dict NotificationDestination)
    → All IsUsable (values r)
    → All HasChannel (values (run r qs))
run-HasChannel qs r h = All-imp IsUsable-HasChannel (values (run r qs)) (run-IsUsable qs r h)
