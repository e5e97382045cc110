-- ===== src/Outbox.antt =====
-- The outbox package: src/uptime_platform/outbox/{entities,in_memory_repository}.py.
use uptime_platform.Base.{ℕ, Option, none, some, List, leb, if◌then◌else◌, is_none, filter, take}
use uptime_platform.Base.Sort.{sort}
use uptime_platform.Base.Dict
use uptime_platform.Base.Dict.{Dict, values}

pub data OutboxEventType : Type 0 where
  incident_opened incident_resolved : OutboxEventType

pub record OutboxEvent (Payload : Type 0) : Type 0 where
  pub id : ℕ
  pub organization_id : ℕ
  pub event_type : OutboxEventType
  pub payload : Payload
  pub created_at : ℕ
  pub processed_at : Option ℕ

module _ {Payload : Type 0} where
  unfoldable pub create :
      Dict (OutboxEvent Payload) → OutboxEvent Payload → Dict (OutboxEvent Payload)
  create r event = Dict.put r event.id event

  unfoldable pub get_by_id : Dict (OutboxEvent Payload) → ℕ → Option (OutboxEvent Payload)
  get_by_id r event_id = Dict.get r event_id

  unfoldable pub claim_pending : Dict (OutboxEvent Payload) → ℕ → List (OutboxEvent Payload)
  claim_pending r limit = take limit (
      sort (λ e f. leb e.created_at f.created_at) (filter (λ e. is_none e.processed_at) (values r)))

  unfoldable pub update :
      Dict (OutboxEvent Payload)
      → OutboxEvent Payload
      → Dict (OutboxEvent Payload) × Option (OutboxEvent Payload)
  update r event =
      if is_none (Dict.get r event.id) then (r, none) else (Dict.put r event.id event, some event)
