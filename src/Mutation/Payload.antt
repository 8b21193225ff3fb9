-- ===== src/Mutation/Payload.antt =====
-- The payloads and the envelope of internal/mutation/mutation.go, as Decode leaves them.
use corvint_tasks.Base.{ℕ, ◌+◌, Bool, Option, List, is_some, if◌then◌else◌}
use corvint_tasks.Text.{Text}
use corvint_tasks.Wire.Decimal.{Count}
use corvint_tasks.Wire.Primitives.{Digest}
use corvint_tasks.Wire.Clock.{Timestamp}
use corvint_tasks.Wire.Ids.{QueueId, TicketId}
use corvint_tasks.Ticket.Names.{Kind, Priority, ExecutionClass, ApprovalOp}
use corvint_tasks.Ticket.Record.{Dependency, Source, Effects}
use corvint_tasks.Queue.{Operation, Role}

pub record CreatePayload : Type 0 where
  pub local_token : Option Text
  pub title : Text
  pub body : Option Text
  pub kind : Kind
  pub owner : Option Text
  pub milestone : Option Text
  pub priority : Priority
  pub order : Count
  pub labels : List Text
  pub dependencies : List Dependency
  pub acceptance_criteria : List Text
  pub requirement_refs : List Text
  pub source : Source
  pub effects : Effects
  pub capabilities : List Text
  pub required_gates : List Text
  pub execution_class : ExecutionClass
  pub due_date : Option Text
  pub estimate_minutes : Option Count
  pub supersedes : Option TicketId
  pub superseded_by : Option TicketId

-- A field is `none` where the map Present has no such key; the inner option of a nullable field is
-- its null.
pub record RefinePayload : Type 0 where
  pub title : Option Text
  pub body : Option (Option Text)
  pub kind : Option Kind
  pub owner : Option (Option Text)
  pub milestone : Option (Option Text)
  pub labels : Option (List Text)
  pub acceptance_criteria : Option (List Text)
  pub requirement_refs : Option (List Text)
  pub due_date : Option (Option Text)
  pub estimate_minutes : Option (Option Count)
  pub supersedes : Option (Option TicketId)

abbrev one_if : Bool → ℕ
one_if b = if b then 1 else 0

-- len(Present)
unfoldable pub present_count : RefinePayload → ℕ
present_count p =
    one_if (is_some p.title)
    + one_if (is_some p.body)
    + one_if (is_some p.kind)
    + one_if (is_some p.owner)
    + one_if (is_some p.milestone)
    + one_if (is_some p.labels)
    + one_if (is_some p.acceptance_criteria)
    + one_if (is_some p.requirement_refs)
    + one_if (is_some p.due_date)
    + one_if (is_some p.estimate_minutes)
    + one_if (is_some p.supersedes)

pub record GrantPayload : Type 0 where
  pub grant_id : Text
  pub actor : Text
  pub operation : ApprovalOp
  pub target_revision : Count
  pub scope : List Text

pub data Payload : Type 0 where
  create : CreatePayload → Payload
  refine : RefinePayload → Payload
  prioritize : Priority → Count → Payload
  set_dependencies : List Dependency → Payload
  set_gates : List Text → Payload
  set_effects : Effects → List Text → ExecutionClass → Payload
  hold : Text → Text → Payload
  release_hold : Text → Payload
  reason : Operation → Text → Payload
  complete_manual : Text → List Digest → Payload
  grant_approval : GrantPayload → Payload
  revoke_approval : Text → Text → Payload

-- The method `operation` of each payload.
abbrev pub operation : Payload → Operation
operation (create p) = Operation.create
operation (refine p) = Operation.refine
operation (prioritize p o) = Operation.prioritize
operation (set_dependencies ds) = Operation.set_dependencies
operation (set_gates gs) = Operation.set_gates
operation (set_effects e cs x) = Operation.set_effects
operation (hold h r) = Operation.hold
operation (release_hold h) = Operation.release_hold
operation (reason op r) = op
operation (complete_manual r e) = Operation.complete_manual
operation (grant_approval g) = Operation.grant_approval
operation (revoke_approval g r) = Operation.revoke_approval

-- The actor claim of an envelope.
pub record Actor : Type 0 where
  pub id : Text
  pub role : Role

pub record Envelope : Type 0 where
  pub request_id : Text
  pub actor : Actor
  pub queue_id : QueueId
  pub target_id : Option TicketId
  pub expected_revision : Option Count
  pub operation : Operation
  pub payload : Option Payload
  pub issued_at : Timestamp
  pub raw : Text
