-- ===== src/Ticket/Record.antt =====
-- The record of internal/ticket/record.go, and its rendering as a canonical value.
use corvint_tasks.Base.{Bool, Option, none, some, List, [], ◌∷◌, map}
use corvint_tasks.Text.{Text, txt}
use corvint_tasks.Wire.Decimal.{Count, count_of}
use corvint_tasks.Wire.Primitives.{Digest}
use corvint_tasks.Wire.Clock.{Timestamp}
use corvint_tasks.Wire.Ids.{TicketId}
use corvint_tasks.Wire.Value.{Value, null, bool, str, array, string_or_null, object}
use corvint_tasks.Wire.Encode.{encode_file}
use corvint_tasks.Ticket.Names.{
  Status, Kind, Priority, ExecutionClass, Obligation, Coverage, ResourceClass, SourceKind,
  CompletionKind, ApprovalOp, status_name, kind_name, priority_name, execution_class_name,
  obligation_name, coverage_name, resource_class_name, source_kind_name, completion_kind_name,
  approval_op_name,
}

pub record Dependency : Type 0 where
  pub ticket_id : TicketId
  pub obligation : Obligation
  pub gate_id : Option Text

pub record Source : Type 0 where
  pub kind : SourceKind
  pub source_queue_id : Text
  pub source_item_id : Option Text
  pub source_revision_sha256 : Option Digest

pub record Resource : Type 0 where
  pub class : ResourceClass
  pub key : Text

pub record Effects : Type 0 where
  pub coverage : Coverage
  pub touch_paths : List Text
  pub resources : List Resource
  pub external_unbounded : Bool

pub record Hold : Type 0 where
  pub hold_id : Text
  pub actor : Text
  pub reason : Text
  pub placed_at : Timestamp

pub record Approval : Type 0 where
  pub grant_id : Text
  pub actor : Text
  pub operation : ApprovalOp
  pub target_revision : Count
  pub scope : List Text
  pub revoked : Bool
  pub granted_at : Timestamp

pub record Completion : Type 0 where
  pub kind : CompletionKind
  pub actor : Text
  pub reason : Option Text
  pub evidence : List Digest
  pub manifest_sha256 : Option Digest
  pub recorded_at : Timestamp

pub record Record : Type 0 where
  pub ticket_id : TicketId
  pub revision : Count
  pub acceptance_revision : Count
  pub previous_record_sha256 : Option Digest
  pub status : Status
  pub archived_from : Option Status
  pub title : Text
  pub body : Option Text
  pub kind : Kind
  pub owner : Option Text
  pub milestone : Option Text
  pub priority : Priority
  pub order : Count
  pub labels : List Text
  pub dependencies : List Dependency
  pub acceptance_criteria : List Text
  pub requirement_refs : List Text
  pub source : Source
  pub effects : Effects
  pub capabilities : List Text
  pub required_gates : List Text
  pub holds : List Hold
  pub execution_class : ExecutionClass
  pub approvals : List Approval
  pub completion : Option Completion
  pub due_date : Option Text
  pub estimate_minutes : Option Count
  pub supersedes : Option TicketId
  pub superseded_by : Option TicketId
  pub shadow_overlay : Bool
  pub created_at : Timestamp
  pub updated_at : Timestamp
  pub updated_by : Text

abbrev pub strings : List Text → Value
strings ss = array (map (λ s. str s) ss)

abbrev pub count_or_null : Option Count → Value
count_or_null none = null
count_or_null (some n) = str (count_of n)

abbrev pub ticket_or_null : Option TicketId → Value
ticket_or_null none = null
ticket_or_null (some t) = str t.raw

abbrev pub status_or_null : Option Status → Value
status_or_null none = null
status_or_null (some s) = str (status_name s)

-- The values of the nested objects, as Record.Value builds them.
unfoldable pub dependency_value : Dependency → Value
unfolding object
dependency_value d = object (
    (txt "ticketId", str d.ticket_id.raw)
    ∷ (txt "obligation", str (obligation_name d.obligation))
    ∷ (txt "gateId", string_or_null d.gate_id)
    ∷ [])

unfoldable pub source_value : Source → Value
unfolding object
source_value s = object (
    (txt "kind", str (source_kind_name s.kind))
    ∷ (txt "sourceQueueId", str s.source_queue_id)
    ∷ (txt "sourceItemId", string_or_null s.source_item_id)
    ∷ (txt "sourceRevisionSha256", string_or_null s.source_revision_sha256)
    ∷ [])

unfoldable pub resource_value : Resource → Value
unfolding object
resource_value r =
    object ((txt "class", str (resource_class_name r.class)) ∷ (txt "key", str r.key) ∷ [])

unfoldable pub effects_value : Effects → Value
unfolding object resource_value array
effects_value e = object (
    (txt "coverage", str (coverage_name e.coverage))
    ∷ (txt "touchPaths", strings e.touch_paths)
    ∷ (txt "resources", array (map resource_value e.resources))
    ∷ (txt "externalUnbounded", bool e.external_unbounded)
    ∷ [])

unfoldable pub hold_value : Hold → Value
unfolding object
hold_value h = object (
    (txt "holdId", str h.hold_id)
    ∷ (txt "actor", str h.actor)
    ∷ (txt "reason", str h.reason)
    ∷ (txt "placedAt", str h.placed_at)
    ∷ [])

unfoldable pub approval_value : Approval → Value
unfolding object count_of array
approval_value a = object (
    (txt "grantId", str a.grant_id)
    ∷ (txt "actor", str a.actor)
    ∷ (txt "operation", str (approval_op_name a.operation))
    ∷ (txt "targetRevision", str (count_of a.target_revision))
    ∷ (txt "scope", strings a.scope)
    ∷ (txt "revoked", bool a.revoked)
    ∷ (txt "grantedAt", str a.granted_at)
    ∷ [])

unfoldable pub completion_value : Option Completion → Value
unfolding object array
completion_value none = null
completion_value (some c) = object (
    (txt "kind", str (completion_kind_name c.kind))
    ∷ (txt "actor", str c.actor)
    ∷ (txt "reason", string_or_null c.reason)
    ∷ (txt "evidence", strings c.evidence)
    ∷ (txt "manifestSha256", string_or_null c.manifest_sha256)
    ∷ (txt "recordedAt", str c.recorded_at)
    ∷ [])

-- The values of the fields whose change bumps acceptanceRevision (AcceptanceRelevantFields), in the
-- order of that list.
unfoldable pub acceptance_values : Record → List Value
unfolding dependency_value source_value effects_value array
acceptance_values rec =
    str (kind_name rec.kind)
    ∷ strings rec.acceptance_criteria
    ∷ strings rec.requirement_refs
    ∷ array (map dependency_value rec.dependencies)
    ∷ strings rec.required_gates
    ∷ effects_value rec.effects
    ∷ strings rec.capabilities
    ∷ str (execution_class_name rec.execution_class)
    ∷ ticket_or_null rec.supersedes
    ∷ source_value rec.source
    ∷ []

-- Record.Value
unfoldable pub record_value : Record → Value
unfolding object dependency_value source_value effects_value hold_value approval_value
    completion_value count_of array
record_value rec = object (
    (txt "profile", str (txt "taskman-ticket/0"))
    ∷ (txt "ticketId", str rec.ticket_id.raw)
    ∷ (txt "revision", str (count_of rec.revision))
    ∷ (txt "acceptanceRevision", str (count_of rec.acceptance_revision))
    ∷ (txt "previousRecordSha256", string_or_null rec.previous_record_sha256)
    ∷ (txt "status", str (status_name rec.status))
    ∷ (txt "archivedFrom", status_or_null rec.archived_from)
    ∷ (txt "title", str rec.title)
    ∷ (txt "body", string_or_null rec.body)
    ∷ (txt "kind", str (kind_name rec.kind))
    ∷ (txt "owner", string_or_null rec.owner)
    ∷ (txt "milestone", string_or_null rec.milestone)
    ∷ (txt "priority", str (priority_name rec.priority))
    ∷ (txt "order", str (count_of rec.order))
    ∷ (txt "labels", strings rec.labels)
    ∷ (txt "dependencies", array (map dependency_value rec.dependencies))
    ∷ (txt "acceptanceCriteria", strings rec.acceptance_criteria)
    ∷ (txt "requirementRefs", strings rec.requirement_refs)
    ∷ (txt "source", source_value rec.source)
    ∷ (txt "effects", effects_value rec.effects)
    ∷ (txt "capabilities", strings rec.capabilities)
    ∷ (txt "requiredGates", strings rec.required_gates)
    ∷ (txt "holds", array (map hold_value rec.holds))
    ∷ (txt "executionClass", str (execution_class_name rec.execution_class))
    ∷ (txt "approvals", array (map approval_value rec.approvals))
    ∷ (txt "completion", completion_value rec.completion)
    ∷ (txt "dueDate", string_or_null rec.due_date)
    ∷ (txt "estimateMinutes", count_or_null rec.estimate_minutes)
    ∷ (txt "supersedes", ticket_or_null rec.supersedes)
    ∷ (txt "supersededBy", ticket_or_null rec.superseded_by)
    ∷ (txt "shadowOverlay", bool rec.shadow_overlay)
    ∷ (txt "createdAt", str rec.created_at)
    ∷ (txt "updatedAt", str rec.updated_at)
    ∷ (txt "updatedBy", str rec.updated_by)
    ∷ [])

-- Record.Encode
unfoldable pub record_bytes : Record → Text
unfolding record_value encode_file
record_bytes rec = encode_file (record_value rec)

-- Record.EffectiveStatus
unfoldable pub effective_status : Record → Status
effective_status rec = elim rec.archived_from [ some s ↦ s | none ↦ rec.status ]
