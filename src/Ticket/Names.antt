-- ===== src/Ticket/Names.antt =====
-- The closed vocabularies of internal/ticket/record.go. Decode admits no other value (Reader.Enum),
-- so each vocabulary is a data type, and the strings are written back by the functions below.
use corvint_tasks.Base.{Bool, true, false}
use corvint_tasks.Text.{Text, txt}

pub data Status : Type 0 where
  draft open_status held completed archived : Status

pub data Kind : Type 0 where
  feature bug chore spike doc manual external : Kind

pub data Priority : Type 0 where
  p0 p1 p2 p3 : Priority

pub data ExecutionClass : Type 0 where
  autonomous approval_required manual external never : ExecutionClass

pub data Obligation : Type 0 where
  completed gate_passed : Obligation

pub data Coverage : Type 0 where
  qualified incomplete unknown : Coverage

pub data ResourceClass : Type 0 where
  path shared_gate schema generated_output port database whole_repository other : ResourceClass

pub data SourceKind : Type 0 where
  native import : SourceKind

pub data CompletionKind : Type 0 where
  verified manual : CompletionKind

pub data ApprovalOp : Type 0 where
  run complete integrate adjudicate : ApprovalOp

abbrev pub status_name : Status → Text
status_name draft = txt "DRAFT"
status_name open_status = txt "OPEN"
status_name held = txt "HELD"
status_name completed = txt "COMPLETED"
status_name archived = txt "ARCHIVED"

abbrev pub kind_name : Kind → Text
kind_name feature = txt "FEATURE"
kind_name bug = txt "BUG"
kind_name chore = txt "CHORE"
kind_name spike = txt "SPIKE"
kind_name doc = txt "DOC"
kind_name manual = txt "MANUAL"
kind_name external = txt "EXTERNAL"

abbrev pub priority_name : Priority → Text
priority_name p0 = txt "P0"
priority_name p1 = txt "P1"
priority_name p2 = txt "P2"
priority_name p3 = txt "P3"

abbrev pub execution_class_name : ExecutionClass → Text
execution_class_name autonomous = txt "AUTONOMOUS"
execution_class_name approval_required = txt "APPROVAL_REQUIRED"
execution_class_name manual = txt "MANUAL"
execution_class_name external = txt "EXTERNAL"
execution_class_name never = txt "NEVER"

abbrev pub obligation_name : Obligation → Text
obligation_name completed = txt "COMPLETED"
obligation_name gate_passed = txt "GATE_PASSED"

abbrev pub coverage_name : Coverage → Text
coverage_name qualified = txt "QUALIFIED"
coverage_name incomplete = txt "INCOMPLETE"
coverage_name unknown = txt "UNKNOWN"

abbrev pub resource_class_name : ResourceClass → Text
resource_class_name path = txt "PATH"
resource_class_name shared_gate = txt "SHARED_GATE"
resource_class_name schema = txt "SCHEMA"
resource_class_name generated_output = txt "GENERATED_OUTPUT"
resource_class_name port = txt "PORT"
resource_class_name database = txt "DATABASE"
resource_class_name whole_repository = txt "WHOLE_REPOSITORY"
resource_class_name other = txt "OTHER"

abbrev pub source_kind_name : SourceKind → Text
source_kind_name native = txt "NATIVE"
source_kind_name import = txt "IMPORT"

abbrev pub completion_kind_name : CompletionKind → Text
completion_kind_name verified = txt "VERIFIED"
completion_kind_name manual = txt "MANUAL"

abbrev pub approval_op_name : ApprovalOp → Text
approval_op_name run = txt "RUN"
approval_op_name complete = txt "COMPLETE"
approval_op_name integrate = txt "INTEGRATE"
approval_op_name adjudicate = txt "ADJUDICATE"

-- The tests of the source on these strings.
abbrev pub is_open : Status → Bool
is_open open_status = true
is_open _ = false

abbrev pub is_held : Status → Bool
is_held held = true
is_held _ = false

abbrev pub is_completed : Status → Bool
is_completed completed = true
is_completed _ = false

abbrev pub is_archived : Status → Bool
is_archived archived = true
is_archived _ = false

abbrev pub is_draft : Status → Bool
is_draft draft = true
is_draft _ = false

abbrev pub is_gate_passed : Obligation → Bool
is_gate_passed gate_passed = true
is_gate_passed completed = false

abbrev pub is_import : SourceKind → Bool
is_import import = true
is_import native = false

abbrev pub is_run : ApprovalOp → Bool
is_run run = true
is_run _ = false

abbrev pub is_adjudicate : ApprovalOp → Bool
is_adjudicate adjudicate = true
is_adjudicate _ = false
