-- ===== src/Samples.antt =====
-- Concrete records, an inventory and a context, on which the examples run the model.
use corvint_tasks.Base.{true, false, none, some, List, [], ◌∷◌, ◌++◌}
use corvint_tasks.Text.{Text, txt}
use corvint_tasks.Wire.Code.{ok}
use corvint_tasks.Wire.Primitives.{Digest}
use corvint_tasks.Wire.Clock.{Timestamp}
use corvint_tasks.Wire.Ids.{QueueId, TicketId}
use corvint_tasks.Ticket.Names.{Kind, Priority, ExecutionClass, Obligation, Coverage, SourceKind}
use corvint_tasks.Ticket.Names.{open_status, held, archived}
use corvint_tasks.Ticket.Record.{Dependency, Record}
use corvint_tasks.Ticket.Inventory.{Inventory}
use corvint_tasks.Snapshot.Head.{Head}
use corvint_tasks.Queue.{Queue, CanonicalWriter, BarrierReason, Role}
use corvint_tasks.Mutation.Payload.{CreatePayload, refine, Payload, Envelope, hold, operation}
use corvint_tasks.Mutation.Context.{Context, Input, OutcomeKind, IndexEntry, Plan, unsatisfied}

abbrev pub zero_digest : Digest
zero_digest = txt "0000000000000000000000000000000000000000000000000000000000000000"

-- A digest function in place of SHA-256.
abbrev pub zero_sum : Text → Digest
zero_sum s = zero_digest

abbrev pub noon : Timestamp
noon = txt "2026-02-03T12:00:00Z"

abbrev pub one : Timestamp
one = txt "2026-02-03T13:00:00Z"

abbrev pub sample_queue_id : QueueId
sample_queue_id = record { raw = txt "queue:acme:main"; authority = txt "acme"; queue = txt "main" }

abbrev pub sample_head : Head
sample_head = record {
  queue_id = sample_queue_id;
  last_seq = 12;
  last_receipt_sha256 = some zero_digest;
  generation = 0;
  init_sha256 = zero_digest;
  primary_worktree = txt "/w";
  version_sha256 = zero_digest;
}

-- The id of the ticket with a local token.
abbrev pub sample_id : Text → TicketId
sample_id local = record {
  raw = txt "ticket:acme:main:" ++ local;
  authority = txt "acme";
  queue = txt "main";
  local = local;
}

abbrev pub needs : Text → Dependency
needs local = record {
  ticket_id = sample_id local;
  obligation = Obligation.completed;
  gate_id = none;
}

-- An open ticket with dependencies.
abbrev pub sample_ticket : Text → List Dependency → Record
sample_ticket local ds = record {
  ticket_id = sample_id local;
  revision = 1;
  acceptance_revision = 1;
  previous_record_sha256 = none;
  status = open_status;
  archived_from = none;
  title = txt "Title";
  body = none;
  kind = Kind.feature;
  owner = none;
  milestone = none;
  priority = Priority.p1;
  order = 0;
  labels = [];
  dependencies = ds;
  acceptance_criteria = txt "It works" ∷ [];
  requirement_refs = [];
  source = record {
    kind = SourceKind.native;
    source_queue_id = txt "queue:acme:main";
    source_item_id = none;
    source_revision_sha256 = none;
  };
  effects = record {
    coverage = Coverage.incomplete;
    touch_paths = [];
    resources = [];
    external_unbounded = false;
  };
  capabilities = [];
  required_gates = [];
  holds = [];
  execution_class = ExecutionClass.autonomous;
  approvals = [];
  completion = none;
  due_date = none;
  estimate_minutes = none;
  supersedes = none;
  superseded_by = none;
  shadow_overlay = false;
  created_at = noon;
  updated_at = noon;
  updated_by = txt "ann";
}

-- B depends on A.
abbrev pub ticket_a : Record
ticket_a = sample_ticket (txt "A") []

abbrev pub ticket_b : Record
ticket_b = sample_ticket (txt "B") (needs (txt "A") ∷ [])

-- A with a dependency on B
abbrev pub ticket_a_on_b : Record
ticket_a_on_b = sample_ticket (txt "A") (needs (txt "B") ∷ [])

-- B without its dependency
abbrev pub ticket_b_free : Record
ticket_b_free = sample_ticket (txt "B") []

abbrev pub sample_inventory : Inventory
sample_inventory = record { queue_id = sample_queue_id; records = ticket_a ∷ ticket_b ∷ [] }

abbrev pub sample_queue : Queue
sample_queue = record {
  queue_id = sample_queue_id;
  repository_authority_id = txt "repo:acme";
  prefix = txt "AC";
  next_serial = 1;
  schema_version = txt "taskman-queue/0";
  canonical_writer = CanonicalWriter.native;
  foreign_adapter_id = none;
  intent_branch = txt "intent";
  fixture = true;
  execution_cutover = none;
  import_map_sha256 = none;
  write_barrier = record { reason = BarrierReason.none_set; since = none };
}

-- The request r1 is recorded, no other.
abbrev pub sample_entry : IndexEntry
sample_entry = record {
  request_id = txt "r1";
  mutation_sha256 = zero_digest;
  outcome = record {
    request_id = txt "r1";
    outcome = OutcomeKind.completed;
    replayed = false;
    resulting_revision = some 2;
    resulting_acceptance_revision = some 1;
    release_id = none;
    resulting_release_revision = none;
    receipt_seq = some 7;
    codes = [];
  };
}

abbrev pub sample_context : Context
sample_context = record {
  binding = record { id = txt "ann"; role = Role.owner };
  queue = sample_queue;
  policy = record { roles = []; gate_ids = [] };
  inventory = sample_inventory;
  attempts = some (λ id. unsatisfied);
  requests = λ id. ok none;
  now = one;
}

abbrev pub sample_hold : Payload
sample_hold = hold (txt "h1") (txt "Wait")

-- A after the step of the hold, and after the mutation
abbrev pub ticket_a_stepped : Record
ticket_a_stepped = record ticket_a {
  status = held;
  holds =
      record { hold_id = txt "h1"; actor = txt "ann"; reason = txt "Wait"; placed_at = one } ∷ [];
}

abbrev pub ticket_a_held : Record
ticket_a_held = record ticket_a {
  revision = 2;
  previous_record_sha256 = some zero_digest;
  status = held;
  holds =
      record { hold_id = txt "h1"; actor = txt "ann"; reason = txt "Wait"; placed_at = one } ∷ [];
  updated_at = one;
}

abbrev pub sample_input : Input
sample_input = record {
  binding = sample_context.binding;
  queue = some sample_queue;
  policy = some sample_context.policy;
  inventory = some sample_inventory;
  attempts = sample_context.attempts;
  requests = some sample_context.requests;
  now = one;
}

abbrev pub sample_envelope : Envelope
sample_envelope = record {
  request_id = txt "r2";
  actor = record { id = txt "ann"; role = Role.owner };
  queue_id = sample_queue_id;
  target_id = some (sample_id (txt "A"));
  expected_revision = some 1;
  operation = operation sample_hold;
  payload = some sample_hold;
  issued_at = one;
  raw = [];
}

-- The same call once the request is recorded.
abbrev pub recorded_context : Context
recorded_context = record sample_context { requests = λ id. ok (some sample_entry) }

abbrev pub replay_input : Input
replay_input = record sample_input { requests = some recorded_context.requests }

abbrev pub replay_envelope : Envelope
replay_envelope = record sample_envelope { request_id = txt "r1" }

abbrev pub held_plan : Plan
held_plan = record {
  outcome = record {
    request_id = txt "r2";
    outcome = OutcomeKind.completed;
    replayed = false;
    resulting_revision = some 2;
    resulting_acceptance_revision = some 1;
    release_id = none;
    resulting_release_revision = none;
    receipt_seq = none;
    codes = [];
  };
  mutation_sha256 = zero_digest;
  pre = some ticket_a;
  post = some ticket_a_held;
  queue_post = none;
}

-- A ticket without a local token
abbrev pub sample_create : CreatePayload
sample_create = record {
  local_token = none;
  title = txt "Title";
  body = none;
  kind = Kind.feature;
  owner = none;
  milestone = none;
  priority = Priority.p1;
  order = 0;
  labels = [];
  dependencies = needs (txt "B") ∷ [];
  acceptance_criteria = txt "It works" ∷ [];
  requirement_refs = [];
  source = ticket_a.source;
  effects = ticket_a.effects;
  capabilities = [];
  required_gates = [];
  execution_class = ExecutionClass.autonomous;
  due_date = none;
  estimate_minutes = none;
  supersedes = none;
  superseded_by = none;
}

-- The new ticket, with the serial that the queue allocates
abbrev pub ticket_created : Record
ticket_created = record (sample_ticket (txt "AC-0001") (needs (txt "B") ∷ [])) {
  created_at = one;
  updated_at = one;
}

abbrev pub tombstone : Record
tombstone = record ticket_a { status = archived; archived_from = some open_status }

abbrev pub worker_context : Context
worker_context = record sample_context { binding = record { id = txt "bob"; role = Role.worker } }

-- A REFINE of the body alone
abbrev pub body_payload : Payload
body_payload = refine (record {
  title = none;
  body = some (some (txt "More"));
  kind = none;
  owner = none;
  milestone = none;
  labels = none;
  acceptance_criteria = none;
  requirement_refs = none;
  due_date = none;
  estimate_minutes = none;
  supersedes = none;
})
