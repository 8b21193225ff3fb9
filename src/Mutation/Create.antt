-- ===== src/Mutation/Create.antt =====
-- create and allocateSerial of internal/mutation/apply.go.
pub mod Serial
pub mod Names
pub mod Tries
pub mod Created
use corvint_tasks.Base.{
  ℕ, zero, suc, ◌+◌, false, Option, none, some, List, [], ◌∷◌, ◌++◌, ltb, leb, any, if◌then◌else◌,
}
use corvint_tasks.Text.{Text, txt, text_eq}
use corvint_tasks.Wire.Limits.{max_count_value, max_tickets_per_queue, max_local_token_bytes}
use corvint_tasks.Wire.Decimal.{Count, count_of}
use corvint_tasks.Wire.Primitives.{parse_token, fold_token}
use corvint_tasks.Wire.Ids.{TicketId, parse_ticket_id}
use corvint_tasks.Ticket.Names.{draft, is_import}
use corvint_tasks.Ticket.Record.{Record}
use corvint_tasks.Ticket.Validate.{from_value}
use corvint_tasks.Ticket.Inventory.{Inventory, len, check_local_token, folded_locals}
use corvint_tasks.Queue.{Queue, Role, worker, system, reviewer, importer}
use corvint_tasks.Mutation.Payload.{CreatePayload}
use corvint_tasks.Mutation.Context.{
  Checked, pass, refuse, ◌>>=◌, ◌>>◌, unauthorized_refusal, refuse_unless, refuse_when, checked,
  Context,
}
use corvint_tasks.Mutation.Step.{opens, open_draft, over_limit}
use corvint_tasks.Mutation.Finalize.{check_record, revalidate}

-- `%04d`: zeros before the digits, up to a width of four
unfoldable pub pad_four : Text → Text
pad_four [] = txt "0000"
pad_four (a ∷ []) = b'0' ∷ b'0' ∷ b'0' ∷ a ∷ []
pad_four (a ∷ b ∷ []) = b'0' ∷ b'0' ∷ a ∷ b ∷ []
pad_four (a ∷ b ∷ c ∷ []) = b'0' ∷ a ∷ b ∷ c ∷ []
pad_four (a ∷ b ∷ c ∷ d ∷ s) = a ∷ b ∷ c ∷ d ∷ s

-- The token `<prefix>-<serial>`.
unfoldable pub serial_token : Text → ℕ → Text
unfolding pad_four count_of
serial_token prefix n = prefix ++ (b'-' ∷ pad_four (count_of n))

-- The loop of allocateSerial, with the tries that are left and the folded tokens that are occupied.
unfoldable pub find_serial : ℕ → Text → List Text → ℕ → Checked (Text × Count)
unfolding serial_token fold_token parse_token
find_serial zero prefix occupied n = refuse over_limit
find_serial (suc tries) prefix occupied n =
    let later = find_serial tries prefix occupied (n + 1) in
    let candidate = serial_token prefix n in
    if ltb max_count_value (n + 1)
    then refuse over_limit
    else if any (text_eq (fold_token candidate)) occupied
    then later
    else do checked (parse_token candidate max_local_token_bytes); pass (candidate, n + 1)

-- allocateSerial
unfoldable pub allocate_serial : Inventory → Queue → Checked (Text × Count)
unfolding find_serial folded_locals
allocate_serial inv q =
    find_serial (suc (len inv)) q.prefix (folded_locals inv.records) q.next_serial

-- The local token of a new ticket, and the queue's next serial.
unfoldable pub choose_local : Context → CreatePayload → Checked (Text × Count)
unfolding allocate_serial check_local_token
choose_local ctx p = elim p.local_token [
  | some local ↦ do
    checked (check_local_token ctx.inventory local)
    pass (local, ctx.queue.next_serial)
  | none ↦ allocate_serial ctx.inventory ctx.queue
]

-- The roles that may create.
unfoldable pub may_create : Role → CreatePayload → Checked (Unit {0})
may_create importer p = refuse_unless (is_import p.source.kind) unauthorized_refusal
may_create worker p = refuse unauthorized_refusal
may_create system p = refuse unauthorized_refusal
may_create reviewer p = refuse unauthorized_refusal
may_create _ p = pass tt

abbrev pub advanced_queue : Option Text → Queue → Count → Option Queue
advanced_queue (some local) q serial = none
advanced_queue none q serial = some (record q { next_serial = serial })

-- The record that create composes, before it may open.
abbrev pub new_record : Context → CreatePayload → TicketId → Record
new_record ctx p id = record {
  ticket_id = id;
  revision = 1;
  acceptance_revision = 1;
  previous_record_sha256 = none;
  status = draft;
  archived_from = none;
  title = p.title;
  body = p.body;
  kind = p.kind;
  owner = p.owner;
  milestone = p.milestone;
  priority = p.priority;
  order = p.order;
  labels = p.labels;
  dependencies = p.dependencies;
  acceptance_criteria = p.acceptance_criteria;
  requirement_refs = p.requirement_refs;
  source = p.source;
  effects = p.effects;
  capabilities = p.capabilities;
  required_gates = p.required_gates;
  holds = [];
  execution_class = p.execution_class;
  approvals = [];
  completion = none;
  due_date = p.due_date;
  estimate_minutes = p.estimate_minutes;
  supersedes = p.supersedes;
  superseded_by = p.superseded_by;
  shadow_overlay = false;
  created_at = ctx.now;
  updated_at = ctx.now;
  updated_by = ctx.binding.id;
}

abbrev pub id_text : Context → Text → Text
id_text ctx local =
    txt "ticket:"
    ++ (ctx.queue.queue_id.authority ++ (b':' ∷ (ctx.queue.queue_id.queue ++ (b':' ∷ local))))

-- create: the new record, and the advanced manifest if a serial was allocated
unfoldable pub create_record : Context → CreatePayload → Checked (Record × Option Queue)
unfolding opens
create_record ctx p = do
  may_create ctx.binding.role p
  refuse_when (leb max_tickets_per_queue (len ctx.inventory)) over_limit
  (local, serial) ← choose_local ctx p
  id ← checked (parse_ticket_id (id_text ctx local))
  work ← checked (from_value (open_draft (new_record ctx p id)))
  check_record ctx none work
  revalidate work
  pass (work, advanced_queue p.local_token ctx.queue serial)
