-- ===== src/Mutation/Apply.antt =====
-- Apply of internal/mutation/apply.go. The call dereferences the target and the expected revision of
-- an envelope that is no CREATE: Decode sees to it that they are there, and `none` stands for the
-- panic on an envelope that Decode did not make.
use corvint_tasks.Base.{false, Bool, Option, none, some, [], ◌&&◌, ◌==◌, if◌then◌else◌}
use corvint_tasks.Text.{Text, text_eq}
use corvint_tasks.Wire.Code.{stale_ticket}
use corvint_tasks.Wire.Decimal.{Count}
use corvint_tasks.Wire.Primitives.{Digest}
use corvint_tasks.Ticket.Record.{Record}
use corvint_tasks.Ticket.Validate.{from_value}
use corvint_tasks.Ticket.Inventory.{get}
use corvint_tasks.Queue.{Operation, Queue, operation_eq, role_eq}
use corvint_tasks.Mutation.Payload.{Envelope, Payload, create, operation}
use corvint_tasks.Mutation.Context.{
  OutcomeKind, Checked, pass, refuse, ◌>>=◌, ◌>>◌, refusal, unauthorized_refusal, refuse_unless,
  checked, Input, Context, check_role, check_inputs, validate_binding, replay, Plan, refused,
  completed_plan,
}
use corvint_tasks.Mutation.Step.{step, invalid}
use corvint_tasks.Mutation.Finalize.{finalize, forces_acceptance_bump}
use corvint_tasks.Mutation.Create.{create_record}

abbrev pub empty_plan : Text → Digest → Plan
empty_plan request_id digest = record {
  outcome = record {
    request_id = request_id;
    outcome = OutcomeKind.validation_failed;
    replayed = false;
    resulting_revision = none;
    resulting_acceptance_revision = none;
    release_id = none;
    resulting_release_revision = none;
    receipt_seq = none;
    codes = [];
  };
  mutation_sha256 = digest;
  pre = none;
  post = none;
  queue_post = none;
}

-- The trust boundary and the inputs, before the replay check.
unfoldable pub admit : Input → Envelope → Checked Context
admit inp env = do
  validate_binding inp.binding
  refuse_unless (text_eq env.actor.id inp.binding.id && role_eq env.actor.role inp.binding.role)
      unauthorized_refusal
  ctx ← check_inputs inp
  refuse_unless (text_eq env.queue_id.raw ctx.queue.queue_id.raw) invalid
  pass ctx

abbrev pub payload_matches : Envelope → Payload → Bool
payload_matches env p = operation_eq (operation p) env.operation

abbrev pub finish : Plan → Checked Record → Plan
finish plan (pass post) = completed_plan plan post
finish plan (refuse r) = refused plan r

abbrev pub finish_create : Plan → Checked (Record × Option Queue) → Plan
finish_create plan (pass (post, q)) = completed_plan (record plan { queue_post = q }) post
finish_create plan (refuse r) = refused plan r

module _ (sum : Text → Digest) where
  -- The computation on a canonical record: clone, step and finalize.
  unfoldable pub mutate : Context → Record → Payload → Checked Record
  mutate ctx pre p = do
    work ← checked (from_value pre)
    stepped ← step ctx work p
    finalize sum ctx pre stepped (forces_acceptance_bump (operation p))

  -- The revision check, and the computation on the record that was found.
  unfoldable pub apply_to : Context → Plan → Count → Payload → Record → Plan
  unfolding refused completed_plan
  apply_to ctx plan expected p pre =
      finish (record plan { pre = some pre })
        (if expected == pre.revision
          then mutate ctx pre p
          else refuse (refusal OutcomeKind.revision_conflict stale_ticket))

  -- An operation other than CREATE, on the record that its target names.
  unfoldable pub apply_existing : Context → Plan → Envelope → Payload → Option Plan
  apply_existing ctx plan env p = elim env.target_id [
    | none ↦ none
    | some target ↦ elim (get ctx.inventory target.raw) [
      | none ↦ some (refused plan invalid)
      | some pre ↦ elim env.expected_revision [
        | none ↦ none
        | some expected ↦ some (apply_to ctx plan expected p pre)
      ]
    ]
  ]

  -- Apply after the replay check and the role check.
  unfoldable pub dispatch : Context → Plan → Envelope → Option Payload → Option Plan
  unfolding refused completed_plan
  dispatch ctx plan env none = some (refused plan invalid)
  dispatch ctx plan env (some (create p)) =
      if operation_eq env.operation Operation.create
      then some (finish_create plan (create_record ctx p))
      else some (refused plan invalid)
  dispatch ctx plan env (some p) =
      if operation_eq env.operation Operation.create
      then some (refused plan invalid)
      else if payload_matches env p
      then apply_existing ctx plan env p
      else some (refused plan invalid)

  abbrev pub permitted : Context → Plan → Envelope → Checked (Unit {0}) → Option Plan
  permitted ctx plan env (pass u) = dispatch ctx plan env env.payload
  permitted ctx plan env (refuse r) = some (refused plan r)

  abbrev pub admitted : Plan → Envelope → Checked Context → Option Plan
  admitted plan env (refuse r) = some (refused plan r)
  admitted plan env (pass ctx) = elim (replay ctx.requests env.request_id (sum env.raw)) [
    | some out ↦ some (record plan { outcome = out })
    | none ↦ permitted ctx plan env (check_role ctx env.operation)
  ]

  -- Apply
  unfoldable pub apply : Input → Option Envelope → Option Plan
  unfolding refused
  apply inp none = some (refused (empty_plan [] []) invalid)
  apply inp (some env) = admitted (empty_plan env.request_id (sum env.raw)) env (admit inp env)
