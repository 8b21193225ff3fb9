-- ===== src/Examples/Mutation.antt =====
-- Mutations of a concrete ticket.
use corvint_tasks.Base.{◌≡◌, refl, none, some, ◌≢◌, ◌+◌, [], ◌∷◌, true}
use corvint_tasks.Text.{split, text_eq, text_ltb}
use corvint_tasks.Wire.Encode.{encode}
use corvint_tasks.Ticket.Record.{record_bytes, effective_status}
use corvint_tasks.Ticket.Inventory.{get}
use corvint_tasks.Wire.Code.{Code}
use corvint_tasks.Ticket.Validate.{from_value, validate}
use corvint_tasks.Ticket.Fields.{check_fields}
use corvint_tasks.Mutation.Payload.{operation}
use corvint_tasks.Mutation.Context.{pass, Plan, refused, completed_plan}
use corvint_tasks.Mutation.Step.{step}
use corvint_tasks.Mutation.Finalize.{acceptance_changed, check_record, revalidate, finalize}
use corvint_tasks.Mutation.Apply.{mutate, apply, admit, dispatch, apply_existing, apply_to}
use corvint_tasks.Mutation.Context.{OutcomeKind, check_inputs, validate_binding, replay, check_role}
use corvint_tasks.Text.{txt}
use corvint_tasks.Queue.{Operation, Role}
use corvint_tasks.Ticket.Record.{Record}
use corvint_tasks.Mutation.Payload.{Payload, release_hold, reason}
use corvint_tasks.Mutation.Step.{restrict, opens}
use corvint_tasks.Ticket.Names.{draft}
use corvint_tasks.Mutation.Roles.{IsAllowed, step-IsAllowed}
use corvint_tasks.Mutation.RoundTrips.{MakesOnly, two_on, hold-release_hold, archive-restore}
use corvint_tasks.Samples.{worker_context, body_payload, tombstone}
use corvint_tasks.Text.{Text}
use corvint_tasks.Wire.Code.{ok, err}
use corvint_tasks.Mutation.Context.{IndexEntry}
use corvint_tasks.Mutation.Memory.{
  MemoryIndex, new_memory_index, entry_at, lookup, record_entry, len, record_entry-lookup,
}
use corvint_tasks.Mutation.Lifecycle.{IsLifecycle, step-IsLifecycle}
use corvint_tasks.Mutation.Outcomes.{IsAuthorized, IsFresh, apply-IsAuthorized, apply-replay}
use corvint_tasks.Mutation.Chain.{IsNext, mutate-IsNext}
use corvint_tasks.Samples.{
  zero_sum, sample_context, ticket_a, sample_hold, ticket_a_held, ticket_a_stepped, replay_envelope,
  sample_input, sample_envelope, sample_entry, zero_digest, replay_input, recorded_context,
  held_plan,
}

hold_run : mutate zero_sum sample_context ticket_a sample_hold ≡ pass ticket_a_held
unfolding mutate step from_value check_fields validate finalize acceptance_changed check_record
    revalidate record_bytes encode split text_eq text_ltb
hold_run = refl

mutate-IsNext_example :
    IsNext zero_sum sample_context ticket_a ticket_a_held (operation sample_hold)
mutate-IsNext_example =
    mutate-IsNext zero_sum sample_context ticket_a ticket_a_held sample_hold hold_run

ticket_a-IsLifecycle : IsLifecycle ticket_a
unfolding effective_status
ticket_a-IsLifecycle = record {
  archived_iff = refl;
  once = refl;
  held_iff = refl;
  completed_iff = refl;
}

step_run : step sample_context ticket_a sample_hold ≡ pass ticket_a_stepped
unfolding step
step_run = refl

step-IsLifecycle_example : IsLifecycle ticket_a_stepped
step-IsLifecycle_example =
    step-IsLifecycle sample_context ticket_a ticket_a_stepped sample_hold ticket_a-IsLifecycle
      step_run

admit_run : admit sample_input sample_envelope ≡ pass sample_context
unfolding admit validate_binding check_inputs text_eq
admit_run = refl

apply_run : apply zero_sum sample_input (some sample_envelope) ≡ some held_plan
unfolding apply admit validate_binding check_inputs replay check_role dispatch apply_existing get
    apply_to refused completed_plan text_eq
apply_run = rw hold_run refl

apply-IsAuthorized_example :
    IsAuthorized zero_sum sample_input sample_envelope × IsFresh held_plan ticket_a_held
apply-IsAuthorized_example =
    apply-IsAuthorized zero_sum sample_input sample_envelope held_plan ticket_a_held apply_run refl

recorded_run : admit replay_input replay_envelope ≡ pass recorded_context
unfolding admit validate_binding check_inputs text_eq
recorded_run = refl

apply-replay_example :
    (out : Plan) × (apply zero_sum replay_input (some replay_envelope) ≡ some out)
    × (out.post ≡ none)
    × (out.queue_post ≡ none)
    × (sample_entry.mutation_sha256 ≡ zero_digest
        → out.outcome ≡ record sample_entry.outcome { replayed = true })
    × (sample_entry.mutation_sha256 ≢ zero_digest
        → (out.outcome.outcome ≡ OutcomeKind.request_id_conflict)
          × (out.outcome.codes ≡ Code.request_id_conflict ∷ []))
apply-replay_example =
    apply-replay zero_sum replay_input replay_envelope recorded_context sample_entry recorded_run
      refl

-- The owner may lift the hold that was placed.
release_permitted : check_role recorded_context Operation.release_hold ≡ pass tt
unfolding check_role
release_permitted = refl

release_open :
    restrict recorded_context.binding.role ticket_a_held (release_hold (txt "h1")) ≡ pass tt
unfolding restrict
release_open = refl

hold-release_hold_example :
    (step recorded_context ticket_a_held (release_hold (txt "h1"))
      ≡ pass (record ticket_a_held { status = ticket_a.status; holds = ticket_a.holds }))
    × MakesOnly
        (mutate zero_sum recorded_context ticket_a_held (release_hold (txt "h1")))
        (two_on zero_sum recorded_context ticket_a ticket_a_held ticket_a.acceptance_revision)
hold-release_hold_example =
    hold-release_hold zero_sum sample_context recorded_context ticket_a ticket_a_held (txt "h1")
      (txt "Wait") ticket_a-IsLifecycle hold_run release_permitted release_open

-- The release of this ticket is not refused by finalize.
release_run :
    mutate zero_sum recorded_context ticket_a_held (release_hold (txt "h1"))
    ≡ pass (two_on zero_sum recorded_context ticket_a ticket_a_held ticket_a.acceptance_revision)
unfolding mutate step from_value check_fields validate finalize acceptance_changed check_record
    revalidate record_bytes encode split text_eq text_ltb
release_run = refl

abbrev ticket_a_archived : Record
ticket_a_archived = record tombstone {
  revision = 2;
  previous_record_sha256 = some zero_digest;
  updated_at = sample_context.now;
  updated_by = sample_context.binding.id;
}

archive_run :
    mutate zero_sum sample_context ticket_a (reason Operation.archive (txt "Old"))
    ≡ pass ticket_a_archived
unfolding mutate step from_value check_fields validate finalize acceptance_changed check_record
    revalidate record_bytes encode split text_eq text_ltb
archive_run = refl

restore_permitted : check_role recorded_context Operation.restore ≡ pass tt
unfolding check_role
restore_permitted = refl

restore_open :
    restrict recorded_context.binding.role ticket_a_archived
      (reason Operation.restore (txt "Again"))
    ≡ pass tt
unfolding restrict
restore_open = refl

archive-restore_example :
    ((p : Payload) (post : Record)
      → operation p ≢ Operation.restore
      → step recorded_context ticket_a_archived p ≢ pass post)
    × (step recorded_context ticket_a_archived (reason Operation.restore (txt "Again"))
        ≡ pass (record ticket_a_archived { status = ticket_a.status; archived_from = none }))
    × MakesOnly
        (mutate zero_sum recorded_context ticket_a_archived
          (reason Operation.restore (txt "Again")))
        (two_on zero_sum recorded_context ticket_a ticket_a_archived
          (ticket_a.acceptance_revision + 1))
archive-restore_example =
    archive-restore zero_sum sample_context recorded_context ticket_a ticket_a_archived (txt "Old")
      (txt "Again") ticket_a-IsLifecycle archive_run restore_permitted restore_open

-- A WORKER opens a draft that has acceptance criteria by a REFINE of its body.
abbrev ready_draft : Record
ready_draft = record ticket_a { status = draft; acceptance_criteria = txt "Works" ∷ [] }

worker_opens :
    step worker_context ready_draft body_payload
    ≡ pass (record ready_draft { status = ticket_a.status; body = some (txt "More") })
unfolding step opens
worker_opens = refl

worker_run :
    step worker_context ticket_a body_payload ≡ pass (record ticket_a { body = some (txt "More") })
unfolding step
worker_run = refl

step-IsAllowed_example :
    IsAllowed worker_context Role.worker ticket_a (record ticket_a { body = some (txt "More") })
step-IsAllowed_example =
    step-IsAllowed worker_context ticket_a (record ticket_a { body = some (txt "More") })
      body_payload worker_run

abbrev one_entry : MemoryIndex
one_entry = record { entries = some (sample_entry ∷ []) }

record_run : record_entry new_memory_index sample_entry ≡ ok one_entry
unfolding record_entry
record_run = refl

record_entry-lookup_example :
    (lookup one_entry (txt "r1") ≡ ok (some sample_entry))
    × ((id : Text) → id ≢ txt "r1" → lookup one_entry id ≡ ok (entry_at id []))
    × ((again : IndexEntry)
        → again.request_id ≡ txt "r1"
        → record_entry one_entry again ≡ err Code.request_id_conflict)
    × (len one_entry ≡ 1)
record_entry-lookup_example = record_entry-lookup new_memory_index one_entry sample_entry record_run
