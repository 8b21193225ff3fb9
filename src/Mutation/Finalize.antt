-- ===== src/Mutation/Finalize.antt =====
-- finalize of internal/mutation/apply.go: the checks over the whole change, and the chain fields.
use corvint_tasks.Base.{
  ◌+◌, Bool, true, false, not, ◌&&◌, ◌||◌, Option, none, some, List, [], ◌∷◌, map, ltb, length, any,
  is_some, if◌then◌else◌,
}
use corvint_tasks.Text.{Text, text_eq}
use corvint_tasks.Wire.Code.{gate_unknown, dependency_missing, attempt_live}
use corvint_tasks.Wire.Limits.{max_count_value, max_ticket_file_bytes}
use corvint_tasks.Wire.Primitives.{Digest}
use corvint_tasks.Wire.Ids.{TicketId}
use corvint_tasks.Wire.Value.{Value, array}
use corvint_tasks.Wire.Encode.{encode}
use corvint_tasks.Ticket.Names.{is_completed}
use corvint_tasks.Ticket.Record.{
  Record, Dependency, dependency_value, strings, ticket_or_null, acceptance_values, record_bytes,
}
use corvint_tasks.Ticket.Validate.{from_value}
use corvint_tasks.Ticket.Inventory.{Inventory, get, check_dependencies}
use corvint_tasks.Queue.{Operation}
use corvint_tasks.Mutation.Context.{
  OutcomeKind, Checked, pass, ◌>>◌, refusal, refuse_when, checked, Observation, unsatisfied,
  not_observed, Context,
}
use corvint_tasks.Mutation.Step.{over_limit, state_refusal}

-- wire.Equal
abbrev value_eq : Value → Value → Bool
value_eq a b = text_eq (encode a) (encode b)

unfoldable pub values_eq : List Value → List Value → Bool
values_eq [] [] = true
values_eq (a ∷ vs) (b ∷ ws) = value_eq a b && values_eq vs ws
values_eq _ _ = false

-- acceptanceChanged
unfoldable pub acceptance_changed : Record → Record → Bool
unfolding acceptance_values values_eq encode
acceptance_changed pre post = not (values_eq (acceptance_values pre) (acceptance_values post))

-- fieldChanged, for the three fields that it is asked about
unfoldable pub dependencies_changed : Record → Record → Bool
unfolding dependency_value array encode
dependencies_changed pre post = not (
    value_eq (array (map dependency_value pre.dependencies))
      (array (map dependency_value post.dependencies)))

unfoldable pub gates_changed : Record → Record → Bool
unfolding encode array
gates_changed pre post = not (value_eq (strings pre.required_gates) (strings post.required_gates))

unfoldable pub supersedes_changed : Record → Record → Bool
unfolding encode
supersedes_changed pre post =
    not (value_eq (ticket_or_null pre.supersedes) (ticket_or_null post.supersedes))

abbrev pub changed : (Record → Record → Bool) → Option Record → Record → Bool
changed test none work = true
changed test (some pre) work = test pre work

abbrev is_known : List Text → Text → Bool
is_known ids g = any (λ k. text_eq k g) ids

abbrev pub known_option : List Text → Option Text → Bool
known_option ids none = true
known_option ids (some g) = is_known ids g

abbrev pub all_known : List Text → List Text → Bool
all_known ids [] = true
all_known ids (g ∷ gs) = is_known ids g && all_known ids gs

abbrev pub dependency_gates_known : List Text → List Dependency → Bool
dependency_gates_known ids [] = true
dependency_gates_known ids (d ∷ ds) = known_option ids d.gate_id && dependency_gates_known ids ds

abbrev pub exists_in : Inventory → Option TicketId → Bool
exists_in inv none = true
exists_in inv (some t) = is_some (get inv t.raw)

-- checkRecord
unfoldable pub check_record : Context → Option Record → Record → Checked (Unit {0})
unfolding check_dependencies dependencies_changed gates_changed supersedes_changed get
check_record ctx pre work = do
  let deps = changed dependencies_changed pre work
  let gates = changed gates_changed pre work
  if deps then checked (check_dependencies ctx.inventory work) else pass tt
  refuse_when ((deps || gates) && not (all_known ctx.policy.gate_ids work.required_gates))
      (refusal OutcomeKind.validation_failed gate_unknown)
  refuse_when
      ((deps || gates) && not (dependency_gates_known ctx.policy.gate_ids work.dependencies))
      (refusal OutcomeKind.validation_failed gate_unknown)
  refuse_when (changed supersedes_changed pre work && not (exists_in ctx.inventory work.supersedes))
      (refusal OutcomeKind.validation_failed dependency_missing)
  refuse_when (not (is_some pre) && not (exists_in ctx.inventory work.superseded_by))
      (refusal OutcomeKind.validation_failed dependency_missing)

-- forcesAcceptanceBump
abbrev pub forces_acceptance_bump : Operation → Bool
forces_acceptance_bump Operation.reopen = true
forces_acceptance_bump Operation.restore = true
forces_acceptance_bump Operation.complete_manual = true
forces_acceptance_bump _ = false

-- The observation of a live attempt; without an oracle nothing is observed.
abbrev pub live_attempt : Context → Text → Observation
live_attempt ctx id = elim ctx.attempts [ none ↦ not_observed | some oracle ↦ oracle id ]

abbrev pub is_unsatisfied : Observation → Bool
is_unsatisfied unsatisfied = true
is_unsatisfied _ = false

-- revalidate
unfoldable pub revalidate : Record → Checked (Unit {0})
revalidate work = do
  checked (from_value work)
  refuse_when (ltb max_ticket_file_bytes (length (record_bytes work))) over_limit

module _ (sum : Text → Digest) where
  -- The chain fields that finalize sets.
  abbrev pub chain_fields : Context → Record → Record → Bool → Record
  chain_fields ctx pre work bump = record work {
    revision = pre.revision + 1;
    acceptance_revision = if bump then pre.acceptance_revision + 1 else pre.acceptance_revision;
    previous_record_sha256 = some (sum (record_bytes pre));
    updated_at = ctx.now;
    updated_by = ctx.binding.id;
  }

  -- finalize
  unfoldable pub finalize : Context → Record → Record → Bool → Checked Record
  finalize ctx pre work forced = do
    let differs = acceptance_changed pre work
    refuse_when (is_completed pre.status && differs) state_refusal
    check_record ctx (some pre) work
    let bump = forced || differs
    refuse_when (bump && not (is_unsatisfied (live_attempt ctx work.ticket_id.raw)))
        (refusal OutcomeKind.blocked attempt_live)
    refuse_when (ltb max_count_value (pre.revision + 1)) over_limit
    refuse_when (bump && ltb max_count_value (pre.acceptance_revision + 1)) over_limit
    let post = chain_fields ctx pre work bump
    revalidate post
    pass post
