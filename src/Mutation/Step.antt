-- ===== src/Mutation/Step.antt =====
-- step of internal/mutation/apply.go: the role restrictions, the status rule and the fields of one
-- operation, on a working record.
use corvint_tasks.Base.{
  ℕ, zero, suc, Bool, true, false, not, ◌&&◌, ◌||◌, Option, none, some, List, [], ◌∷◌, ◌++◌, map,
  ltb, leb, ◌==◌, length, any, is_some, if◌then◌else◌,
}
use corvint_tasks.Text.{Text, txt, text_eq}
use corvint_tasks.Wire.Code.{malformed, duplicate_id, limit_exceeded, ticket_state}
use corvint_tasks.Wire.Limits.{max_holds, max_approvals}
use corvint_tasks.Ticket.Names.{
  Status, Kind, draft, open_status, held, completed, archived, manual, external, is_open, is_held,
  is_completed, is_archived, is_draft, is_import, is_adjudicate,
}
use corvint_tasks.Ticket.Names
use corvint_tasks.Ticket.Record.{Record, Hold, Approval}
use corvint_tasks.Queue.{
  Operation, Role, owner, operator, worker, reviewer, importer, system, unknown, operation_eq,
}
use corvint_tasks.Mutation.Payload.{
  Payload, RefinePayload, GrantPayload, create, refine, prioritize, set_dependencies, set_gates,
  set_effects, hold, release_hold, reason, complete_manual, grant_approval, revoke_approval,
  operation, present_count,
}
use corvint_tasks.Mutation.Context.{
  OutcomeKind, Refusal, Checked, pass, refuse, ◌>>◌, refusal, unauthorized_refusal, refuse_unless,
  refuse_when, Context, check_role,
}

-- opens
unfoldable pub opens : Record → Bool
opens rec =
    ltb 0 (length rec.acceptance_criteria)
    || elim rec.kind [ Kind.manual ↦ true | Kind.external ↦ true | _ ↦ false ]

-- isLive
abbrev pub is_live : Status → Bool
is_live draft = true
is_live open_status = true
is_live held = true
is_live completed = false
is_live archived = false

abbrev pub state_refusal : Refusal
state_refusal = refusal OutcomeKind.blocked ticket_state

abbrev pub invalid : Refusal
invalid = refusal OutcomeKind.validation_failed malformed

abbrev pub duplicate : Refusal
duplicate = refusal OutcomeKind.validation_failed duplicate_id

abbrev pub over_limit : Refusal
over_limit = refusal OutcomeKind.validation_failed limit_exceeded

abbrev only_body : Payload → Bool
only_body (refine p) = (present_count p == 1) && is_some p.body
only_body _ = false

abbrev is_escalation : Payload → Bool
is_escalation (hold h r) = text_eq h (txt "ESCALATED")
is_escalation _ = false

abbrev is_adjudication : Payload → Bool
is_adjudication (grant_approval g) = is_adjudicate g.operation
is_adjudication _ = false

-- The restrictions inside a permitted row.
unfoldable pub restrict : Role → Record → Payload → Checked (Unit {0})
unfolding present_count
restrict worker work p = refuse_unless (only_body p) unauthorized_refusal
restrict importer work p = refuse_unless (is_import work.source.kind) unauthorized_refusal
restrict system work p = refuse_unless (is_escalation p) unauthorized_refusal
restrict operator work p = refuse_when (is_adjudication p) unauthorized_refusal
restrict reviewer work p = refuse unauthorized_refusal
restrict owner work p = pass tt
restrict (unknown s) work p = pass tt

-- A tombstone accepts only RESTORE.
unfoldable pub check_tombstone : Record → Payload → Checked (Unit {0})
check_tombstone work p =
    refuse_when (is_archived work.status && not (operation_eq (operation p) Operation.restore))
      state_refusal

abbrev pub or_kept {ℓ} : {A : Type ℓ} → Option A → A → A
or_kept none a = a
or_kept (some b) a = b

abbrev pub refine_fields : RefinePayload → Record → Record
refine_fields p work = record work {
  title = or_kept p.title work.title;
  body = or_kept p.body work.body;
  kind = or_kept p.kind work.kind;
  owner = or_kept p.owner work.owner;
  milestone = or_kept p.milestone work.milestone;
  labels = or_kept p.labels work.labels;
  acceptance_criteria = or_kept p.acceptance_criteria work.acceptance_criteria;
  requirement_refs = or_kept p.requirement_refs work.requirement_refs;
  due_date = or_kept p.due_date work.due_date;
  estimate_minutes = or_kept p.estimate_minutes work.estimate_minutes;
  supersedes = or_kept p.supersedes work.supersedes;
}

-- A draft that may leave DRAFT does so.
abbrev pub open_draft : Record → Record
open_draft rec = record rec {
  status = if is_draft rec.status && opens rec then open_status else rec.status;
}

-- The last index at which a key stands.
unfoldable pub last_index : Text → List Text → Option ℕ
last_index k [] = none
last_index k (j ∷ js) = elim (last_index k js) [
  | some i ↦ some (suc i)
  | none ↦ if text_eq j k then some 0 else none
]

module _ {ℓ} {A : Type ℓ} where
  unfoldable pub remove_at : ℕ → List A → List A
  remove_at i [] = []
  remove_at zero (x ∷ xs) = xs
  remove_at (suc i) (x ∷ xs) = x ∷ remove_at i xs

  unfoldable pub update_at : ℕ → (A → A) → List A → List A
  update_at i f [] = []
  update_at zero f (x ∷ xs) = f x ∷ xs
  update_at (suc i) f (x ∷ xs) = x ∷ update_at i f xs

abbrev pub hold_ids : List Hold → List Text
hold_ids hs = map (λ h. h.hold_id) hs

abbrev pub grant_ids : List Approval → List Text
grant_ids grants = map (λ a. a.grant_id) grants

-- The actor and the time of a hold come from the context, never from the payload.
abbrev pub new_hold : Context → Text → Text → Hold
new_hold ctx hold_id why = record {
  hold_id = hold_id;
  actor = ctx.binding.id;
  reason = why;
  placed_at = ctx.now;
}

unfoldable pub place_hold : Context → Record → Text → Text → Checked Record
place_hold ctx work hold_id why = do
  refuse_unless (is_open work.status || is_held work.status) state_refusal
  refuse_when (any (λ k. text_eq k hold_id) (hold_ids work.holds)) duplicate
  refuse_when (leb max_holds (length work.holds)) over_limit
  pass (record work { status = held; holds = work.holds ++ new_hold ctx hold_id why ∷ [] })

abbrev pub open_if_free : List Hold → Status → Status
open_if_free [] s = open_status
open_if_free (h ∷ hs) s = s

unfoldable pub lift_hold : Record → Text → Checked Record
unfolding last_index remove_at
lift_hold work hold_id = do
  refuse_unless (is_held work.status) state_refusal
  elim (last_index hold_id (hold_ids work.holds)) [
    | none ↦ refuse invalid
    | some i ↦
        let left = remove_at i work.holds in
        pass (record work { holds = left; status = open_if_free left work.status })
  ]

unfoldable pub change_state : Record → Operation → Checked Record
change_state work Operation.reopen = do
  refuse_unless (is_completed work.status) state_refusal
  pass (record work { completion = none; status = open_status })
change_state work Operation.archive =
    pass (record work { archived_from = some work.status; status = archived })
change_state work Operation.restore = elim work.archived_from [
  | none ↦ refuse state_refusal
  | some from ↦ do
    refuse_unless (is_archived work.status) state_refusal
    pass (record work { status = from; archived_from = none })
]
change_state work _ = refuse invalid

unfoldable pub complete_by_hand : Context → Record → Text → List Text → Checked Record
complete_by_hand ctx work why evidence = do
  refuse_unless (is_open work.status) state_refusal
  pass (record work {
    status = completed;
    completion = some (record {
      kind = Names.CompletionKind.manual;
      actor = ctx.binding.id;
      reason = some why;
      evidence = evidence;
      manifest_sha256 = none;
      recorded_at = ctx.now;
    });
  })

-- An approval is granted by the actor of the payload, who is the invoking one, at the time of the
-- context.
abbrev pub new_approval : Context → GrantPayload → Approval
new_approval ctx g = record {
  grant_id = g.grant_id;
  actor = g.actor;
  operation = g.operation;
  target_revision = g.target_revision;
  scope = g.scope;
  revoked = false;
  granted_at = ctx.now;
}

unfoldable pub grant : Context → Record → GrantPayload → Checked Record
grant ctx work g = do
  refuse_unless (text_eq g.actor ctx.binding.id) unauthorized_refusal
  refuse_unless (g.target_revision == work.acceptance_revision) invalid
  refuse_when (any (λ k. text_eq k g.grant_id) (grant_ids work.approvals)) duplicate
  refuse_when (leb max_approvals (length work.approvals)) over_limit
  pass (record work { approvals = work.approvals ++ new_approval ctx g ∷ [] })

-- Is the approval at the index revoked already?
unfoldable pub revoked_at : ℕ → List Approval → Bool
revoked_at i [] = false
revoked_at zero (a ∷ rest) = a.revoked
revoked_at (suc i) (a ∷ rest) = revoked_at i rest

unfoldable pub revoke : Record → Text → Checked Record
unfolding last_index update_at revoked_at
revoke work grant_id = elim (last_index grant_id (grant_ids work.approvals)) [
  | none ↦ refuse invalid
  | some i ↦ do
    refuse_when (revoked_at i work.approvals) invalid
    pass (record work { approvals = update_at i (λ a. record a { revoked = true }) work.approvals })
]

-- The switch over the payload.
unfoldable pub perform : Context → Record → Payload → Checked Record
unfolding opens place_hold lift_hold change_state complete_by_hand grant revoke
perform ctx work (refine p) = pass (open_draft (refine_fields p work))
perform ctx work (prioritize priority order) =
    pass (record work { priority = priority; order = order })
perform ctx work (set_dependencies ds) = do
  refuse_unless (is_live work.status) state_refusal
  pass (record work { dependencies = ds })
perform ctx work (set_gates gates) = do
  refuse_unless (is_live work.status) state_refusal
  pass (record work { required_gates = gates })
perform ctx work (set_effects effects capabilities class) = do
  refuse_unless (is_live work.status) state_refusal
  pass (record work { effects = effects; capabilities = capabilities; execution_class = class })
perform ctx work (hold hold_id why) = place_hold ctx work hold_id why
perform ctx work (release_hold hold_id) = lift_hold work hold_id
perform ctx work (reason op why) = change_state work op
perform ctx work (complete_manual why evidence) = complete_by_hand ctx work why evidence
perform ctx work (grant_approval g) = grant ctx work g
perform ctx work (revoke_approval grant_id why) = revoke work grant_id
perform ctx work (create p) = refuse invalid

-- step
unfoldable pub step : Context → Record → Payload → Checked Record
unfolding check_role restrict check_tombstone perform
step ctx work p = do
  check_role ctx (operation p)
  restrict ctx.binding.role work p
  check_tombstone work p
  perform ctx work p
