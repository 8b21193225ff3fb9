-- ===== src/Mutation/Outcomes.antt =====
-- What Apply returns: which calls plan a post record, and what the outcome says then.
use mathlib.Core.Path.{subst}
use corvint_tasks.Base.{
  ◌≡◌, ◌≢◌, refl, sym, Bool, true, false, ◌&&◌, ◌⊎◌, inl, inr, Option, none, some, [], ◌∷◌, arith,
  Bool-cases, Option-cases,
}
use corvint_tasks.Text.{Text, text_eq, text_eq→eq, text_eq-false}
use corvint_tasks.Wire.Code.{Code, ok}
use corvint_tasks.Wire.Decimal.{Count}
use corvint_tasks.Wire.Primitives.{Digest}
use corvint_tasks.Ticket.Record.{Record}
use corvint_tasks.Ticket.Inventory.{get}
use corvint_tasks.Queue.{Operation, Queue, role_eq, operation_eq}
use corvint_tasks.Mutation.Payload.{Envelope, Payload, create}
use corvint_tasks.Mutation.Context.{
  OutcomeKind, Checked, pass, refuse, >>=-eq-pass, refuse_unless, unauthorized_refusal, Refusal,
  Input, Context, IndexEntry, replay_failure, check_role, check_inputs, validate_binding, replay,
  Plan, refused, completed_plan,
}
use corvint_tasks.Mutation.Step.{invalid}
use corvint_tasks.Mutation.Apply.{
  apply, empty_plan, admit, admitted, permitted, dispatch, apply_existing, apply_to,
  payload_matches, finish, finish_create,
}

-- A fresh, uncommitted result: the outcome carries the revisions of the post record, and no receipt.
pub record IsFresh (plan : Plan) (post : Record) : Type 0 where
  pub outcome : plan.outcome.outcome ≡ OutcomeKind.completed
  pub replayed : plan.outcome.replayed ≡ false
  pub receipt_seq : plan.outcome.receipt_seq ≡ none
  pub revision : plan.outcome.resulting_revision ≡ some post.revision
  pub acceptance : plan.outcome.resulting_acceptance_revision ≡ some post.acceptance_revision
  pub codes : plan.outcome.codes ≡ []

-- A refused plan posts nothing, and its outcome carries no revision.
pub record IsRefused (plan : Plan) : Type 0 where
  pub post : plan.post ≡ none
  pub queue_post : plan.queue_post ≡ none
  pub replayed : plan.outcome.replayed ≡ false
  pub revision : plan.outcome.resulting_revision ≡ none
  pub acceptance : plan.outcome.resulting_acceptance_revision ≡ none
  pub receipt_seq : plan.outcome.receipt_seq ≡ none

abbrev pub IsSettled : Plan → Type 0
IsSettled plan = ((post : Record) × (plan.post ≡ some post) × IsFresh plan post) ⊎ IsRefused plan

finish-IsSettled : (plan : Plan) (c : Checked Record) → IsSettled (finish plan c)
unfolding refused completed_plan
finish-IsSettled plan (pass post) = inl (post, refl, ground arith)
finish-IsSettled plan (refuse r) = inr (ground arith)

finish_create-IsSettled :
    (plan : Plan) (c : Checked (Record × Option Queue)) → IsSettled (finish_create plan c)
unfolding refused completed_plan
finish_create-IsSettled plan (pass (post, q)) = inl (post, refl, ground arith)
finish_create-IsSettled plan (refuse r) = inr (ground arith)

none-ne-some {ℓ} : {A : Type ℓ} {a : A} → ◌≡◌ {A = Option A} none (some a) → ⊥
none-ne-some e = cc

pub some_eq {ℓ} : {A : Type ℓ} {a b : A} → ◌≡◌ {A = Option A} (some a) (some b) → a ≡ b
some_eq e = cc

refused-IsSettled : (plan : Plan) (r : Refusal) → IsSettled (refused plan r)
unfolding refused
refused-IsSettled plan r = inr (ground arith)

module _ (sum : Text → Digest) (ctx : Context) (plan : Plan) (env : Envelope) where
  apply_to-IsSettled :
      (expected : Count) (p : Payload) (pre : Record)
      → IsSettled (apply_to sum ctx plan expected p pre)
  unfolding apply_to
  apply_to-IsSettled expected p pre = finish-IsSettled (record plan { pre = some pre }) _

  apply_existing-IsSettled :
      (p : Payload) (out : Plan) → apply_existing sum ctx plan env p ≡ some out → IsSettled out
  unfolding apply_existing
  apply_existing-IsSettled p out h = elim (Option-cases env.target_id) [
    | inl missing ↦ absurd (none-ne-some (rw (missing, apply_existing) at h))
    | inr (target, there) ↦ elim (Option-cases (get ctx.inventory target.raw)) [
      | inl unknown ↦
          subst IsSettled (some_eq (rw (there, unknown, apply_existing) at h))
            (refused-IsSettled plan invalid)
      | inr (pre, found) ↦ elim (Option-cases env.expected_revision) [
        | inl missing ↦ absurd (none-ne-some (rw (there, found, missing, apply_existing) at h))
        | inr (expected, given) ↦
            subst IsSettled (some_eq (rw (there, found, given, apply_existing) at h))
              (apply_to-IsSettled expected p pre)
      ]
    ]
  ]

  pub dispatch-IsSettled :
      (p : Option Payload) (out : Plan) → dispatch sum ctx plan env p ≡ some out → IsSettled out
  unfolding dispatch
  dispatch-IsSettled none out h = subst IsSettled (some_eq h) (refused-IsSettled plan invalid)
  dispatch-IsSettled (some (create p)) out h =
      elim (Bool-cases (operation_eq env.operation Operation.create)) [
        | inl new ↦
            subst IsSettled (some_eq (rw (new, dispatch) at h)) (finish_create-IsSettled plan _)
        | inr old ↦
            subst IsSettled (some_eq (rw (old, dispatch) at h)) (refused-IsSettled plan invalid)
      ]
  dispatch-IsSettled (some p) out h =
      elim (Bool-cases (operation_eq env.operation Operation.create)) [
        | inl new ↦
            subst IsSettled (some_eq (rw (new, dispatch) at h)) (refused-IsSettled plan invalid)
        | inr old ↦ elim (Bool-cases (payload_matches env p)) [
          | inl fits ↦ apply_existing-IsSettled p out (rw (old, fits, dispatch) at h)
          | inr other ↦
              subst IsSettled (some_eq (rw (old, other, dispatch) at h))
                (refused-IsSettled plan invalid)
        ]
      ]

-- What a call that plans a post record has passed.
pub record IsAuthorized (sum : Text → Digest) (inp : Input) (env : Envelope) : Type 0 where
  pub ctx : Context
  pub bound : validate_binding inp.binding ≡ pass tt
  pub actor : env.actor.id ≡ inp.binding.id
  pub role : role_eq env.actor.role inp.binding.role ≡ true
  pub inputs : check_inputs inp ≡ pass ctx
  pub queue : env.queue_id.raw ≡ ctx.queue.queue_id.raw
  pub new : replay ctx.requests env.request_id (sum env.raw) ≡ none
  pub permitted : check_role ctx env.operation ≡ pass tt

refuse_unless-true : (b : Bool) (r : Refusal) → refuse_unless b r ≡ pass tt → b ≡ true
refuse_unless-true true r h = refl
refuse_unless-true false r h = cc

unit_pass : (u : Unit {0}) (c : Checked (Unit {0})) → c ≡ pass u → c ≡ pass tt
unit_pass tt c h = h

-- The checks of a call that was admitted.
admit_parts :
    (inp : Input) (env : Envelope) (ctx : Context)
    → admit inp env ≡ pass ctx
    → (validate_binding inp.binding ≡ pass tt)
      × (text_eq env.actor.id inp.binding.id ≡ true)
      × (role_eq env.actor.role inp.binding.role ≡ true)
      × (check_inputs inp ≡ pass ctx)
      × (text_eq env.queue_id.raw ctx.queue.queue_id.raw ≡ true)
unfolding admit
admit_parts inp env ctx h =
    let (u, bound, h1) = >>=-eq-pass (validate_binding inp.binding) _ h in
    let (w, same, h2) =
      >>=-eq-pass
        (refuse_unless
          (text_eq env.actor.id inp.binding.id && role_eq env.actor.role inp.binding.role)
          unauthorized_refusal)
        _ h1 in
    let (c, inputs, h3) = >>=-eq-pass (check_inputs inp) _ h2 in
    let (z, queue, h4) =
      >>=-eq-pass (refuse_unless (text_eq env.queue_id.raw c.queue.queue_id.raw) invalid) _ h3 in
    let made : c ≡ ctx = cc in
    let both = refuse_unless-true _ _ same in
    let there = refuse_unless-true _ _ queue in
    (bound, ground arith, ground arith, rw made at inputs, rw made at there)

IsSettled-IsFresh :
    (out : Plan) (post : Record) → IsSettled out → out.post ≡ some post → IsFresh out post
IsSettled-IsFresh out post (inl (made, e, fresh)) h =
    subst (λ r. IsFresh out r) (some_eq (sym (rw h at e))) fresh
IsSettled-IsFresh out post (inr refusal) h = absurd (none-ne-some (rw refusal.post at h))

-- A call that plans a post record has a bound actor, whose identity and role are those of the
-- envelope, for the queue of the envelope; its request identity is new to the index, and the role
-- table permits the operation. The outcome is completed and carries the revisions of the record.
pub apply-IsAuthorized :
    (sum : Text → Digest) (inp : Input) (env : Envelope) (out : Plan) (post : Record)
    → apply sum inp (some env) ≡ some out
    → out.post ≡ some post
    → IsAuthorized sum inp env × IsFresh out post
unfolding apply refused
apply-IsAuthorized sum inp env out post h made = verdict (admit inp env) refl h
  where
    plan : Plan
    plan = empty_plan env.request_id (sum env.raw)

    allowed :
        (ctx : Context) (c : Checked (Unit {0}))
        → check_role ctx env.operation ≡ c
        → permitted sum ctx plan env c ≡ some out
        → (check_role ctx env.operation ≡ pass tt) × IsFresh out post
    allowed ctx (pass u) e k = (
      unit_pass u _ e,
      IsSettled-IsFresh out post (dispatch-IsSettled sum ctx plan env env.payload out k) made,
    )
    allowed ctx (refuse r) e k = absurd (none-ne-some (rw (sym (some_eq k)) at made))

    verdict :
        (c : Checked Context)
        → admit inp env ≡ c
        → admitted sum plan env c ≡ some out
        → IsAuthorized sum inp env × IsFresh out post
    verdict (refuse r) e k = absurd (none-ne-some (rw (sym (some_eq k)) at made))
    verdict (pass ctx) e k =
        elim (Option-cases (replay ctx.requests env.request_id (sum env.raw))) [
          | inr (old, recorded) ↦
              let same : ◌≡◌ {A = Option Plan} (some (record plan { outcome = old })) (some out) =
                rw (recorded, admitted) at k in
              absurd (none-ne-some (rw (sym (some_eq same)) at made))
          | inl new ↦
              let (bound, actor, role, inputs, queue) = admit_parts inp env ctx e in
              let (permitted, fresh) =
                allowed ctx (check_role ctx env.operation) refl (rw (new, admitted) at k) in
              (
                record {
                  ctx = ctx;
                  bound = bound;
                  actor = text_eq→eq _ _ actor;
                  role = role;
                  inputs = inputs;
                  queue = text_eq→eq _ _ queue;
                  new = new;
                  permitted = permitted;
                },
                fresh,
              )
        ]

-- Once a request identity is recorded, every admitted call with that identity leaves the queue alone,
-- whatever its role, target and payload: with the same bytes it gives back the recorded outcome,
-- marked as replayed, and with other bytes a REQUEST_ID_CONFLICT.
pub apply-replay :
    (sum : Text → Digest) (inp : Input) (env : Envelope) (ctx : Context) (entry : IndexEntry)
    → admit inp env ≡ pass ctx
    → ctx.requests env.request_id ≡ ok (some entry)
    → (out : Plan) × (apply sum inp (some env) ≡ some out)
      × (out.post ≡ none)
      × (out.queue_post ≡ none)
      × (entry.mutation_sha256 ≡ sum env.raw
          → out.outcome ≡ record entry.outcome { replayed = true })
      × (entry.mutation_sha256 ≢ sum env.raw
          → (out.outcome.outcome ≡ OutcomeKind.request_id_conflict)
            × (out.outcome.codes ≡ Code.request_id_conflict ∷ []))
unfolding apply replay
apply-replay sum inp env ctx entry admitted_ok recorded =
    elim (Bool-cases (text_eq entry.mutation_sha256 (sum env.raw))) [
      | inl same ↦ (
        record (empty_plan env.request_id (sum env.raw)) {
          outcome = record entry.outcome { replayed = true };
        },
        rw (admitted_ok, admitted, recorded, same) refl,
        refl,
        refl,
        λ _. refl,
        λ ne. absurd (ne (text_eq→eq _ _ same)),
      )
      | inr other ↦ (
        record (empty_plan env.request_id (sum env.raw)) {
          outcome =
              replay_failure env.request_id OutcomeKind.request_id_conflict
                Code.request_id_conflict;
        },
        rw (admitted_ok, admitted, recorded, other) refl,
        refl,
        refl,
        λ e. absurd (text_eq-false _ _ other e),
        λ _. (refl, refl),
      )
    ]
