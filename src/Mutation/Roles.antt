-- ===== src/Mutation/Roles.antt =====
-- What each role may change: the restrictions inside a permitted row, on the records before and
-- after a step.
use mathlib.Core.Path.{subst}
use corvint_tasks.Base.{
  ℕ, ◌+◌, ◌≡◌, refl, ap, Bool, true, false, Option, none, some, List, [], ◌∷◌, ◌++◌, arith, is_some,
  if◌then◌else◌, zero, suc, Option-cases, inl, inr, Bool-cases, ◌⊎◌, ◌∙◌, ◌&&◌, and_split,
}
use corvint_tasks.Text.{Text, txt, text_eq→eq}
use corvint_tasks.Ticket.Names.{
  SourceKind, Status, draft, open_status, is_draft, held, import, is_import, is_adjudicate,
}
use corvint_tasks.Ticket.Record.{Record, Approval}
use corvint_tasks.Queue.{
  Operation, Role, owner, operator, worker, reviewer, importer, system, unknown,
}
use corvint_tasks.Mutation.Payload.{
  Payload, RefinePayload, GrantPayload, present_count, refine, hold, reason, grant_approval,
  revoke_approval,
}
use corvint_tasks.Mutation.Context.{Checked, Refusal, pass, refuse, Context}
use corvint_tasks.Mutation.Step.{
  step, restrict, perform, opens, open_draft, refine_fields, or_kept, new_hold, change_state, grant,
  new_approval, grant_ids, revoke, update_at, last_index,
}
use corvint_tasks.Mutation.Lifecycle.{step_parts}
use corvint_tasks.Mutation.RoundTrips.{place_hold_parts}

-- How many approvals are for ADJUDICATE.
unfoldable pub adjudications : List Approval → ℕ
adjudications [] = 0
adjudications (a ∷ rest) = (if is_adjudicate a.operation then 1 else 0) + adjudications rest

-- The status after a step of a WORKER: the one from before, or OPEN for a DRAFT that may open.
abbrev pub IsKeptOrOpened : Record → Status → Type 0
IsKeptOrOpened pre s =
    (s ≡ pre.status) ⊎ ((pre.status ≡ draft) × (opens pre ≡ true) × (s ≡ open_status))

-- A WORKER changes the body, and a DRAFT may open by it; SYSTEM places the hold ESCALATED; an IMPORTER
-- touches imported tickets only; an OPERATOR adds no approval for ADJUDICATE; a REVIEWER has no
-- mutation at all.
abbrev pub IsAllowed : Context → Role → Record → Record → Type 0
IsAllowed ctx worker pre post =
    (b : Option Text) × (s : Status) × (post ≡ record pre { body = b; status = s })
    × IsKeptOrOpened pre s
IsAllowed ctx system pre post =
    (why : Text) × (post
      ≡ record pre { status = held; holds = pre.holds ++ new_hold ctx (txt "ESCALATED") why ∷ [] })
IsAllowed ctx importer pre post = pre.source.kind ≡ import
IsAllowed ctx operator pre post = adjudications post.approvals ≡ adjudications pre.approvals
IsAllowed ctx reviewer pre post = ⊥
IsAllowed ctx _ pre post = Unit

abbrev unit_if : Bool → ℕ
unit_if b = if b then 1 else 0

absent {ℓ} : {A : Type ℓ} (o : Option A) (a : A) → unit_if (is_some o) ≡ 0 → or_kept o a ≡ a
absent none a h = refl
absent (some b) a h = absurd (omega arith)

-- A REFINE of the body alone
body_alone :
    (p : RefinePayload) (work : Record)
    → present_count p ≡ 1
    → is_some p.body ≡ true
    → refine_fields p work ≡ record work { body = or_kept p.body work.body }
unfolding present_count
body_alone p work h b =
    let body : unit_if (is_some p.body) ≡ 1 = rw b refl in
    rw
      (
        absent p.title work.title (omega arith),
        absent p.kind work.kind (omega arith),
        absent p.owner work.owner (omega arith),
        absent p.milestone work.milestone (omega arith),
        absent p.labels work.labels (omega arith),
        absent p.acceptance_criteria work.acceptance_criteria (omega arith),
        absent p.requirement_refs work.requirement_refs (omega arith),
        absent p.due_date work.due_date (omega arith),
        absent p.estimate_minutes work.estimate_minutes (omega arith),
        absent p.supersedes work.supersedes (omega arith),
      )
      refl

adjudications-append :
    (xs ys : List Approval) → adjudications (xs ++ ys) ≡ adjudications xs + adjudications ys
unfolding adjudications
adjudications-append [] ys = omega arith
adjudications-append (x ∷ xs) ys = omega (arith, adjudications-append xs ys)

adjudications-update_at :
    (i : ℕ) (xs : List Approval)
    → adjudications (update_at i (λ a. record a { revoked = true }) xs) ≡ adjudications xs
unfolding adjudications update_at
adjudications-update_at i [] = refl
adjudications-update_at zero (x ∷ xs) = refl
adjudications-update_at (suc i) (x ∷ xs) = omega (arith, adjudications-update_at i xs)

grant-adjudications :
    (ctx : Context) (work post : Record) (g : GrantPayload)
    → is_adjudicate g.operation ≡ false
    → grant ctx work g ≡ pass post
    → adjudications post.approvals ≡ adjudications work.approvals
unfolding grant adjudications
grant-adjudications ctx work post g other h =
    let made : post.approvals ≡ work.approvals ++ new_approval ctx g ∷ [] = ground arith in
    rw (made, adjudications-append work.approvals (new_approval ctx g ∷ []), other) (omega arith)

refuse-ne-pass {ℓ} :
    {A : Type ℓ} {r : Refusal} {a : A} → ◌≡◌ {A = Checked A} (refuse r) (pass a) → ⊥
refuse-ne-pass e = cc

revoke-adjudications :
    (work post : Record) (grant_id : Text)
    → revoke work grant_id ≡ pass post
    → adjudications post.approvals ≡ adjudications work.approvals
unfolding revoke
revoke-adjudications work post grant_id h =
    elim (Option-cases (last_index grant_id (grant_ids work.approvals))) [
      | inl missing ↦ absurd (refuse-ne-pass (rw (missing, revoke) at h))
      | inr (i, there) ↦
          let made : post.approvals
              ≡ update_at i (λ a. record a { revoked = true }) work.approvals =
            ground arith in
          rw made (adjudications-update_at i work.approvals)
    ]

change_state-approvals :
    (work post : Record) (op : Operation)
    → change_state work op ≡ pass post
    → post.approvals ≡ work.approvals
unfolding change_state
change_state-approvals work post Operation.reopen h = ground arith
change_state-approvals work post Operation.archive h = ground arith
change_state-approvals work post Operation.restore h = ground arith
change_state-approvals work post _ h = cc

perform-adjudications :
    (ctx : Context) (work post : Record) (p : Payload)
    → restrict operator work p ≡ pass tt
    → perform ctx work p ≡ pass post
    → adjudications post.approvals ≡ adjudications work.approvals
unfolding perform restrict
perform-adjudications ctx work post (grant_approval g) r h =
    grant-adjudications ctx work post g (ground arith) h
perform-adjudications ctx work post (revoke_approval grant_id why) r h =
    revoke-adjudications work post grant_id h
perform-adjudications ctx work post (reason op why) r h =
    ap adjudications (change_state-approvals work post op h)
perform-adjudications ctx work post _ r h = ap adjudications (ground arith)

draft_of : (s : Status) → is_draft s ≡ true → s ≡ draft
draft_of draft e = refl
draft_of _ e = cc

-- What opening a draft does to a record with a new body.
worker_post :
    (ctx : Context) (work post : Record) (b : Option Text)
    → post ≡ open_draft (record work { body = b })
    → IsAllowed ctx worker work post
unfolding opens
worker_post ctx work post b made = elim (Bool-cases (is_draft work.status && opens work)) [
  | inl opened ↦
      let (is_one, may) = and_split (is_draft work.status) (opens work) opened in
      (
        b,
        open_status,
        made
            ∙ ap (λ t. record work { body = b; status = if t then open_status else work.status })
                opened,
        inr (draft_of work.status is_one, may, refl),
      )
  | inr kept ↦ (
    b,
    work.status,
    made ∙ ap (λ t. record work { body = b; status = if t then open_status else work.status }) kept,
    inl refl,
  )
]

-- The restrictions of one role, with its payload at hand.
worker-IsAllowed :
    (ctx : Context) (work post : Record) (p : Payload)
    → restrict worker work p ≡ pass tt
    → perform ctx work p ≡ pass post
    → IsAllowed ctx worker work post
unfolding restrict perform
worker-IsAllowed ctx work post (refine q) r h =
    let alone : present_count q ≡ 1 = ground arith in
    let body : is_some q.body ≡ true = ground arith in
    let made : post ≡ open_draft (refine_fields q work) = cc in
    worker_post ctx work post (or_kept q.body work.body)
      (subst (λ t. post ≡ open_draft t) (body_alone q work alone body) made)
worker-IsAllowed ctx work post _ r h = cc

system-IsAllowed :
    (ctx : Context) (work post : Record) (p : Payload)
    → restrict system work p ≡ pass tt
    → perform ctx work p ≡ pass post
    → IsAllowed ctx system work post
unfolding restrict perform
system-IsAllowed ctx work post (hold id why) r h =
    let escalated : id ≡ txt "ESCALATED" = text_eq→eq id (txt "ESCALATED") (ground arith) in
    let made = (place_hold_parts ctx work post id why h).1 in (why, rw escalated at made)
system-IsAllowed ctx work post _ r h = cc

role-IsAllowed :
    (ctx : Context) (role : Role) (work post : Record) (p : Payload)
    → restrict role work p ≡ pass tt
    → perform ctx work p ≡ pass post
    → IsAllowed ctx role work post
unfolding restrict
role-IsAllowed ctx worker work post p r h = worker-IsAllowed ctx work post p r h
role-IsAllowed ctx system work post p r h = system-IsAllowed ctx work post p r h
role-IsAllowed ctx operator work post p r h = perform-adjudications ctx work post p r h
role-IsAllowed ctx importer work post p r h = imported work.source.kind (ground arith)
  where
    imported : (k : SourceKind) → is_import k ≡ true → k ≡ import
    imported import e = refl
    imported _ e = cc
role-IsAllowed ctx reviewer work post p r h = cc
role-IsAllowed ctx owner work post p r h = tt
role-IsAllowed ctx (unknown s) work post p r h = tt

-- A step that succeeds changes what the role of the binding may change: a WORKER the body of the
-- ticket and nothing else, but that a DRAFT which may leave DRAFT becomes OPEN by it; SYSTEM places
-- the hold ESCALATED and does nothing else; an IMPORTER touches imported tickets only; an OPERATOR
-- adds no approval for ADJUDICATE; a REVIEWER has no mutation.
pub step-IsAllowed :
    (ctx : Context) (work post : Record) (p : Payload)
    → step ctx work p ≡ pass post
    → IsAllowed ctx ctx.binding.role work post
step-IsAllowed ctx work post p h =
    let parts = step_parts ctx work post p h in
    role-IsAllowed ctx ctx.binding.role work post p parts.1 parts.3
