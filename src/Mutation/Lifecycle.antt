-- ===== src/Mutation/Lifecycle.antt =====
-- The lifecycle of a ticket: what status, holds, completion and archivedFrom say of each other, and
-- that every operation keeps it.
use mathlib.Core.Path.{subst}
use corvint_tasks.Base.{
  ◌≡◌, refl, true, false, List, [], ◌∷◌, arith, ltb, length, length-append, is_some,
}
use corvint_tasks.Text.{Text}
use corvint_tasks.Ticket.Names.{is_held, is_completed, is_archived}
use corvint_tasks.Ticket.Record.{Record, effective_status}
use corvint_tasks.Queue.{Operation, operation_eq}
use corvint_tasks.Mutation.Payload.{
  Payload, GrantPayload, operation, create, refine, hold, release_hold, reason, complete_manual,
  grant_approval, revoke_approval,
}
use corvint_tasks.Mutation.Context.{pass, >>=-eq-pass, Context, check_role}
use corvint_tasks.Mutation.Step.{
  step, perform, restrict, check_tombstone, opens, open_draft, refine_fields, place_hold, new_hold,
  lift_hold, change_state, complete_by_hand, grant, revoke,
}

-- A ticket is archived exactly when it names the status that it was archived from, which is another
-- one; its effective status is HELD exactly when it has holds, and COMPLETED exactly when it has a
-- completion.
pub record IsLifecycle (r : Record) : Type 0 where
  pub archived_iff : is_archived r.status ≡ is_some r.archived_from
  pub once : is_archived (effective_status r) ≡ false
  pub held_iff : is_held (effective_status r) ≡ ltb 0 (length r.holds)
  pub completed_iff : is_completed (effective_status r) ≡ is_some r.completion

-- A live ticket is its own effective status.
place_hold-IsLifecycle :
    (ctx : Context) (work post : Record) (hold_id why : Text)
    → IsLifecycle work
    → place_hold ctx work hold_id why ≡ pass post
    → IsLifecycle post
unfolding place_hold effective_status
place_hold-IsLifecycle ctx work post hold_id why v h =
    ground (arith, length-append work.holds (new_hold ctx hold_id why ∷ []))

lift_hold-IsLifecycle :
    (work post : Record) (hold_id : Text)
    → IsLifecycle work
    → lift_hold work hold_id ≡ pass post
    → IsLifecycle post
unfolding lift_hold effective_status
lift_hold-IsLifecycle work post hold_id v h = ground arith

change_state-IsLifecycle :
    (work post : Record) (op : Operation)
    → IsLifecycle work
    → (is_archived work.status ≡ true → op ≡ Operation.restore)
    → change_state work op ≡ pass post
    → IsLifecycle post
unfolding change_state effective_status
change_state-IsLifecycle work post Operation.reopen v t h = ground arith
change_state-IsLifecycle work post Operation.archive v t h = ground arith
change_state-IsLifecycle work post Operation.restore v t h = ground arith
change_state-IsLifecycle work post _ v t h = cc

complete_by_hand-IsLifecycle :
    (ctx : Context) (work post : Record) (why : Text) (evidence : List Text)
    → IsLifecycle work
    → complete_by_hand ctx work why evidence ≡ pass post
    → IsLifecycle post
unfolding complete_by_hand effective_status
complete_by_hand-IsLifecycle ctx work post why evidence v h = ground arith

grant-IsLifecycle :
    (ctx : Context) (work post : Record) (g : GrantPayload)
    → IsLifecycle work
    → grant ctx work g ≡ pass post
    → IsLifecycle post
unfolding grant effective_status
grant-IsLifecycle ctx work post g v h = ground arith

revoke-IsLifecycle :
    (work post : Record) (grant_id : Text)
    → IsLifecycle work
    → revoke work grant_id ≡ pass post
    → IsLifecycle post
unfolding revoke effective_status
revoke-IsLifecycle work post grant_id v h = ground arith

open_draft-IsLifecycle : (work : Record) → IsLifecycle work → IsLifecycle (open_draft work)
unfolding effective_status opens
open_draft-IsLifecycle work v = ground arith

perform-IsLifecycle :
    (ctx : Context) (work post : Record) (p : Payload)
    → IsLifecycle work
    → (is_archived work.status ≡ true → operation p ≡ Operation.restore)
    → perform ctx work p ≡ pass post
    → IsLifecycle post
unfolding perform effective_status
perform-IsLifecycle ctx work post (refine p) v t h =
    let done : open_draft (refine_fields p work) ≡ post = cc in
    subst IsLifecycle done (
      open_draft-IsLifecycle (refine_fields p work) (record {
        archived_iff = v.archived_iff;
        once = v.once;
        held_iff = v.held_iff;
        completed_iff = v.completed_iff;
      }))
perform-IsLifecycle ctx work post (hold hold_id why) v t h =
    place_hold-IsLifecycle ctx work post hold_id why v h
perform-IsLifecycle ctx work post (release_hold hold_id) v t h =
    lift_hold-IsLifecycle work post hold_id v h
perform-IsLifecycle ctx work post (reason op why) v t h =
    change_state-IsLifecycle work post op v t h
perform-IsLifecycle ctx work post (complete_manual why evidence) v t h =
    complete_by_hand-IsLifecycle ctx work post why evidence v h
perform-IsLifecycle ctx work post (grant_approval g) v t h = grant-IsLifecycle ctx work post g v h
perform-IsLifecycle ctx work post (revoke_approval grant_id why) v t h =
    revoke-IsLifecycle work post grant_id v h
perform-IsLifecycle ctx work post (create p) v t h = cc
perform-IsLifecycle ctx work post _ v t h = ground arith

-- The parts of a step that succeeded.
pub step_parts :
    (ctx : Context) (work post : Record) (p : Payload)
    → step ctx work p ≡ pass post
    → (check_role ctx (operation p) ≡ pass tt)
      × (restrict ctx.binding.role work p ≡ pass tt)
      × (check_tombstone work p ≡ pass tt)
      × (perform ctx work p ≡ pass post)
unfolding step
step_parts ctx work post p h =
    let (u, role_ok, h1) = >>=-eq-pass (check_role ctx (operation p)) _ h in
    let (w, restricted, h2) = >>=-eq-pass (restrict ctx.binding.role work p) _ h1 in
    let (z, alive, h3) = >>=-eq-pass (check_tombstone work p) _ h2 in
    (role_ok, restricted, alive, h3)

pub tombstone_restores :
    (work : Record) (p : Payload)
    → check_tombstone work p ≡ pass tt
    → is_archived work.status ≡ true
    → operation p ≡ Operation.restore
unfolding check_tombstone
tombstone_restores work p h a = is_restore (operation p) (ground arith)
  where
    is_restore :
        (op : Operation) → operation_eq op Operation.restore ≡ true → op ≡ Operation.restore
    is_restore Operation.restore e = refl
    is_restore _ e = cc

-- Every operation that succeeds on a ticket keeps its lifecycle, whoever issues it.
pub step-IsLifecycle :
    (ctx : Context) (work post : Record) (p : Payload)
    → IsLifecycle work
    → step ctx work p ≡ pass post
    → IsLifecycle post
step-IsLifecycle ctx work post p v h =
    let parts = step_parts ctx work post p h in
    perform-IsLifecycle ctx work post p v (tombstone_restores work p parts.2) parts.3
