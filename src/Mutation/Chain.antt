-- ===== src/Mutation/Chain.antt =====
-- The chain of records: what a successful mutation does to the identity of a ticket, to its two
-- revisions and to the digest that names the record before.
use mathlib.Core.Path.{subst}
use corvint_tasks.Base.{
  ◌+◌, ◌≤◌, ◌≡◌, refl, sym, ◌∙◌, ap, Bool, true, false, not, ◌&&◌, ◌||◌, some, arith, ltb,
  if◌then◌else◌, List, [], ◌∷◌,
}
use corvint_tasks.Text.{Text, text_eq_refl}
use corvint_tasks.Wire.Value.{Value}
use corvint_tasks.Wire.Encode.{encode}
use corvint_tasks.Wire.Code.{Result, ok, err, >>=-eq-ok, attempt_live}
use corvint_tasks.Wire.Limits.{max_count_value}
use corvint_tasks.Wire.Primitives.{Digest}
use corvint_tasks.Wire.Ids.{TicketId}
use corvint_tasks.Ticket.Names.{is_completed}
use corvint_tasks.Ticket.Record.{Record, record_bytes, acceptance_values}
use corvint_tasks.Ticket.Fields.{check_fields}
use corvint_tasks.Ticket.Validate.{from_value, validate}
use corvint_tasks.Queue.{Operation}
use corvint_tasks.Mutation.Payload.{Payload, operation, reason}
use corvint_tasks.Mutation.Context.{
  pass, >>=-eq-pass, checked, refuse_when, refusal, OutcomeKind, Context, Observation, unsatisfied,
}
use corvint_tasks.Mutation.Step.{step, perform, change_state, state_refusal, over_limit}
use corvint_tasks.Mutation.Finalize.{
  finalize, chain_fields, acceptance_changed, check_record, revalidate, forces_acceptance_bump,
  live_attempt, is_unsatisfied, values_eq,
}
use corvint_tasks.Mutation.Apply.{mutate}
use corvint_tasks.Mutation.Lifecycle.{step_parts}

-- The fields that only finalize and CREATE write.
pub record KeepsIdentity (a b : Record) : Type 0 where
  pub ticket_id : b.ticket_id ≡ a.ticket_id
  pub revision : b.revision ≡ a.revision
  pub acceptance_revision : b.acceptance_revision ≡ a.acceptance_revision
  pub source : b.source ≡ a.source
  pub superseded_by : b.superseded_by ≡ a.superseded_by
  pub shadow_overlay : b.shadow_overlay ≡ a.shadow_overlay
  pub created_at : b.created_at ≡ a.created_at

change_state-KeepsIdentity :
    (work post : Record) (op : Operation)
    → change_state work op ≡ pass post
    → KeepsIdentity work post
unfolding change_state
change_state-KeepsIdentity work post Operation.reopen h = ground arith
change_state-KeepsIdentity work post Operation.archive h = ground arith
change_state-KeepsIdentity work post Operation.restore h = ground arith
change_state-KeepsIdentity work post _ h = cc

perform-KeepsIdentity :
    (ctx : Context) (work post : Record) (p : Payload)
    → perform ctx work p ≡ pass post
    → KeepsIdentity work post
unfolding perform
perform-KeepsIdentity ctx work post (reason op why) h = change_state-KeepsIdentity work post op h
perform-KeepsIdentity ctx work post _ h = ground arith

step-KeepsIdentity :
    (ctx : Context) (work post : Record) (p : Payload)
    → step ctx work p ≡ pass post
    → KeepsIdentity work post
step-KeepsIdentity ctx work post p h =
    perform-KeepsIdentity ctx work post p (step_parts ctx work post p h).3

pub from_value-eq : (rec out : Record) → from_value rec ≡ ok out → out ≡ rec
unfolding from_value
from_value-eq rec out h =
    let (u, fields, h1) = >>=-eq-ok (check_fields rec) _ h in
    let (w, relations, h2) = >>=-eq-ok (validate rec) _ h1 in cc

-- What a mutation that succeeds makes of the canonical record: the next link of its chain.
pub record IsNext (sum : Text → Digest) (ctx : Context) (pre post : Record) (op : Operation)
    : Type 0 where
  pub ticket_id : post.ticket_id ≡ pre.ticket_id
  pub source : post.source ≡ pre.source
  pub shadow_overlay : post.shadow_overlay ≡ pre.shadow_overlay
  pub created_at : post.created_at ≡ pre.created_at
  pub revision : post.revision ≡ pre.revision + 1
  pub in_range : post.revision ≤ max_count_value
  pub chained : post.previous_record_sha256 ≡ some (sum (record_bytes pre))
  pub acceptance : post.acceptance_revision ≡ (
      if forces_acceptance_bump op || acceptance_changed pre post
      then pre.acceptance_revision + 1
      else pre.acceptance_revision)
  pub frozen : is_completed pre.status ≡ true → acceptance_changed pre post ≡ false
  pub quiet :
      (forces_acceptance_bump op || acceptance_changed pre post) ≡ true
      → live_attempt ctx pre.ticket_id.raw ≡ unsatisfied
  pub stamped : (post.updated_at ≡ ctx.now) × (post.updated_by ≡ ctx.binding.id)
  pub valid : from_value post ≡ ok post

acceptance_changed-chain :
    (sum : Text → Digest) (ctx : Context) (pre work a : Record) (bump : Bool)
    → acceptance_changed a (chain_fields sum ctx pre work bump) ≡ acceptance_changed a work
unfolding acceptance_changed
acceptance_changed-chain sum ctx pre work a bump = refl

module _ (sum : Text → Digest) (ctx : Context) (pre work post : Record) (forced : Bool) where
  -- The checks of a finalize that succeeded.
  finalize_parts :
      finalize sum ctx pre work forced ≡ pass post
      → (post ≡ chain_fields sum ctx pre work (forced || acceptance_changed pre work))
        × (refuse_when (is_completed pre.status && acceptance_changed pre work) state_refusal
            ≡ pass tt)
        × (check_record ctx (some pre) work ≡ pass tt)
        × (refuse_when
              ((forced || acceptance_changed pre work)
                && not (is_unsatisfied (live_attempt ctx work.ticket_id.raw)))
              (refusal OutcomeKind.blocked attempt_live)
            ≡ pass tt)
        × (refuse_when (ltb max_count_value (pre.revision + 1)) over_limit ≡ pass tt)
        × (revalidate post ≡ pass tt)
  unfolding finalize
  finalize_parts h =
      let bump = forced || acceptance_changed pre work in
      let (a, e1, h1) =
        >>=-eq-pass
          (refuse_when (is_completed pre.status && acceptance_changed pre work) state_refusal) _
          h in
      let (b, e2, h2) = >>=-eq-pass (check_record ctx (some pre) work) _ h1 in
      let (c, e3, h3) =
        >>=-eq-pass
          (refuse_when (bump && not (is_unsatisfied (live_attempt ctx work.ticket_id.raw)))
            (refusal OutcomeKind.blocked attempt_live))
          _ h2 in
      let (d, e4, h4) =
        >>=-eq-pass (refuse_when (ltb max_count_value (pre.revision + 1)) over_limit) _ h3 in
      let (e, e5, h5) =
        >>=-eq-pass
          (refuse_when (bump && ltb max_count_value (pre.acceptance_revision + 1)) over_limit) _
          h4 in
      let (f, e6, h6) = >>=-eq-pass (revalidate (chain_fields sum ctx pre work bump)) _ h5 in
      let made : post ≡ chain_fields sum ctx pre work bump = cc in
      (made, e1, e2, e3, e4, rw made e6)

pub checked-eq-pass {ℓ} : {A : Type ℓ} (r : Result A) (a : A) → checked r ≡ pass a → r ≡ ok a
checked-eq-pass (ok b) a h = cc
checked-eq-pass (err e) a h = cc

revalidate-valid : (r : Record) → revalidate r ≡ pass tt → from_value r ≡ ok r
unfolding revalidate
revalidate-valid r h =
    let (out, valid, h1) = >>=-eq-pass (checked (from_value r)) _ h in
    let decoded = checked-eq-pass (from_value r) out valid in
    rw decoded (ap (λ (x : Record). ok x) (from_value-eq r out decoded))

quiet_part :
    (bump : Bool) (o : Observation)
    → refuse_when (bump && not (is_unsatisfied o)) (refusal OutcomeKind.blocked attempt_live)
      ≡ pass tt
    → bump ≡ true
    → o ≡ unsatisfied
quiet_part bump o h e = ground arith

-- A mutation that succeeds makes the next link of the chain: the same ticket, with one more revision,
-- one more acceptance revision exactly when the operation forces it or an acceptance-relevant field
-- has changed, the digest of the record before, and the stamp of the context. It is a valid record. A
-- completed ticket keeps its acceptance-relevant fields, and the acceptance revision changes only
-- while it is observed that no attempt is live.
pub mutate-IsNext :
    (sum : Text → Digest) (ctx : Context) (pre post : Record) (p : Payload)
    → mutate sum ctx pre p ≡ pass post
    → IsNext sum ctx pre post (operation p)
unfolding mutate
mutate-IsNext sum ctx pre post p h =
    let (work, e1, h1) = >>=-eq-pass (checked (from_value pre)) _ h in
    let same : work ≡ pre = from_value-eq pre work (checked-eq-pass (from_value pre) work e1) in
    let (stepped, e2, h2) = >>=-eq-pass (step ctx work p) _ h1 in
    let forced = forces_acceptance_bump (operation p) in
    let (made, freeze, record_ok, calm, room, final) =
      finalize_parts sum ctx pre stepped post forced h2 in
    let bump = forced || acceptance_changed pre stepped in
    let keeps : KeepsIdentity pre stepped =
      subst (λ r. KeepsIdentity r stepped) same (step-KeepsIdentity ctx work stepped p e2) in
    let differs : acceptance_changed pre post ≡ acceptance_changed pre stepped =
      rw made (acceptance_changed-chain sum ctx pre stepped pre bump) in
    record {
      ticket_id = ap (λ (r : Record). r.ticket_id) made ∙ keeps.ticket_id;
      source = ap (λ (r : Record). r.source) made ∙ keeps.source;
      shadow_overlay = ap (λ (r : Record). r.shadow_overlay) made ∙ keeps.shadow_overlay;
      created_at = ap (λ (r : Record). r.created_at) made ∙ keeps.created_at;
      revision = ap (λ (r : Record). r.revision) made;
      in_range = rw (ap (λ (r : Record). r.revision) made) (ground arith);
      chained = ap (λ (r : Record). r.previous_record_sha256) made;
      acceptance = rw differs (ap (λ (r : Record). r.acceptance_revision) made);
      frozen = λ c. rw differs (ground arith);
      quiet = λ b.
          rw (ap (λ (t : TicketId). live_attempt ctx t.raw) (sym keeps.ticket_id))
            (quiet_part bump (live_attempt ctx stepped.ticket_id.raw) calm (rw differs at b));
      stamped = (ap (λ (r : Record). r.updated_at) made, ap (λ (r : Record). r.updated_by) made);
      valid = revalidate-valid post final;
    }

values_eq_refl : (vs : List Value) → values_eq vs vs ≡ true
unfolding values_eq
values_eq_refl [] = refl
values_eq_refl (v ∷ vs) = rw (text_eq_refl (encode v)) (values_eq_refl vs)

-- Nothing that matters for acceptance has changed when the values that are compared are the same.
pub acceptance_kept :
    (pre post : Record)
    → acceptance_values pre ≡ acceptance_values post
    → acceptance_changed pre post ≡ false
unfolding acceptance_changed
acceptance_kept pre post same = ap not (
    subst (λ vs. values_eq (acceptance_values pre) vs ≡ true) same
      (values_eq_refl (acceptance_values pre)))

-- A mutation that succeeds, as its operation on a valid record and the chain fields.
pub mutate_parts :
    (sum : Text → Digest) (ctx : Context) (pre post : Record) (p : Payload)
    → mutate sum ctx pre p ≡ pass post
    → (stepped : Record) × (step ctx pre p ≡ pass stepped)
      × (post
          ≡ chain_fields sum ctx pre stepped
              (forces_acceptance_bump (operation p) || acceptance_changed pre stepped))
unfolding mutate
mutate_parts sum ctx pre post p h =
    let (work, e1, h1) = >>=-eq-pass (checked (from_value pre)) _ h in
    let same : work ≡ pre = from_value-eq pre work (checked-eq-pass (from_value pre) work e1) in
    let (stepped, e2, h2) = >>=-eq-pass (step ctx work p) _ h1 in
    (
      stepped,
      subst (λ r. step ctx r p ≡ pass stepped) same e2,
      (finalize_parts sum ctx pre stepped post (forces_acceptance_bump (operation p)) h2).0,
    )
