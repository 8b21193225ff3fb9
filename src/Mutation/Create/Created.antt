-- ===== src/Mutation/Create/Created.antt =====
-- What create of internal/mutation/apply.go makes.
use mathlib.Core.Path.{subst}
use corvint_tasks.Base.{◌<◌, ◌≡◌, refl, sym, false, Option, none, some, ◌∷◌, arith, leb}
use corvint_tasks.Text.{Text}
use corvint_tasks.Wire.Code.{ok}
use corvint_tasks.Wire.Limits.{max_tickets_per_queue}
use corvint_tasks.Wire.Decimal.{Count}
use corvint_tasks.Wire.Ids.{TicketId, parse_ticket_id}
use corvint_tasks.Ticket.Record.{Record, effective_status}
use corvint_tasks.Ticket.Validate.{from_value}
use corvint_tasks.Ticket.Inventory.{len, folded_locals, check_local_token, check_dependencies}
use corvint_tasks.Ticket.Inventory.Acyclic.{IsAcyclic, check_dependencies-IsAcyclic}
use corvint_tasks.Queue.{Queue}
use corvint_tasks.Mutation.Payload.{CreatePayload}
use corvint_tasks.Mutation.Context.{pass, >>=-eq-pass, checked, refuse_when, Context}
use corvint_tasks.Mutation.Step.{opens, open_draft, over_limit}
use corvint_tasks.Mutation.Finalize.{check_record, revalidate}
use corvint_tasks.Mutation.Create.{
  create_record, new_record, choose_local, may_create, advanced_queue, id_text, allocate_serial,
}
use corvint_tasks.Mutation.Create.Serial.{IsAllocated, allocate_serial-IsAllocated}
use corvint_tasks.Mutation.Lifecycle.{IsLifecycle}
use corvint_tasks.Mutation.Chain.{from_value-eq, checked-eq-pass}

-- The parts of a create that succeeded.
create_parts :
    (ctx : Context) (p : CreatePayload) (rec : Record) (q : Option Queue)
    → create_record ctx p ≡ pass (rec, q)
    → (local : Text) × (serial : Count) × (id : TicketId) × (leb max_tickets_per_queue
          (len ctx.inventory)
        ≡ false)
      × (choose_local ctx p ≡ pass (local, serial))
      × (parse_ticket_id (id_text ctx local) ≡ ok id)
      × (rec ≡ open_draft (new_record ctx p id))
      × (from_value rec ≡ ok rec)
      × (check_record ctx none rec ≡ pass tt)
      × (q ≡ advanced_queue p.local_token ctx.queue serial)
unfolding create_record
create_parts ctx p rec q h =
    let (u, e1, h1) = >>=-eq-pass (may_create ctx.binding.role p) _ h in
    let (w, e2, h2) =
      >>=-eq-pass (refuse_when (leb max_tickets_per_queue (len ctx.inventory)) over_limit) _ h1 in
    let ((local, serial), e3, h3) = >>=-eq-pass (choose_local ctx p) _ h2 in
    let (id, e4, h4) = >>=-eq-pass (checked (parse_ticket_id (id_text ctx local))) _ h3 in
    let (work, e5, h5) =
      >>=-eq-pass (checked (from_value (open_draft (new_record ctx p id)))) _ h4 in
    let (x, e6, h6) = >>=-eq-pass (check_record ctx none work) _ h5 in
    let (y, e7, h7) = >>=-eq-pass (revalidate work) _ h6 in
    let decoded = checked-eq-pass (from_value (open_draft (new_record ctx p id))) work e5 in
    let same : work ≡ open_draft (new_record ctx p id) = from_value-eq _ work decoded in
    let made : rec ≡ work = cc in
    let valid : from_value work ≡ ok work =
      subst (λ r. from_value r ≡ ok work) (sym same) decoded in
    (
      local,
      serial,
      id,
      ground arith,
      e3,
      checked-eq-pass _ id e4,
      rw made same,
      rw made valid,
      rw made e6,
      cc,
    )

create_dependencies :
    (ctx : Context) (rec : Record)
    → check_record ctx none rec ≡ pass tt
    → check_dependencies ctx.inventory rec ≡ ok tt
unfolding check_record
create_dependencies ctx rec h =
    let (tt, e, h1) = >>=-eq-pass (checked (check_dependencies ctx.inventory rec)) _ h in
    checked-eq-pass (check_dependencies ctx.inventory rec) tt e

new_record-IsLifecycle :
    (ctx : Context) (p : CreatePayload) (id : TicketId)
    → IsLifecycle (open_draft (new_record ctx p id))
unfolding effective_status opens
new_record-IsLifecycle ctx p id = ground arith

-- A new ticket: the first link of its chain.
pub record IsCreated (ctx : Context) (p : CreatePayload) (rec : Record) (q : Option Queue)
    : Type 0 where
  pub room : len ctx.inventory < max_tickets_per_queue
  pub first :
      (rec.revision ≡ 1) × (rec.acceptance_revision ≡ 1) × (rec.previous_record_sha256 ≡ none)
  pub stamped :
      (rec.created_at ≡ ctx.now) × (rec.updated_at ≡ ctx.now) × (rec.updated_by ≡ ctx.binding.id)
  pub valid : from_value rec ≡ ok rec
  pub lifecycle : IsLifecycle rec
  pub acyclic : IsAcyclic ctx.inventory.records → IsAcyclic (rec ∷ ctx.inventory.records)
  pub local : Text
  pub named : parse_ticket_id (id_text ctx local) ≡ ok rec.ticket_id
  pub given :
      (token : Text)
      → p.local_token ≡ some token
      → (local ≡ token) × (check_local_token ctx.inventory token ≡ ok tt) × (q ≡ none)
  pub allocated :
      p.local_token ≡ none
      → (next : Count) × IsAllocated ctx.queue.prefix
          (folded_locals ctx.inventory.records)
          ctx.queue.next_serial
          local
          next
        × (q ≡ some (record ctx.queue { next_serial = next }))

given_token :
    (ctx : Context) (p : CreatePayload) (local token : Text) (serial : Count)
    → choose_local ctx p ≡ pass (local, serial)
    → p.local_token ≡ some token
    → (local ≡ token) × (check_local_token ctx.inventory token ≡ ok tt)
unfolding choose_local
given_token ctx p local token serial h e =
    let (tt, free, made) =
      >>=-eq-pass (checked (check_local_token ctx.inventory token)) _ (rw (e, choose_local) at h) in
    (cc, checked-eq-pass _ tt free)

choose_local-IsAllocated :
    (ctx : Context) (p : CreatePayload) (local : Text) (serial : Count)
    → choose_local ctx p ≡ pass (local, serial)
    → p.local_token ≡ none
    → IsAllocated ctx.queue.prefix
        (folded_locals ctx.inventory.records)
        ctx.queue.next_serial
        local
        serial
unfolding allocate_serial choose_local
choose_local-IsAllocated ctx p local serial h e =
    allocate_serial-IsAllocated ctx.inventory ctx.queue local serial (rw (e, choose_local) at h)

-- A CREATE that succeeds makes the first link of a chain, stamped by the context, for which there was room in
-- the queue. The record is valid, it keeps the lifecycle, and with it the dependency graph stays free
-- of cycles. Its local token is the one of the payload, which no ticket had before, and the manifest is left
-- alone; or it is allocated, and the manifest goes on behind it.
pub create_record-IsCreated :
    (ctx : Context) (p : CreatePayload) (rec : Record) (q : Option Queue)
    → create_record ctx p ≡ pass (rec, q)
    → IsCreated ctx p rec q
create_record-IsCreated ctx p rec q h =
    let (local, serial, id, room, chosen, named, made, valid, checks, post) =
      create_parts ctx p rec q h in
    record {
      room = ground arith;
      first = rw made (refl, refl, refl);
      stamped = rw made (refl, refl, refl);
      valid = valid;
      lifecycle = rw made (new_record-IsLifecycle ctx p id);
      acyclic = λ old.
          check_dependencies-IsAcyclic ctx.inventory rec old (create_dependencies ctx rec checks);
      local = local;
      named = rw made named;
      given = λ token e.
          let (same, free) = given_token ctx p local token serial chosen e in
          (same, free, rw e at post);
      allocated = λ e. (serial, choose_local-IsAllocated ctx p local serial chosen e, rw e at post);
    }
