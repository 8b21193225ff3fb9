-- ===== src/Examples/Create.antt =====
-- The creation of a concrete ticket.
use corvint_tasks.Base.{◌≡◌, refl, some}
use corvint_tasks.Text.{txt, split, text_eq, text_ltb, map_lower, lower}
use corvint_tasks.Wire.Ids.{parse_ticket_id}
use corvint_tasks.Wire.Encode.{encode}
use corvint_tasks.Ticket.Record.{record_bytes}
use corvint_tasks.Ticket.Fields.{check_fields}
use corvint_tasks.Ticket.Validate.{from_value, validate}
use corvint_tasks.Ticket.Inventory.{folded_locals}
use corvint_tasks.Mutation.Context.{pass}
use corvint_tasks.Mutation.Finalize.{check_record, revalidate}
use corvint_tasks.Mutation.Create.{create_record, allocate_serial, choose_local, may_create}
use corvint_tasks.Mutation.Create.Serial.{IsAllocated, allocate_serial-IsAllocated}
use corvint_tasks.Mutation.Create.Created.{IsCreated, create_record-IsCreated}
use corvint_tasks.Base.{arith}
use corvint_tasks.Text.{Text}
use corvint_tasks.Wire.Code.{ok}
use corvint_tasks.Wire.Decimal.{Count}
use corvint_tasks.Wire.Primitives.{parse_token}
use corvint_tasks.Mutation.Create.Tries.{allocate_serial-ends}
use corvint_tasks.Samples.{
  sample_context, sample_queue, sample_inventory, sample_create, ticket_created,
}

allocate_run : allocate_serial sample_inventory sample_queue ≡ pass (txt "AC-0001", 2)
unfolding allocate_serial text_eq map_lower lower
allocate_run = refl

allocate_serial-IsAllocated_example :
    IsAllocated sample_queue.prefix (folded_locals sample_inventory.records) 1 (txt "AC-0001") 2
allocate_serial-IsAllocated_example =
    allocate_serial-IsAllocated sample_inventory sample_queue (txt "AC-0001") 2 allocate_run

create_run :
    create_record sample_context sample_create
    ≡ pass (ticket_created, some (record sample_queue { next_serial = 2 }))
unfolding create_record may_create choose_local parse_ticket_id from_value check_fields validate
    check_record revalidate record_bytes encode split text_eq text_ltb map_lower lower
create_run = refl

create_record-IsCreated_example :
    IsCreated sample_context sample_create ticket_created
      (some (record sample_queue { next_serial = 2 }))
create_record-IsCreated_example =
    create_record-IsCreated sample_context sample_create ticket_created
      (some (record sample_queue { next_serial = 2 })) create_run

prefix_run : parse_token (txt "AC") 53 ≡ ok (txt "AC")
unfolding parse_token text_eq
prefix_run = refl

allocate_serial-ends_example :
    (token : Text) × (next : Count) × (allocate_serial sample_inventory sample_queue
      ≡ pass (token, next))
allocate_serial-ends_example =
    allocate_serial-ends sample_inventory sample_queue prefix_run (omega arith)
