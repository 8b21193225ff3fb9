-- ===== src/Examples/Ticket.antt =====
-- The dependency checks at a concrete inventory.
use corvint_tasks.Base.{◌≡◌, ◌↔◌, refl, some, [], ◌∷◌, In, All}
use corvint_tasks.Text.{Text, txt, text_eq, text_ltb}
use corvint_tasks.Wire.Code.{Result, ok}
use corvint_tasks.Ticket.Inventory.{
  Inventory, check_dependencies, search_back, search_fuel, push_all, targets, edges_of,
}
use corvint_tasks.Ticket.Inventory.Search.{Leads}
use corvint_tasks.Ticket.Inventory.Fuel.{search_back-decides}
use corvint_tasks.Ticket.Inventory.Acyclic.{
  IsAcyclic, IsPresent, check_dependencies_lem, check_dependencies-IsAcyclic,
}
use corvint_tasks.Base.{◌≤◌, length}
use corvint_tasks.Text.{map_lower, lower}
use corvint_tasks.Wire.Limits.{max_tickets_per_queue}
use corvint_tasks.Ticket.Record.{Record}
use corvint_tasks.Ticket.Inventory.{new_inventory, get}
use corvint_tasks.Ticket.Inventory.Planning.{
  IsPairwise, Precedes, sort_by, planned_before, by_plan, by_plan-IsPlanned,
}
use corvint_tasks.Ticket.Names.{p0, p3}
use corvint_tasks.Ticket.Inventory.Unique.{IsInventory, new_inventory-IsInventory}
use corvint_tasks.Ticket.Validate.{validate}
use corvint_tasks.Ticket.Validate.Sound.{IsWellFormed, validate_lem}
use corvint_tasks.Samples.{sample_queue_id, sample_inventory, ticket_a, ticket_b, ticket_a_on_b}

search_back-decides_example :
    (r : Result (Unit {0})) × (search_back
        (search_fuel sample_inventory.records (txt "ticket:acme:main:B" ∷ []))
        sample_inventory.records
        (txt "ticket:acme:main:A")
        []
        (push_all (txt "ticket:acme:main:B" ∷ []) [])
      ≡ some r)
search_back-decides_example =
    search_back-decides sample_inventory.records (txt "ticket:acme:main:A")
      (txt "ticket:acme:main:B" ∷ [])

check_dependencies_lem_example : (check_dependencies sample_inventory ticket_a_on_b ≡ ok tt) ↔ (
    All
      (IsPresent sample_inventory.records ticket_a_on_b.ticket_id.raw)
      (targets ticket_a_on_b.dependencies)
    × ((d : Text)
        → In d (targets ticket_a_on_b.dependencies)
        → Leads sample_inventory.records d ticket_a_on_b.ticket_id.raw
        → ⊥))
check_dependencies_lem_example = check_dependencies_lem sample_inventory ticket_a_on_b

-- An inventory that holds A alone
abbrev inventory_a : Inventory
inventory_a = record { queue_id = sample_queue_id; records = ticket_a ∷ [] }

abbrev no_tickets : Inventory
no_tickets = record { queue_id = sample_queue_id; records = [] }

no_tickets-IsAcyclic : IsAcyclic []
unfolding edges_of
no_tickets-IsAcyclic v w m path = elim m [ ]

admits_a : check_dependencies no_tickets ticket_a ≡ ok tt
unfolding check_dependencies text_eq
admits_a = refl

admits_b : check_dependencies inventory_a ticket_b ≡ ok tt
unfolding check_dependencies text_eq
admits_b = refl

inventory_a-IsAcyclic : IsAcyclic inventory_a.records
inventory_a-IsAcyclic =
    check_dependencies-IsAcyclic no_tickets ticket_a no_tickets-IsAcyclic admits_a

check_dependencies-IsAcyclic_example : IsAcyclic (ticket_b ∷ ticket_a ∷ [])
check_dependencies-IsAcyclic_example =
    check_dependencies-IsAcyclic inventory_a ticket_b inventory_a-IsAcyclic admits_b

validate_lem_example : (validate ticket_b ≡ ok tt) ↔ IsWellFormed ticket_b
validate_lem_example = validate_lem ticket_b

inventory_run : new_inventory sample_queue_id (ticket_b ∷ ticket_a ∷ []) ≡ ok sample_inventory
unfolding new_inventory text_eq map_lower lower
inventory_run = refl

new_inventory-IsInventory_example :
    IsInventory sample_queue_id.raw sample_inventory.records
    × (length sample_inventory.records ≡ 2)
    × (2 ≤ max_tickets_per_queue)
    × ((r : Record)
        → In r (ticket_b ∷ ticket_a ∷ [])
        → get sample_inventory r.ticket_id.raw ≡ some r)
new_inventory-IsInventory_example =
    new_inventory-IsInventory sample_queue_id (ticket_b ∷ ticket_a ∷ []) sample_inventory
      inventory_run

by_plan-IsPlanned_example :
    IsPairwise Precedes (by_plan sample_inventory)
    × ((r : Record) → In r (by_plan sample_inventory) ↔ In r sample_inventory.records)
    × (length (by_plan sample_inventory) ≡ length sample_inventory.records)
by_plan-IsPlanned_example = by_plan-IsPlanned sample_inventory

-- A ticket of priority P0 is planned in front of one of P3.
urgent_first :
    by_plan (record sample_inventory {
      records = record ticket_a { priority = p3 } ∷ record ticket_b { priority = p0 } ∷ [];
    })
    ≡ record ticket_b { priority = p0 } ∷ record ticket_a { priority = p3 } ∷ []
unfolding sort_by planned_before text_eq text_ltb
urgent_first = refl
