-- ===== src/Ticket/Inventory.antt =====
-- The inventory of internal/ticket/graph.go: the current records of one queue, and the check of
-- proposed dependencies. The map byID is the list of its records, whose ids differ.
pub mod Search
pub mod Fuel
pub mod Acyclic
pub mod Unique
pub mod Planning
use corvint_tasks.Base.{
  ℕ, zero, suc, ◌+◌, Bool, true, false, Option, none, some, List, [], ◌∷◌, map, ltb, length, any,
  if◌then◌else◌,
}
use corvint_tasks.Text.{Text, text_eq, map_lower}
use corvint_tasks.Wire.Code.{
  Result, ok, err, malformed, limit_exceeded, duplicate_id, dependency_missing, cycle, require,
  refuse_if, ◌>>=◌, ◌>>◌,
}
use corvint_tasks.Wire.Limits.{max_tickets_per_queue}
use corvint_tasks.Wire.Ids.{QueueId, TicketId, queue_id}
use corvint_tasks.Wire.Primitives.{fold_token}
use corvint_tasks.Ticket.Record.{Dependency, Record}

pub record Inventory : Type 0 where
  pub queue_id : QueueId
  pub records : List Record

unfoldable pub find : Text → List Record → Option Record
find id [] = none
find id (r ∷ rs) = if text_eq r.ticket_id.raw id then some r else find id rs

-- Inventory.Get
unfoldable pub get : Inventory → Text → Option Record
unfolding find
get inv id = find id inv.records

-- Inventory.Len
abbrev pub len : Inventory → ℕ
len inv = length inv.records

-- The local tokens of the records, folded.
unfoldable pub folded_locals : List Record → List Text
unfolding fold_token
folded_locals rs = map (λ r. fold_token r.ticket_id.local) rs

-- The loop of NewInventory, with the records that it has taken in.
unfoldable pub admit : Text → List Record → List Record → Result (List Record)
unfolding find folded_locals
admit queue seen [] = ok seen
admit queue seen (r ∷ rs) = do
  require (text_eq (queue_id r.ticket_id) queue) malformed
  refuse_if (elim (find r.ticket_id.raw seen) [ none ↦ false | some s ↦ true ]) duplicate_id
  refuse_if (any (text_eq (fold_token r.ticket_id.local)) (folded_locals seen)) duplicate_id
  admit queue (r ∷ seen) rs

-- NewInventory, without the search for cycles, whose result only Problems reads
unfoldable pub new_inventory : QueueId → List Record → Result Inventory
unfolding admit
new_inventory queue records = do
  refuse_if (ltb max_tickets_per_queue (length records)) limit_exceeded
  rs ← admit queue.raw [] records
  ok (record { queue_id = queue; records = rs })

abbrev pub targets : List Dependency → List Text
targets ds = map (λ d. d.ticket_id.raw) ds

-- The edges that leave a ticket of the inventory.
unfoldable pub edges_of : List Record → Text → List Text
unfolding find
edges_of rs v = elim (find v rs) [ none ↦ [] | some r ↦ targets r.dependencies ]

-- The dependencies of a ticket are pushed in turn, the last one on top.
unfoldable pub push_all : List Text → List Text → List Text
push_all [] stack = stack
push_all (v ∷ vs) stack = push_all vs (v ∷ stack)

-- The search of CheckDependencies for a path back to the target. The top of the stack is the head of
-- the list; `none` means that the fuel ran out.
unfoldable pub search_back :
    ℕ → List Record → Text → List Text → List Text → Option (Result (Unit {0}))
unfolding edges_of push_all
search_back zero rs target visited stack = none
search_back (suc fuel) rs target visited [] = some (ok tt)
search_back (suc fuel) rs target visited (v ∷ stack) = elim (text_eq v target) [
  | true ↦ some (err cycle)
  | false ↦ elim (any (text_eq v) visited) [
    | true ↦ search_back fuel rs target visited stack
    | false ↦ search_back fuel rs target (v ∷ visited) (push_all (edges_of rs v) stack)
  ]
]

-- The loop over the proposed dependencies: none is the ticket itself, all exist.
unfoldable pub check_present : List Record → Text → List Text → Result (Unit {0})
unfolding find
check_present rs target [] = ok tt
check_present rs target (d ∷ ds) = do
  refuse_if (text_eq d target) cycle
  refuse_if (elim (find d rs) [ none ↦ true | some r ↦ false ]) dependency_missing
  check_present rs target ds

unfoldable pub edge_count : List Record → ℕ
edge_count [] = 0
edge_count (r ∷ rs) = length r.dependencies + edge_count rs

-- Each proposed edge, and each edge of the inventory, is pushed once at most.
unfoldable pub search_fuel : List Record → List Text → ℕ
unfolding edge_count
search_fuel rs proposed = suc (length proposed + edge_count rs)

-- The result of a search that came to its end; search_back-decides shows that it always does.
abbrev pub search_result : Option (Result (Unit {0})) → Result (Unit {0})
search_result none = err malformed
search_result (some r) = r

-- CheckDependencies
unfoldable pub check_dependencies : Inventory → Record → Result (Unit {0})
unfolding check_present search_back search_fuel push_all
check_dependencies inv proposed = do
  let target = proposed.ticket_id.raw
  let next = targets proposed.dependencies
  check_present inv.records target next
  search_result
      (search_back (search_fuel inv.records next) inv.records target [] (push_all next []))

-- CheckLocalToken
unfoldable pub check_local_token : Inventory → Text → Result (Unit {0})
unfolding fold_token folded_locals
check_local_token inv local =
    refuse_if (any (text_eq (fold_token local)) (folded_locals inv.records)) duplicate_id
