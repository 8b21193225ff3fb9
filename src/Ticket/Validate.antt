-- ===== src/Ticket/Validate.antt =====
-- validate of internal/ticket/record.go: the relations between fields, in the order of the source.
pub mod Checks
pub mod Sound
use corvint_tasks.Base.{
  Bool, true, false, not, ◌&&◌, ◌||◌, Option, none, some, List, [], ◌∷◌, ◌++◌, map, ltb, ◌==◌,
  length, any, is_some,
}
use corvint_tasks.Text.{Text, text_eq}
use corvint_tasks.Wire.Code.{
  Result, ok, malformed, dependency_missing, cycle, duplicate_id, refuse_if, ◌>>◌,
}
use corvint_tasks.Wire.Ids.{TicketId, queue_id}
use corvint_tasks.Ticket.Names.{
  verified, manual, obligation_name, is_held, is_completed, is_archived, is_gate_passed, is_import,
}
use corvint_tasks.Ticket.Record.{Dependency, Completion, Record, effective_status}
use corvint_tasks.Ticket.Fields.{check_fields}

abbrev pub xor : Bool → Bool → Bool
xor true b = not b
xor false b = b

-- revision and acceptanceRevision start at 1, and the chain digest is null exactly at revision 1
unfoldable pub check_revisions : Record → Result (Unit {0})
check_revisions rec = do
  refuse_if (ltb rec.revision 1) malformed
  refuse_if (ltb rec.acceptance_revision 1) malformed
  refuse_if (ltb rec.revision rec.acceptance_revision) malformed
  refuse_if ((rec.revision == 1) && is_some rec.previous_record_sha256) malformed
  refuse_if (not (rec.revision == 1) && not (is_some rec.previous_record_sha256)) malformed

abbrev check_completion_kind : Option Completion → Result (Unit {0})
check_completion_kind none = ok tt
check_completion_kind (some c) = elim c.kind [
  | manual ↦ refuse_if (is_some c.manifest_sha256) malformed
  | verified ↦ refuse_if (not (is_some c.manifest_sha256)) malformed
]

-- archivedFrom, holds and completion against the status
unfoldable pub check_lifecycle : Record → Result (Unit {0})
unfolding effective_status
check_lifecycle rec = do
  refuse_if (xor (is_archived rec.status) (is_some rec.archived_from)) malformed
  let effective = effective_status rec
  refuse_if (xor (is_held effective) (ltb 0 (length rec.holds))) malformed
  refuse_if (is_completed effective && not (is_some rec.completion)) malformed
  refuse_if (not (is_completed effective) && is_some rec.completion) malformed
  check_completion_kind rec.completion

-- The key under which an edge is seen once.
abbrev pub edge_key : Dependency → Text
edge_key d =
    d.ticket_id.raw
    ++ (0 ∷ (obligation_name d.obligation ++ elim d.gate_id [ none ↦ [] | some g ↦ 0 ∷ g ]))

-- The loop over the dependencies of the ticket `id`, with the keys that it has seen.
unfoldable pub check_edges : TicketId → List Text → List Dependency → Result (Unit {0})
check_edges id seen [] = ok tt
check_edges id seen (d ∷ ds) = do
  refuse_if (xor (is_gate_passed d.obligation) (is_some d.gate_id)) malformed
  refuse_if (not (text_eq (queue_id d.ticket_id) (queue_id id))) dependency_missing
  refuse_if (text_eq d.ticket_id.raw id.raw) cycle
  refuse_if (any (text_eq (edge_key d)) seen) duplicate_id
  check_edges id (edge_key d ∷ seen) ds

unfoldable pub check_provenance : Record → Result (Unit {0})
check_provenance rec = do
  refuse_if (is_import rec.source.kind && not (is_some rec.source.source_item_id)) malformed
  refuse_if
      (not (is_import rec.source.kind)
        && (is_some rec.source.source_item_id || is_some rec.source.source_revision_sha256))
      malformed
  refuse_if (rec.shadow_overlay && not (is_import rec.source.kind)) malformed

-- The loop for unique holdIds and grantIds, with those seen so far.
unfoldable pub check_unique : List Text → List Text → Result (Unit {0})
check_unique seen [] = ok tt
check_unique seen (k ∷ ks) = do
  refuse_if (any (text_eq k) seen) duplicate_id
  check_unique (k ∷ seen) ks

abbrev pub check_reference : TicketId → Option TicketId → Result (Unit {0})
check_reference id none = ok tt
check_reference id (some ref) = do
  refuse_if (text_eq ref.raw id.raw) malformed
  refuse_if (not (text_eq (queue_id ref) (queue_id id))) malformed

-- Record.validate. Go runs over the two supersession references in no fixed order: both have the same
-- code.
unfoldable pub validate : Record → Result (Unit {0})
unfolding check_revisions check_lifecycle check_edges check_provenance check_unique
validate rec = do
  check_revisions rec
  check_lifecycle rec
  check_edges rec.ticket_id [] rec.dependencies
  check_provenance rec
  check_unique [] (map (λ h. h.hold_id) rec.holds)
  check_unique [] (map (λ a. a.grant_id) rec.approvals)
  check_reference rec.ticket_id rec.supersedes
  check_reference rec.ticket_id rec.superseded_by

-- FromValue on the value of a record.
unfoldable pub from_value : Record → Result Record
from_value rec = do check_fields rec; validate rec; ok rec
