-- ===== src/Ticket/Validate/Sound.antt =====
-- Record.validate against an independent description of a well-formed record.
use corvint_tasks.Base.{
  ◌≤◌, ◌≡◌, ◌≢◌, refl, ◌↔◌, inl, inr, true, false, Option, none, some, List, [], ◌∷◌, map, arith,
  ltb, length, any, is_some, All, Option-cases,
}
use corvint_tasks.Text.{Text, text_eq}
use corvint_tasks.Wire.Code.{ok, refuse_if, malformed, duplicate_id, cycle, dependency_missing}
use corvint_tasks.Wire.Ids.{TicketId, queue_id}
use corvint_tasks.Ticket.Names.{
  verified, manual, is_held, is_completed, is_archived, is_gate_passed, is_import,
}
use corvint_tasks.Ticket.Record.{Record, Dependency, Completion, effective_status}
use corvint_tasks.Ticket.Validate.{
  validate, check_revisions, check_lifecycle, check_edges, check_provenance, check_unique,
  check_reference, edge_key,
}
use corvint_tasks.Ticket.Inventory.Unique.{IsDistinct}
use corvint_tasks.Ticket.Validate.Checks.{
  both, both_iff, refuse_if_iff, check_unique_iff, xor_iff, outside_iff, own_iff,
}

-- The revisions start at 1, acceptanceRevision is at most the revision, and the record names the one before it
-- exactly when it is not the first.
pub record IsRevised (rec : Record) : Type 0 where
  pub started : 1 ≤ rec.acceptance_revision
  pub ordered : rec.acceptance_revision ≤ rec.revision
  pub first : rec.revision ≡ 1 → is_some rec.previous_record_sha256 ≡ false
  pub later : rec.revision ≢ 1 → is_some rec.previous_record_sha256 ≡ true

check_revisions_lem : (rec : Record) → (check_revisions rec ≡ ok tt) ↔ IsRevised rec
unfolding check_revisions
check_revisions_lem rec = (λ h. ground arith, λ v. ground arith)

-- The status agrees with archivedFrom, the holds and the completion.
pub record IsSettled (rec : Record) : Type 0 where
  pub archived_iff : is_archived rec.status ≡ is_some rec.archived_from
  pub held_iff : is_held (effective_status rec) ≡ ltb 0 (length rec.holds)
  pub completed_iff : is_completed (effective_status rec) ≡ is_some rec.completion
  pub manual_bare :
      (c : Completion)
      → rec.completion ≡ some c
      → c.kind ≡ manual
      → is_some c.manifest_sha256 ≡ false
  pub verified_named :
      (c : Completion)
      → rec.completion ≡ some c
      → c.kind ≡ verified
      → is_some c.manifest_sha256 ≡ true

check_lifecycle_lem : (rec : Record) → (check_lifecycle rec ≡ ok tt) ↔ IsSettled rec
unfolding check_lifecycle
check_lifecycle_lem rec = (
  λ h. ground arith,
  λ v. elim (Option-cases rec.completion) [
    | inl nothing ↦ ground (arith, v.archived_iff, v.held_iff, v.completed_iff)
    | inr (c, there) ↦ ground (
      arith,
      v.archived_iff,
      v.held_iff,
      v.completed_iff,
      v.manual_bare c there,
      v.verified_named c there,
    )
  ],
)

-- An imported ticket names its source item, and only an imported one carries source facts.
pub record IsProvenance (rec : Record) : Type 0 where
  pub item_iff : is_import rec.source.kind ≡ is_some rec.source.source_item_id
  pub no_digest :
      is_import rec.source.kind ≡ false → is_some rec.source.source_revision_sha256 ≡ false
  pub no_overlay : is_import rec.source.kind ≡ false → rec.shadow_overlay ≡ false

check_provenance_lem : (rec : Record) → (check_provenance rec ≡ ok tt) ↔ IsProvenance rec
unfolding check_provenance
check_provenance_lem rec = (λ h. ground arith, λ v. ground arith)

-- An edge names a gate exactly when its obligation is GATE_PASSED, and leads to another ticket of the
-- queue.
pub record IsEdge (id : TicketId) (d : Dependency) : Type 0 where
  pub gated : is_gate_passed d.obligation ≡ is_some d.gate_id
  pub same_queue : queue_id d.ticket_id ≡ queue_id id
  pub another : d.ticket_id.raw ≢ id.raw

-- The loop over the edges, with the keys that it has seen.
check_edges_lem :
    (id : TicketId) (seen : List Text) (ds : List Dependency)
    → (check_edges id seen ds ≡ ok tt)
      ↔ (All (IsEdge id) ds × (check_unique seen (map edge_key ds) ≡ ok tt))
unfolding check_edges check_unique
check_edges_lem id seen [] = (λ h. (tt, refl), λ h. refl)
check_edges_lem id seen (d ∷ ds) =
    let later = check_edges_lem id (edge_key d ∷ seen) ds in
    let keys =
      both (refuse_if (any (text_eq (edge_key d)) seen) duplicate_id)
        (check_unique (edge_key d ∷ seen) (map edge_key ds)) in
    let all = both_iff (xor_iff (is_gate_passed d.obligation) (is_some d.gate_id) malformed) (
      both_iff (outside_iff (queue_id d.ticket_id) (queue_id id) dependency_missing) (
        both_iff (own_iff d.ticket_id.raw id.raw cycle)
          (both_iff (refuse_if_iff (any (text_eq (edge_key d)) seen) duplicate_id) later))) in
    (
      λ h.
          let (gated, (same_queue, (another, (new, (edges, rest))))) = all.0 h in
          (
            (record { gated = gated; same_queue = same_queue; another = another }, edges),
            keys.1 ((refuse_if_iff _ duplicate_id).1 new, rest),
          ),
      λ h.
          let ((edge, edges), unique) = h in
          let (new, rest) = keys.0 unique in
          all.1 (
            edge.gated,
            (
              edge.same_queue,
              (edge.another, ((refuse_if_iff _ duplicate_id).0 new, (edges, rest))),
            ),
          ),
    )

-- A reference names another ticket of the queue.
abbrev pub IsReference : TicketId → Option TicketId → Type 0
IsReference id none = Unit
IsReference id (some ref) = (ref.raw ≢ id.raw) × (queue_id ref ≡ queue_id id)

check_reference_lem :
    (id : TicketId) (ref : Option TicketId) → (check_reference id ref ≡ ok tt) ↔ IsReference id ref
check_reference_lem id none = (λ h. tt, λ h. refl)
check_reference_lem id (some ref) =
    both_iff (own_iff ref.raw id.raw malformed) (outside_iff (queue_id ref) (queue_id id) malformed)

-- A well-formed record.
pub record IsWellFormed (rec : Record) : Type 0 where
  pub revised : IsRevised rec
  pub settled : IsSettled rec
  pub edges : All (IsEdge rec.ticket_id) rec.dependencies
  pub edges_once : IsDistinct (map edge_key rec.dependencies)
  pub provenance : IsProvenance rec
  pub holds_once : IsDistinct (map (λ h. h.hold_id) rec.holds)
  pub approvals_once : IsDistinct (map (λ a. a.grant_id) rec.approvals)
  pub supersedes : IsReference rec.ticket_id rec.supersedes
  pub superseded_by : IsReference rec.ticket_id rec.superseded_by

edges_iff :
    (id : TicketId) (ds : List Dependency)
    → (check_edges id [] ds ≡ ok tt) ↔ (All (IsEdge id) ds × IsDistinct (map edge_key ds))
edges_iff id ds =
    let loop = check_edges_lem id [] ds in
    let unique = check_unique_iff (map edge_key ds) in
    (λ h. ((loop.0 h).0, unique.0 (loop.0 h).1), λ h. loop.1 (h.0, unique.1 h.1))

-- validate accepts exactly the well-formed records, those that IsWellFormed describes.
pub validate_lem : (rec : Record) → (validate rec ≡ ok tt) ↔ IsWellFormed rec
unfolding validate
validate_lem rec =
    let references =
      both_iff (check_reference_lem rec.ticket_id rec.supersedes)
        (check_reference_lem rec.ticket_id rec.superseded_by) in
    let names =
      both_iff (check_unique_iff (map (λ h. h.hold_id) rec.holds))
        (both_iff (check_unique_iff (map (λ a. a.grant_id) rec.approvals)) references) in
    let relations =
      both_iff (edges_iff rec.ticket_id rec.dependencies)
        (both_iff (check_provenance_lem rec) names) in
    let all = both_iff (check_revisions_lem rec) (both_iff (check_lifecycle_lem rec) relations) in
    (
      λ h.
          let (
            revised,
            (settled, ((edges, edges_once), (provenance, (holds, (approvals, (before, after)))))),
          ) =
            all.0 h in
          record {
            revised = revised;
            settled = settled;
            edges = edges;
            edges_once = edges_once;
            provenance = provenance;
            holds_once = holds;
            approvals_once = approvals;
            supersedes = before;
            superseded_by = after;
          },
      λ v. all.1 (
        v.revised,
        (
          v.settled,
          (
            (v.edges, v.edges_once),
            (v.provenance, (v.holds_once, (v.approvals_once, (v.supersedes, v.superseded_by)))),
          ),
        ),
      ),
    )
