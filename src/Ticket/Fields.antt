-- ===== src/Ticket/Fields.antt =====
-- The field checks of FromValue in internal/ticket/record.go, applied to the value of a record: what
-- clone and revalidate of internal/mutation/apply.go run over a record in memory. The first error
-- counts (the Reader of internal/wire/reader.go is sticky). The closed vocabularies and the keys need
-- no check on a record in memory, but for archivedFrom, which is never ARCHIVED. Each identifier
-- of a record was made by its parser from the raw string, so that reading it again gives it back.
use corvint_tasks.Base.{
  ℕ, Bool, true, false, Option, none, some, List, [], ◌∷◌, map, ltb, length, if◌then◌else◌,
}
use corvint_tasks.Text.{Text}
use corvint_tasks.Wire.Code.{Result, ok, err, malformed, limit_exceeded, refuse_if, ◌>>◌}
use corvint_tasks.Wire.Limits.{
  max_title_bytes, max_body_bytes, max_labels, max_dependencies, max_acceptance_criteria,
  max_criterion_bytes, max_requirement_refs, max_touch_paths, max_resources, max_capabilities,
  max_required_gates, max_holds, max_prose_bytes, max_approvals,
}
use corvint_tasks.Wire.Decimal.{Count, count_of, parse_count}
use corvint_tasks.Wire.Primitives.{
  parse_digest, parse_label, parse_identifier, parse_prose, parse_path,
}
use corvint_tasks.Wire.Clock.{parse_timestamp, parse_date}
use corvint_tasks.Wire.Ids.{TicketId, parse_ticket_id}
use corvint_tasks.Wire.Value.{Value, str}
use corvint_tasks.Wire.Sorted.{check_sorted_unique}
use corvint_tasks.Ticket.Names.{path, is_archived}
use corvint_tasks.Ticket.Record.{
  Dependency, Source, Resource, Effects, Hold, Approval, Completion, Record, resource_value,
}

-- The tests of Reader.Array: the bound (`none` for -1), and the order unless it is semantic.
unfoldable pub check_array : Option ℕ → Bool → List Value → Result (Unit {0})
unfolding check_sorted_unique
check_array bound semantic vs = do
  refuse_if (elim bound [ none ↦ false | some max ↦ ltb max (length vs) ]) limit_exceeded
  if semantic then ok tt else check_sorted_unique vs

-- Every element in turn, up to the first error.
unfoldable pub check_each {ℓ} : {A : Type ℓ} → (A → Result (Unit {0})) → List A → Result (Unit {0})
check_each check [] = ok tt
check_each check (x ∷ xs) = do check x; check_each check xs

abbrev pub check_option {ℓ} : {A : Type ℓ} → (A → Result (Unit {0})) → Option A → Result (Unit {0})
check_option check none = ok tt
check_option check (some x) = check x

-- Only the error of a parser is kept.
abbrev pub void {ℓ} : {A : Type ℓ} → Result A → Result (Unit {0})
void (ok a) = ok tt
void (err e) = err e

-- Reader.Strings
unfoldable pub check_strings :
    Option ℕ → Bool → (Text → Result (Unit {0})) → List Text → Result (Unit {0})
unfolding check_array check_each
check_strings bound semantic check ss = do
  check_array bound semantic (map (λ s. str s) ss)
  check_each check ss

unfoldable pub check_count : Count → Result (Unit {0})
unfolding parse_count count_of
check_count n = void (parse_count (count_of n))

unfoldable pub check_ticket_id : TicketId → Result (Unit {0})
unfolding parse_ticket_id
check_ticket_id t = void (parse_ticket_id t.raw)

unfoldable pub check_dependency : Dependency → Result (Unit {0})
unfolding check_ticket_id parse_label
check_dependency d = do
  check_ticket_id d.ticket_id
  check_option (λ g. void (parse_label g)) d.gate_id

unfoldable pub check_source : Source → Result (Unit {0})
unfolding parse_identifier parse_digest
check_source s = do
  void (parse_identifier s.source_queue_id)
  check_option (λ i. void (parse_identifier i)) s.source_item_id
  check_option (λ d. void (parse_digest d)) s.source_revision_sha256

unfoldable pub check_resource : Resource → Result (Unit {0})
unfolding parse_identifier parse_path
check_resource r = do
  void (parse_identifier r.key)
  elim r.class [ path ↦ void (parse_path r.key) | _ ↦ ok tt ]

unfoldable pub check_effects : Effects → Result (Unit {0})
unfolding check_strings check_array check_each check_resource parse_path resource_value
check_effects e = do
  check_strings (some max_touch_paths) false (λ p. void (parse_path p)) e.touch_paths
  check_array (some max_resources) false (map resource_value e.resources)
  check_each check_resource e.resources

unfoldable pub check_hold : Hold → Result (Unit {0})
unfolding parse_label parse_prose parse_timestamp
check_hold h = do
  void (parse_label h.hold_id)
  void (parse_label h.actor)
  void (parse_prose h.reason 0 max_prose_bytes)
  void (parse_timestamp h.placed_at)

unfoldable pub check_approval : Approval → Result (Unit {0})
unfolding parse_label check_count check_strings parse_identifier parse_timestamp
check_approval a = do
  void (parse_label a.grant_id)
  void (parse_label a.actor)
  check_count a.target_revision
  check_strings none false (λ s. void (parse_identifier s)) a.scope
  void (parse_timestamp a.granted_at)

unfoldable pub check_completion : Completion → Result (Unit {0})
unfolding parse_label parse_prose check_array check_each parse_digest parse_timestamp
check_completion c = do
  void (parse_label c.actor)
  check_option (λ r. void (parse_prose r 0 max_prose_bytes)) c.reason
  check_strings none false (λ d. void (parse_digest d)) c.evidence
  check_option (λ d. void (parse_digest d)) c.manifest_sha256
  void (parse_timestamp c.recorded_at)

-- A semantic array of objects: its bound, then its elements.
unfoldable pub check_objects {ℓ} :
    {A : Type ℓ} → ℕ → (A → Result (Unit {0})) → List A → Result (Unit {0})
unfolding check_each
check_objects max check xs = do refuse_if (ltb max (length xs)) limit_exceeded; check_each check xs

-- The field checks of FromValue, in the order of the source.
unfoldable pub check_fields : Record → Result (Unit {0})
unfolding check_ticket_id check_count parse_digest parse_prose parse_label check_strings
    check_objects check_dependency parse_identifier check_source check_effects check_hold
    check_approval check_completion parse_date parse_timestamp
check_fields rec = do
  check_ticket_id rec.ticket_id
  check_count rec.revision
  check_count rec.acceptance_revision
  check_option (λ d. void (parse_digest d)) rec.previous_record_sha256
  refuse_if (elim rec.archived_from [ none ↦ false | some s ↦ is_archived s ]) malformed
  void (parse_prose rec.title 1 max_title_bytes)
  check_option (λ b. void (parse_prose b 0 max_body_bytes)) rec.body
  check_option (λ l. void (parse_label l)) rec.owner
  check_option (λ l. void (parse_label l)) rec.milestone
  check_count rec.order
  check_strings (some max_labels) false (λ l. void (parse_label l)) rec.labels
  check_objects max_dependencies check_dependency rec.dependencies
  check_strings (some max_acceptance_criteria) true
      (λ c. void (parse_prose c 0 max_criterion_bytes)) rec.acceptance_criteria
  check_strings (some max_requirement_refs) false (λ i. void (parse_identifier i))
      rec.requirement_refs
  check_source rec.source
  check_effects rec.effects
  check_strings (some max_capabilities) false (λ i. void (parse_identifier i)) rec.capabilities
  check_strings (some max_required_gates) false (λ l. void (parse_label l)) rec.required_gates
  check_objects max_holds check_hold rec.holds
  check_objects max_approvals check_approval rec.approvals
  check_option check_completion rec.completion
  check_option (λ d. void (parse_date d)) rec.due_date
  check_option check_count rec.estimate_minutes
  check_option check_ticket_id rec.supersedes
  check_option check_ticket_id rec.superseded_by
  void (parse_timestamp rec.created_at)
  void (parse_timestamp rec.updated_at)
  void (parse_label rec.updated_by)
