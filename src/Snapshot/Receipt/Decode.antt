-- ===== src/Snapshot/Receipt/Decode.antt =====
-- DecodeReceipt of internal/snapshot/head.go. SHA-256 is the parameter `sum`.
use corvint_tasks.Base.{
  ℕ, ◌+◌, true, false, not, ◌&&◌, ◌||◌, Option, none, some, List, [], ◌∷◌, ltb, ◌==◌, length,
  is_some, if◌then◌else◌,
}
use corvint_tasks.Text.{Text, txt}
use corvint_tasks.Wire.Code.{
  Result, ok, err, malformed, limit_exceeded, require, refuse_if, ◌>>=◌, ◌>>◌,
}
use corvint_tasks.Wire.CodeNames.{is_code}
use corvint_tasks.Wire.Primitives.{Digest}
use corvint_tasks.Wire.Ids.{TicketId}
use corvint_tasks.Wire.Value.{Value, Members, null, obj, get, set}
use corvint_tasks.Wire.Encode.{encode_file}
use corvint_tasks.Wire.Reader.{
  closed, field, read_field, read_string, read_enum, read_size, read_size_or_null,
  read_count_or_null, read_digest_or_null, read_identifier, read_label, read_label_or_null,
  read_ticket_id, read_timestamp, read_array, read_each, read_strings, or_null, check_profile,
}
use corvint_tasks.Snapshot.Paths.{parse_request_id}
use corvint_tasks.Snapshot.Receipt.{
  PreEntry, PostEntry, Receipt, profile_receipt, receipt_kinds, outcome_names,
  max_inline_post_entry_bytes, max_inline_post_entries, validate_entries,
}

-- readRequestID
unfoldable pub read_request_id : Value → Result Text
unfolding parse_request_id
read_request_id v = do s ← read_string v; parse_request_id s

unfoldable pub read_pre : Value → Result PreEntry
unfolding closed field
read_pre v = do
  closed (txt "path" ∷ txt "sha256" ∷ []) v
  path ← read_field (txt "path") read_identifier v
  sha ← read_field (txt "sha256") read_digest_or_null v
  ok (record { path = path; sha256 = sha })

-- The record of a post entry: an object that is written in 64 KiB at most, or null.
unfoldable pub read_inline : Value → Result (Option Value)
unfolding encode_file
read_inline null = ok none
read_inline (obj ms) = do
  refuse_if (ltb max_inline_post_entry_bytes (length (encode_file (obj ms)))) limit_exceeded
  ok (some (obj ms))
read_inline v = err malformed

unfoldable pub read_post : Value → Result PostEntry
unfolding closed field read_inline
read_post v = do
  closed (txt "path" ∷ txt "sha256" ∷ txt "record" ∷ txt "blobSha256" ∷ []) v
  path ← read_field (txt "path") read_identifier v
  sha ← read_field (txt "sha256") read_digest_or_null v
  inline ← read_field (txt "record") read_inline v
  blob ← read_field (txt "blobSha256") read_digest_or_null v
  refuse_if
      (is_some sha
        && ((is_some inline && is_some blob) || (not (is_some inline) && not (is_some blob))))
      malformed
  ok (record { path = path; sha256 = sha; inline = inline; blob_sha256 = blob })

abbrev pub count_inline : List PostEntry → ℕ
count_inline [] = 0
count_inline (p ∷ ps) = if is_some p.inline then 1 + count_inline ps else count_inline ps

unfoldable pub read_code : Value → Result Text
unfolding is_code
read_code v = do s ← read_string v; require (is_code s) malformed; ok s

-- The release of a receipt is read by a reader of its own, whose failure nothing looks at: what is not
-- a label counts as none.
unfoldable pub read_release : Value → Option Text
read_release v = elim (read_label_or_null v) [ ok release ↦ release | err code ↦ none ]

-- The ticket and the release exclude each other; a ticket that is not one still counts as there.
unfoldable pub read_subject : Value → Option Text → Result (Option TicketId)
read_subject null release = ok none
read_subject v none = or_null read_ticket_id v
read_subject v (some release) = err malformed

-- The fields of a receipt, the object that releaseId is added to where it is missing.
unfoldable pub read_receipt : Value → Result Receipt
unfolding closed check_profile field read_enum read_request_id read_subject read_release read_array
    read_each read_pre read_post read_strings read_code
read_receipt v = do
  closed
      (txt "profile"
        ∷ txt "seq"
        ∷ txt "prev"
        ∷ txt "kind"
        ∷ txt "requestId"
        ∷ txt "actor"
        ∷ txt "ticketId"
        ∷ txt "releaseId"
        ∷ txt "attemptId"
        ∷ txt "generation"
        ∷ txt "expectedRevision"
        ∷ txt "headGeneration"
        ∷ txt "pre"
        ∷ txt "post"
        ∷ txt "outcome"
        ∷ txt "codes"
        ∷ txt "recordedAt"
        ∷ [])
      v
  profile ← read_field (txt "profile") read_string v
  check_profile profile profile_receipt
  seq ← read_field (txt "seq") read_size v
  prev ← read_field (txt "prev") read_digest_or_null v
  kind ← read_field (txt "kind") (read_enum receipt_kinds) v
  request ← read_field (txt "requestId") (or_null read_request_id) v
  actor ← field (txt "actor") v
  closed (txt "id" ∷ txt "role" ∷ []) actor
  actor_id ← read_field (txt "id") read_label actor
  role ←
      read_field (txt "role")
        (read_enum (
          txt "OWNER"
          ∷ txt "OPERATOR"
          ∷ txt "WORKER"
          ∷ txt "REVIEWER"
          ∷ txt "IMPORTER"
          ∷ txt "SYSTEM"
          ∷ []))
        actor
  released ← field (txt "releaseId") v
  ticket ← read_field (txt "ticketId") (λ w. read_subject w (read_release released)) v
  attempt ← read_field (txt "attemptId") (or_null read_identifier) v
  generation ← read_field (txt "generation") read_size_or_null v
  revision ← read_field (txt "expectedRevision") read_count_or_null v
  head_generation ← read_field (txt "headGeneration") read_size v
  pre_items ← read_field (txt "pre") (read_array none true) v
  pre ← read_each read_pre pre_items
  post_items ← read_field (txt "post") (read_array none true) v
  post ← read_each read_post post_items
  refuse_if (ltb max_inline_post_entries (count_inline post)) limit_exceeded
  outcome ← read_field (txt "outcome") (read_enum outcome_names) v
  codes ← read_field (txt "codes") (read_strings none false read_code) v
  at ← read_field (txt "recordedAt") read_timestamp v
  ok (record {
    seq = seq;
    prev = prev;
    kind = kind;
    request_id = request;
    actor_id = actor_id;
    actor_role = role;
    ticket_id = ticket;
    release_id = read_release released;
    attempt_id = attempt;
    generation = generation;
    expected_revision = revision;
    head_generation = head_generation;
    pre = pre;
    post = post;
    outcome = outcome;
    codes = codes;
    recorded_at = at;
  })

-- The checks of DecodeReceipt behind its fields.
unfoldable pub check_receipt : (Text → Digest) → Receipt → Result (Unit {0})
unfolding validate_entries
check_receipt sum rc = do
  refuse_if (ltb rc.seq 1) malformed
  require (if rc.seq == 1 then not (is_some rc.prev) else is_some rc.prev) malformed
  validate_entries sum rc

-- A missing releaseId is set to null.
unfoldable pub with_release : Members → Members
unfolding get set
with_release ms = if is_some (get ms (txt "releaseId")) then ms else set ms (txt "releaseId") null

-- DecodeReceipt behind Parse, on an object; on any other value the source calls a method of a nil object.
unfoldable pub decode_receipt : (Text → Digest) → Members → Result Receipt
unfolding with_release read_receipt check_receipt
decode_receipt sum ms = do rc ← read_receipt (obj (with_release ms)); check_receipt sum rc; ok rc
