-- ===== src/Snapshot/Receipt.antt =====
-- Receipts: the data of internal/snapshot/head.go and validateEntries of
-- internal/snapshot/receipt.go. SHA-256 is the parameter `sum`.
pub mod Decode
pub mod Entries
use corvint_tasks.Base.{
  ℕ, ◌+◌, ◌*◌, Bool, true, false, not, ◌&&◌, ◌||◌, Option, none, some, List, [], ◌∷◌, ltb, leb,
  ◌==◌, length, is_some, if◌then◌else◌,
}
use corvint_tasks.Text.{Text, txt, text_eq, text_ltb}
use corvint_tasks.Wire.Code.{
  Code, Result, ok, err, malformed, limit_exceeded, journal_forked, unsupported, require, refuse_if,
  ◌>>=◌, ◌>>◌,
}
use corvint_tasks.Wire.CodeNames.{is_code}
use corvint_tasks.Wire.Limits.{kib}
use corvint_tasks.Wire.Decimal.{Count, Size}
use corvint_tasks.Wire.Primitives.{Digest}
use corvint_tasks.Wire.Clock.{Timestamp}
use corvint_tasks.Wire.Ids.{TicketId}
use corvint_tasks.Wire.Value.{Value, Members, null, obj, get, set}
use corvint_tasks.Wire.Encode.{encode_file}
use corvint_tasks.Wire.Reader.{
  closed, field, read_field, read_string, read_enum, read_size, read_size_or_null,
  read_count_or_null, read_digest_or_null, read_identifier, read_label, read_label_or_null,
  read_ticket_id, read_timestamp, read_array, read_each, read_strings, or_null, check_profile,
}
use corvint_tasks.Snapshot.Paths.{parse_request_id}
use corvint_tasks.Snapshot.Places.{attempt_queue, post_bound, content_path}

abbrev pub max_receipt_file_bytes : ℕ
max_receipt_file_bytes = kib * kib

abbrev pub max_inline_post_entry_bytes : ℕ
max_inline_post_entry_bytes = 64 * kib

abbrev pub max_inline_post_entries : ℕ
max_inline_post_entries = 8

abbrev pub profile_receipt : Text
profile_receipt = txt "taskman-receipt/0"

-- ReceiptKinds
abbrev pub receipt_kinds : List Text
receipt_kinds =
    txt "INIT"
    ∷ txt "MUTATION"
    ∷ txt "ADMIT"
    ∷ txt "TRANSITION"
    ∷ txt "EFFECT_INTENT"
    ∷ txt "EFFECT_OUTCOME"
    ∷ txt "GATE_RESULT"
    ∷ txt "REVIEW"
    ∷ txt "MANIFEST"
    ∷ txt "RELEASE"
    ∷ txt "PAUSE"
    ∷ txt "UNPAUSE"
    ∷ txt "DRAIN"
    ∷ txt "IMPORT_PLAN"
    ∷ txt "IMPORT_APPLY"
    ∷ txt "AUTHORITY_SWITCH"
    ∷ txt "ARCHIVE"
    ∷ txt "RESTORE"
    ∷ txt "PRUNE"
    ∷ txt "RECONCILE"
    ∷ txt "ADJUDICATE"
    ∷ txt "CONFIG_PIN"
    ∷ txt "QUALIFICATION"
    ∷ txt "POLICY_UPDATE"
    ∷ []

-- Outcomes of internal/mutation/outcome.go
abbrev pub outcome_names : List Text
outcome_names =
    txt "COMPLETED"
    ∷ txt "REVISION_CONFLICT"
    ∷ txt "VALIDATION_FAILED"
    ∷ txt "UNAUTHORIZED"
    ∷ txt "BLOCKED"
    ∷ txt "UNSUPPORTED"
    ∷ txt "CAPACITY_EXHAUSTED"
    ∷ txt "UNCERTAIN_EFFECT"
    ∷ txt "REQUEST_ID_CONFLICT"
    ∷ txt "STORAGE_FAILED"
    ∷ []

pub record PostEntry : Type 0 where
  pub path : Text
  pub sha256 : Option Digest
  pub inline : Option Value
  pub blob_sha256 : Option Digest

pub record PreEntry : Type 0 where
  pub path : Text
  pub sha256 : Option Digest

pub record Receipt : Type 0 where
  pub seq : Size
  pub prev : Option Digest
  pub kind : Text
  pub request_id : Option Text
  pub actor_id : Text
  pub actor_role : Text
  pub ticket_id : Option TicketId
  pub release_id : Option Text
  pub attempt_id : Option Text
  pub generation : Option Size
  pub expected_revision : Option Count
  pub head_generation : Size
  pub pre : List PreEntry
  pub post : List PostEntry
  pub outcome : Text
  pub codes : List Text
  pub recorded_at : Timestamp

-- The bytes of a post that stand in the receipt.
unfoldable pub check_inline : (Text → Digest) → ℕ → Text → Digest → Option Value → Result (Unit {0})
unfolding encode_file text_eq content_path
check_inline sum bound path sha none = ok tt
check_inline sum bound path sha (some v) = do
  refuse_if (ltb bound (length (encode_file v))) limit_exceeded
  require (text_eq (sum (encode_file v)) sha) journal_forked
  content_path sum path (encode_file v)

-- Is a post without a digest not the deletion of the barrier by UNPAUSE?
abbrev pub is_no_deletion : Text → PreEntry → PostEntry → Bool
is_no_deletion kind pre p =
    is_some p.inline
    || (is_some p.blob_sha256
        || (not (text_eq kind (txt "UNPAUSE"))
            || (not (text_eq p.path (txt "barrier.json")) || not (is_some pre.sha256))))

-- The state that a post leaves behind.
unfoldable pub check_state : (Text → Digest) → Text → ℕ → PreEntry → PostEntry → Result (Unit {0})
unfolding check_inline text_eq
check_state sum kind bound pre p = elim p.sha256 [
  | none ↦ refuse_if (is_no_deletion kind pre p) malformed
  | some sha ↦ do
    check_inline sum bound p.path sha p.inline
    refuse_if (elim p.blob_sha256 [ none ↦ false | some b ↦ not (text_eq b sha) ]) journal_forked
    refuse_if (text_eq p.path (txt "VERSION") && not (is_some p.blob_sha256)) malformed
]

abbrev pub check_attempt : Option Text → Result (Unit {0})
check_attempt none = ok tt
check_attempt (some id) = do attempt_queue id; ok tt

-- The loop of validateEntries over the pairs; `before` holds the path of the post in front.
unfoldable pub check_pairs :
    (Text → Digest) → Text → Option Text → List PreEntry → List PostEntry → Result (Unit {0})
unfolding post_bound text_eq text_ltb check_state
check_pairs sum kind before [] posts = ok tt
check_pairs sum kind before pres [] = ok tt
check_pairs sum kind before (pre ∷ pres) (p ∷ posts) = do
  bound ← post_bound p.path
  require (text_eq pre.path p.path) malformed
  refuse_if (elim before [ none ↦ false | some q ↦ not (text_ltb q p.path) ]) malformed
  check_state sum kind bound pre p
  check_pairs sum kind (some p.path) pres posts

-- validateEntries
unfoldable pub validate_entries : (Text → Digest) → Receipt → Result (Unit {0})
unfolding check_pairs attempt_queue text_eq
validate_entries sum rc = do
  refuse_if (rc.seq == 1 && (not (text_eq rc.kind (txt "INIT")) || not (rc.head_generation == 0)))
      malformed
  refuse_if (not (rc.seq == 1) && text_eq rc.kind (txt "INIT")) malformed
  refuse_if (text_eq rc.kind (txt "PRUNE")) unsupported
  check_attempt rc.attempt_id
  require (length rc.pre == length rc.post) malformed
  check_pairs sum rc.kind none rc.pre rc.post
