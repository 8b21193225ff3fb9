-- ===== src/Archive/Cost.antt =====
-- internal/archive/cost.go: the size of the archive of a manifest, and boundFor of layout.go. The bytes that
-- archive/tar writes for the header of a file are the parameter `header`.
pub mod Sums
pub mod Exact
use corvint_tasks.Base.{
  ℕ, ◌+◌, ◌-◌, ◌*◌, ◌%◌, ◌^◌, Bool, true, false, Option, none, some, List, [], ◌∷◌, ltb, ◌==◌,
  length, any, if◌then◌else◌,
}
use corvint_tasks.Text.{Text, txt, text_eq, has_prefix}
use corvint_tasks.Wire.Code.{
  Result, ok, err, malformed, limit_exceeded, duplicate_id, require, refuse_if, ◌>>=◌, ◌>>◌,
}
use corvint_tasks.Wire.Limits.{kib, max_ticket_file_bytes}
use corvint_tasks.Wire.Decimal.{Size, count_of, parse_size}
use corvint_tasks.Wire.Primitives.{
  Digest, parse_digest, parse_path_text, parse_identifier, parse_path,
}
use corvint_tasks.Wire.Ids.{parse_queue_id}
use corvint_tasks.Wire.Encode.{encode}
use corvint_tasks.Snapshot.Head.{max_journal_head_bytes, max_barrier_bytes, max_pinned_bytes}
use corvint_tasks.Snapshot.Places.{
  mib, max_attempt_record_bytes, max_reservation_set_bytes, max_evidence_blob_bytes,
  max_queue_file_bytes, max_policy_file_bytes, max_import_map_bytes,
}
use corvint_tasks.Snapshot.Receipt.{max_receipt_file_bytes}
use corvint_tasks.Archive.Manifest.{
  FileEntry, Manifest, max_archive_files, max_archive_manifest_bytes, manifest_name, entry_value,
  manifest_bytes, decode_manifest, check_complete,
}

abbrev pub max_archive_bytes : ℕ
max_archive_bytes = 64 * (kib * mib)

abbrev pub tar_block_bytes : ℕ
tar_block_bytes = 512

abbrev pub tar_trailer_bytes : ℕ
tar_trailer_bytes = 1024

pub record ManifestEncoding : Type 0 where
  pub files : ℕ
  pub payload_bytes : Size
  pub manifest_size : Size
  pub tar_bytes : Size

-- checkedAdd, of numbers below 2^64
unfoldable pub checked_add : ℕ → ℕ → Result ℕ
checked_add a b = if ltb (2 ^ 64 - 1 - a) b then err limit_exceeded else ok (a + b)

-- addWithin
unfoldable pub add_within : ℕ → ℕ → ℕ → Result ℕ
unfolding checked_add
add_within a b limit = do n ← checked_add a b; refuse_if (ltb limit n) limit_exceeded; ok n

-- addArchiveBytes
unfoldable pub add_archive_bytes : ℕ → ℕ → Result ℕ
unfolding add_within
add_archive_bytes a b = add_within a b max_archive_bytes

-- roundTarBody
unfoldable pub round_tar_body : ℕ → Result ℕ
unfolding checked_add
round_tar_body n = if n % 512 == 0 then ok n else checked_add n (512 - n % 512)

-- boundFor
unfoldable pub bound_for : Text → ℕ
unfolding text_eq has_prefix
bound_for path =
    if text_eq path (txt "VERSION")
    then 64
    else if text_eq path (txt "head.json")
    then max_journal_head_bytes
    else if text_eq path (txt "barrier.json")
    then max_barrier_bytes
    else if text_eq path (txt "reservations.json")
    then max_reservation_set_bytes
    else if has_prefix path (txt "receipts/")
    then max_receipt_file_bytes
    else if has_prefix path (txt "pinned/")
    then max_pinned_bytes
    else if has_prefix path (txt "evidence/")
    then max_evidence_blob_bytes
    else if text_eq path (txt "intent/queue.json")
    then max_queue_file_bytes
    else if text_eq path (txt "intent/policy.json")
    then max_policy_file_bytes
    else if text_eq path (txt "intent/import-map.json")
    then max_import_map_bytes
    else if has_prefix path (txt "intent/tickets/")
    then max_ticket_file_bytes
    else max_attempt_record_bytes

abbrev check_barrier : Option Digest → Result (Unit {0})
check_barrier none = ok tt
check_barrier (some d) = do parse_digest d; ok tt

-- The fields that validateManifestMetadata checks.
unfoldable pub check_metadata : Manifest → Result (Unit {0})
unfolding parse_queue_id parse_size count_of parse_digest parse_path_text
check_metadata m = do
  parse_queue_id m.queue_id.raw
  parse_size (count_of m.exported_at_seq)
  parse_digest m.head_sha256
  parse_digest m.version_sha256
  check_barrier m.barrier_sha256
  parse_path_text m.primary_worktree
  parse_digest m.intent_tree_sha256
  parse_size (count_of m.receipt_count)
  parse_digest m.last_receipt_sha256
  parse_size (count_of m.head_generation)
  check_complete m.complete m.exported_at_seq m.receipt_count

-- validateManifestMetadata
unfoldable pub validate_manifest_metadata : Manifest → Result Text
unfolding check_metadata manifest_bytes decode_manifest
validate_manifest_metadata m = do
  check_metadata m
  let raw = manifest_bytes (record m { files = [] })
  refuse_if (ltb max_archive_manifest_bytes (length raw)) limit_exceeded
  decode_manifest raw
  ok raw

-- What validateManifestFiles checks of a file; `seen` holds the paths in front.
unfoldable pub check_entry : List Text → FileEntry → Result (Unit {0})
unfolding parse_identifier parse_path text_eq parse_digest
check_entry seen f = do
  parse_identifier f.path
  parse_path f.path
  refuse_if (text_eq f.path manifest_name) duplicate_id
  refuse_if (any (text_eq f.path) seen) duplicate_id
  parse_digest f.sha256
  ok tt

-- The loop of validateManifestFiles
unfoldable pub validate_manifest_files : List Text → ℕ → List FileEntry → Result ℕ
unfolding check_entry parse_size count_of bound_for checked_add
validate_manifest_files seen payload [] = ok payload
validate_manifest_files seen payload (f ∷ fs) = do
  check_entry seen f
  n ← parse_size (count_of f.bytes)
  refuse_if (ltb (2 ^ 63 - 1) n) limit_exceeded
  refuse_if (ltb (bound_for f.path) n) limit_exceeded
  total ← checked_add payload n
  validate_manifest_files (f.path ∷ seen) total fs

-- The loop of measureManifestBytes; a comma stands in front of each entry but the first.
unfoldable pub measure_entries : Bool → ℕ → List FileEntry → Result ℕ
unfolding add_within entry_value encode
measure_entries first n [] = ok n
measure_entries first n (f ∷ fs) = do
  m ← if first then ok n else add_within n 1 max_archive_manifest_bytes
  total ← add_within m (length (encode (entry_value f))) max_archive_manifest_bytes
  measure_entries false total fs

-- measureManifestBytes
unfoldable pub measure_manifest_bytes : Text → List FileEntry → Result ℕ
unfolding measure_entries
measure_manifest_bytes empty fs = measure_entries true (length empty) fs

module _ (header : Text → ℕ → Result ℕ) where
  -- measureHeaderBytes
  unfoldable pub measure_header_bytes : Text → ℕ → Result ℕ
  measure_header_bytes name size = do
    refuse_if (ltb (2 ^ 63 - 1) size) limit_exceeded
    header name size

  -- The loop of measureTarBytes
  unfoldable pub measure_bodies : ℕ → List FileEntry → Result ℕ
  unfolding measure_header_bytes round_tar_body add_archive_bytes
  measure_bodies total [] = ok total
  measure_bodies total (f ∷ fs) = do
    head ← measure_header_bytes f.path f.bytes
    body ← round_tar_body f.bytes
    with_head ← add_archive_bytes total head
    with_body ← add_archive_bytes with_head body
    measure_bodies with_body fs

  -- measureTarBytes
  unfoldable pub measure_tar_bytes : ℕ → List FileEntry → Result ℕ
  unfolding measure_header_bytes round_tar_body add_archive_bytes measure_bodies
  measure_tar_bytes manifest fs = do
    head ← measure_header_bytes manifest_name manifest
    body ← round_tar_body manifest
    with_head ← add_archive_bytes 0 head
    with_body ← add_archive_bytes with_head body
    total ← measure_bodies with_body fs
    add_archive_bytes total tar_trailer_bytes

  -- MeasureManifestEncoding
  unfoldable pub measure_manifest_encoding : Manifest → Result ManifestEncoding
  unfolding validate_manifest_metadata validate_manifest_files measure_manifest_bytes
      measure_tar_bytes
  measure_manifest_encoding m = do
    refuse_if (ltb max_archive_files (length m.files)) limit_exceeded
    empty ← validate_manifest_metadata m
    payload ← validate_manifest_files [] 0 m.files
    manifest ← measure_manifest_bytes empty m.files
    tar ← measure_tar_bytes manifest m.files
    ok (record {
      files = length m.files;
      payload_bytes = payload;
      manifest_size = manifest;
      tar_bytes = tar;
    })
