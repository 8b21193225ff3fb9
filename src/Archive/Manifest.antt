-- ===== src/Archive/Manifest.antt =====
-- internal/archive/manifest.go: the manifest of an archive.
pub mod Length
use corvint_tasks.Base.{
  ℕ, ◌+◌, ◌*◌, Bool, true, false, not, Option, none, some, List, [], ◌∷◌, ltb, ◌==◌, length, any,
  map, if◌then◌else◌,
}
use corvint_tasks.Text.{Text, txt, text_eq, text_ltb}
use corvint_tasks.Wire.Code.{
  Result, ok, err, malformed, limit_exceeded, duplicate_id, journal_forked, require, refuse_if,
  ◌>>=◌, ◌>>◌,
}
use corvint_tasks.Wire.Limits.{kib}
use corvint_tasks.Wire.Decimal.{Size, count_of}
use corvint_tasks.Wire.Primitives.{Digest, parse_path}
use corvint_tasks.Wire.Ids.{QueueId}
use corvint_tasks.Wire.Value.{Value, str, array, object, string_or_null}
use corvint_tasks.Wire.Encode.{encode, encode_file}
use corvint_tasks.Wire.Parsed.{out_of_fuel, failed, parsed}
use corvint_tasks.Wire.Parse.{parse_with}
use corvint_tasks.Wire.Reader.{
  closed, field, read_field, read_string, read_bool, read_size, read_digest, read_digest_or_null,
  read_path_text, read_queue_id, read_identifier, read_array, check_profile,
}
use corvint_tasks.Snapshot.Places.{mib}
use corvint_tasks.Ticket.Inventory.Planning.{sort_by}

abbrev pub max_archive_files : ℕ
max_archive_files = 2100000

abbrev pub max_archive_manifest_bytes : ℕ
max_archive_manifest_bytes = 768 * mib

abbrev pub profile_archive : Text
profile_archive = txt "taskman-archive/0"

abbrev pub manifest_name : Text
manifest_name = txt "manifest.json"

abbrev pub manifest_node_cap : ℕ
manifest_node_cap = 4 * max_archive_files + 14

pub record FileEntry : Type 0 where
  pub path : Text
  pub bytes : Size
  pub sha256 : Digest

pub record Manifest : Type 0 where
  pub queue_id : QueueId
  pub exported_at_seq : Size
  pub head_sha256 : Digest
  pub version_sha256 : Digest
  pub barrier_sha256 : Option Digest
  pub primary_worktree : Text
  pub intent_tree_sha256 : Digest
  pub files : List FileEntry
  pub receipt_count : Size
  pub last_receipt_sha256 : Digest
  pub head_generation : Size
  pub complete : Bool

-- ParseManifestDocument
unfoldable pub parse_manifest_document : Text → Result Value
unfolding parse_with
parse_manifest_document text = do
  refuse_if (ltb max_archive_manifest_bytes (length text)) limit_exceeded
  elim (parse_with text (record {
    wide_array_key = txt "files";
    wide_array_max = max_archive_files;
    max_nodes = manifest_node_cap;
  })) [ out_of_fuel ↦ err malformed | failed code ↦ err code | parsed v ↦ ok v ]

-- entryValue
unfoldable pub entry_value : FileEntry → Value
unfolding object count_of
entry_value f = object (
    (txt "path", str f.path)
    ∷ (txt "sha256", str f.sha256)
    ∷ (txt "bytes", str (count_of f.bytes))
    ∷ [])

unfoldable pub encoded_before : FileEntry → FileEntry → Bool
unfolding entry_value encode text_ltb
encoded_before f g = text_ltb (encode (entry_value f)) (encode (entry_value g))

-- SortFiles
unfoldable pub sort_files : List FileEntry → List FileEntry
unfolding encoded_before sort_by
sort_files fs = sort_by encoded_before fs

-- Manifest.Value
unfoldable pub manifest_value : Manifest → Value
unfolding object count_of array entry_value sort_files
manifest_value m = object (
    (txt "profile", str profile_archive)
    ∷ (txt "queueId", str m.queue_id.raw)
    ∷ (txt "exportedAtSeq", str (count_of m.exported_at_seq))
    ∷ (txt "headSha256", str m.head_sha256)
    ∷ (txt "versionSha256", str m.version_sha256)
    ∷ (txt "barrierSha256", string_or_null m.barrier_sha256)
    ∷ (txt "primaryWorktree", str m.primary_worktree)
    ∷ (txt "intentTreeSha256", str m.intent_tree_sha256)
    ∷ (txt "files", array (map entry_value (sort_files m.files)))
    ∷ (txt "receiptCount", str (count_of m.receipt_count))
    ∷ (txt "lastReceiptSha256", str m.last_receipt_sha256)
    ∷ (txt "headGeneration", str (count_of m.head_generation))
    ∷ (txt "complete", Value.bool m.complete)
    ∷ [])

-- Manifest.Encode
unfoldable pub manifest_bytes : Manifest → Text
unfolding manifest_value encode_file
manifest_bytes m = encode_file (manifest_value m)

-- An element of `files`; `seen` holds the paths in front of it.
unfoldable pub read_entry : List Text → Value → Result FileEntry
unfolding closed field parse_path text_eq
read_entry seen v = do
  closed (txt "path" ∷ txt "sha256" ∷ txt "bytes" ∷ []) v
  path ← read_field (txt "path") read_identifier v
  parse_path path
  refuse_if (any (text_eq path) (manifest_name ∷ seen)) duplicate_id
  sha ← read_field (txt "sha256") read_digest v
  bytes ← read_field (txt "bytes") read_size v
  ok (record { path = path; bytes = bytes; sha256 = sha })

unfoldable pub read_entries : List Text → List Value → Result (List FileEntry)
unfolding read_entry
read_entries seen [] = ok []
read_entries seen (v ∷ vs) = do
  f ← read_entry seen v
  rest ← read_entries (f.path ∷ seen) vs
  ok (f ∷ rest)

-- What DecodeManifest and validateManifestMetadata check of the counts.
abbrev pub check_complete : Bool → Size → Size → Result (Unit {0})
check_complete complete seq receipts = do
  require complete malformed
  require (seq == receipts) journal_forked

-- DecodeManifest
unfoldable pub decode_manifest : Text → Result Manifest
unfolding parse_manifest_document closed check_profile field read_array read_entries
decode_manifest text = do
  v ← parse_manifest_document text
  closed
      (txt "profile"
        ∷ txt "queueId"
        ∷ txt "exportedAtSeq"
        ∷ txt "headSha256"
        ∷ txt "versionSha256"
        ∷ txt "barrierSha256"
        ∷ txt "primaryWorktree"
        ∷ txt "intentTreeSha256"
        ∷ txt "files"
        ∷ txt "receiptCount"
        ∷ txt "lastReceiptSha256"
        ∷ txt "headGeneration"
        ∷ txt "complete"
        ∷ [])
      v
  profile ← read_field (txt "profile") read_string v
  check_profile profile profile_archive
  queue ← read_field (txt "queueId") read_queue_id v
  seq ← read_field (txt "exportedAtSeq") read_size v
  head ← read_field (txt "headSha256") read_digest v
  version ← read_field (txt "versionSha256") read_digest v
  barrier ← read_field (txt "barrierSha256") read_digest_or_null v
  worktree ← read_field (txt "primaryWorktree") read_path_text v
  tree ← read_field (txt "intentTreeSha256") read_digest v
  items ← read_field (txt "files") (read_array none false) v
  files ← read_entries [] items
  receipts ← read_field (txt "receiptCount") read_size v
  last ← read_field (txt "lastReceiptSha256") read_digest v
  generation ← read_field (txt "headGeneration") read_size v
  complete ← read_field (txt "complete") read_bool v
  refuse_if (ltb max_archive_files (length files)) limit_exceeded
  check_complete complete seq receipts
  ok (record {
    queue_id = queue;
    exported_at_seq = seq;
    head_sha256 = head;
    version_sha256 = version;
    barrier_sha256 = barrier;
    primary_worktree = worktree;
    intent_tree_sha256 = tree;
    files = files;
    receipt_count = receipts;
    last_receipt_sha256 = last;
    head_generation = generation;
    complete = complete;
  })
