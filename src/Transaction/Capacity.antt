-- ===== src/Transaction/Capacity.antt =====
-- internal/transaction/capacity.go: what a transaction may cost at each durable point. SHA-256 and the size of
-- a tar header are the parameters of the record CostCalls.
pub mod Check
pub mod Redo
use corvint_tasks.Base.{
  ℕ, zero, suc, ◌+◌, ◌-◌, ◌*◌, ◌/◌, ◌%◌, Bool, true, false, not, ◌||◌, Option, none, some, List, [],
  ◌∷◌, ◌++◌, if◌then◌else◌, ltb, leb, length, any, is_some,
}
use corvint_tasks.Text.{Text, txt, text_eq, has_prefix}
use corvint_tasks.Wire.Code.{
  Result, ok, err, malformed, limit_exceeded, require, refuse_if, ◌>>=◌, ◌>>◌,
}
use corvint_tasks.Wire.Limits.{kib}
use corvint_tasks.Wire.Decimal.{Size}
use corvint_tasks.Wire.Primitives.{Digest}
use corvint_tasks.Wire.Encode.{encode_file, hex_digit}
use corvint_tasks.Snapshot.Stage.{unpause_receipt_bytes, max_stage_receipt_seq}
use corvint_tasks.Snapshot.Paths.{receipt_name, or_empty, trim_prefix}
use corvint_tasks.Snapshot.Head.{Head, head_value, decode_head}
use corvint_tasks.Snapshot.Places.{mib}
use corvint_tasks.Archive.Manifest.{
  FileEntry, Manifest, max_archive_files, max_archive_manifest_bytes, sort_files,
}
use corvint_tasks.Archive.Cost.{
  ManifestEncoding, checked_add, max_archive_bytes, measure_manifest_encoding,
}
use corvint_tasks.Transaction.Inventory.{
  Inventory, find_entry, bytes_entry, add_dir, put, is_intent, add_bytes, count_files,
  max_archive_scan_entries, max_intent_tree_bytes,
}

pub record CostCalls : Type 0 where
  pub sum : Text → Digest
  pub header : Text → ℕ → Result ℕ

pub record Cost : Type 0 where
  pub files : ℕ
  pub scanned_entries : ℕ
  pub payload_bytes : ℕ
  pub manifest_size : ℕ
  pub tar_bytes : ℕ
  pub journal_count : ℕ
  pub journal_bytes : ℕ
  pub evidence_bytes : ℕ
  pub intent_bytes : ℕ
  pub temporary_bytes : ℕ
  pub promised_bytes : ℕ

pub record Limits : Type 0 where
  pub files : ℕ
  pub scan : ℕ
  pub manifest : ℕ
  pub tar : ℕ
  pub journal_count : ℕ
  pub journal_bytes : ℕ
  pub evidence : ℕ
  pub intent : ℕ

abbrev pub gib : ℕ
gib = kib * mib

-- hardLimits
abbrev pub hard_limits : Limits
hard_limits = record {
  files = max_archive_files;
  scan = max_archive_scan_entries;
  manifest = max_archive_manifest_bytes;
  tar = max_archive_bytes;
  journal_count = max_stage_receipt_seq;
  journal_bytes = 4 * gib;
  evidence = 16 * gib;
  intent = max_intent_tree_bytes;
}

-- Is a bound passed?
abbrev pub is_over : Cost → Limits → Bool
is_over c l =
    ltb l.files c.files
    || (ltb l.scan c.scanned_entries
        || (ltb l.manifest c.manifest_size
            || (ltb l.tar c.tar_bytes
                || (ltb l.journal_count c.journal_count
                    || (ltb l.journal_bytes c.journal_bytes
                        || (ltb l.evidence c.evidence_bytes || ltb l.intent c.intent_bytes))))))

-- check; add is checkedAdd
unfoldable pub check : Cost → Limits → Result (Unit {0})
unfolding checked_add
check c l = do
  refuse_if (is_over c l) limit_exceeded
  checked_add c.temporary_bytes c.promised_bytes
  ok tt

-- journalReserve
unfoldable pub journal_reserve : Cost → Bool → Limits → Result (Unit {0})
unfolding checked_add check
journal_reserve c false l = check c l
journal_reserve c true l = do
  n ← checked_add c.journal_count 1
  b ← checked_add c.journal_bytes unpause_receipt_bytes
  refuse_if (ltb l.journal_count n || ltb l.journal_bytes b) limit_exceeded
  check c l

abbrev pub is_receipt : FileEntry → Bool
is_receipt f = has_prefix f.path (txt "receipts/")

abbrev pub is_evidence : FileEntry → Bool
is_evidence f = has_prefix f.path (txt "evidence/")

-- What the hash of the intent tree reads.
unfoldable pub intent_text : List FileEntry → Text
unfolding has_prefix trim_prefix
intent_text [] = []
intent_text (f ∷ fs) =
    if is_intent f
    then trim_prefix f.path (txt "intent/") ++ (0 ∷ (f.sha256 ++ (10 ∷ intent_text fs)))
    else intent_text fs

-- The bytes that a stage holds: temporary, promised, and the names in it.
pub record Charge : Type 0 where
  pub temporary : ℕ
  pub promised : ℕ
  pub names : ℕ

abbrev pub no_charge : Charge
no_charge = record { temporary = 0; promised = 0; names = 0 }

abbrev sha_of : FileEntry → Digest
sha_of f = f.sha256

abbrev barrier_of : Option FileEntry → Option Digest
barrier_of none = none
barrier_of (some f) = some f.sha256

-- measure. A head of DecodeHead has a last receipt.
unfoldable pub measure : CostCalls → Inventory → Head → Charge → Result Cost
unfolding sort_files add_bytes checked_add has_prefix intent_text find_entry encode_file head_value
    measure_manifest_encoding
measure calls i h charge = do
  let files = sort_files i.files
  intent ← add_bytes is_intent 0 files
  entries ← checked_add (length i.dirs) (count_files (λ f. not (is_intent f)) files)
  journal ← add_bytes is_receipt 0 files
  evidence ← add_bytes is_evidence 0 files
  scanned ← checked_add entries charge.names
  last ← elim h.last_receipt_sha256 [ none ↦ err malformed | some d ↦ ok d ]
  let receipts = count_files is_receipt files
  encoding ← measure_manifest_encoding calls.header (record {
    queue_id = h.queue_id;
    exported_at_seq = receipts;
    head_sha256 = calls.sum (encode_file (head_value h));
    version_sha256 = h.version_sha256;
    barrier_sha256 = barrier_of (find_entry (txt "barrier.json") i.files);
    primary_worktree = h.primary_worktree;
    intent_tree_sha256 = calls.sum (intent_text files);
    files = files;
    receipt_count = receipts;
    last_receipt_sha256 = last;
    head_generation = h.generation;
    complete = true;
  })
  ok (record {
    files = encoding.files;
    scanned_entries = scanned;
    payload_bytes = encoding.payload_bytes;
    manifest_size = encoding.manifest_size;
    tar_bytes = encoding.tar_bytes;
    journal_count = receipts;
    journal_bytes = journal;
    evidence_bytes = evidence;
    intent_bytes = intent;
    temporary_bytes = charge.temporary;
    promised_bytes = charge.promised;
  })

-- A number in hexadecimal digits, padded to a width.
unfoldable pub hex_padded : ℕ → ℕ → Text → Text
hex_padded zero n acc = acc
hex_padded (suc width) n acc = hex_padded width (n / 16) (hex_digit (n % 16) ∷ acc)

-- The first shard from x on that is not there, of `fuel` many; `00` if all are.
unfoldable pub free_shard : ℕ → ℕ → List Text → Text
unfolding hex_padded text_eq
free_shard zero x dirs = txt "00"
free_shard (suc fuel) x dirs =
    let rest = free_shard fuel (x + 1) dirs in
    let shard = hex_padded 2 x [] in
    if any (text_eq (txt "requests/" ++ shard)) dirs then rest else shard

-- The first request path from x on that is not taken, of `fuel` many.
unfoldable pub free_request : ℕ → ℕ → Text → List FileEntry → Result Text
unfolding hex_padded find_entry
free_request zero x shard files = err limit_exceeded
free_request (suc fuel) x shard files =
    let rest = free_request fuel (x + 1) shard files in
    let path =
      txt "requests/" ++ (shard ++ (txt "/" ++ (shard ++ (hex_padded 62 x [] ++ txt ".json")))) in
    if is_some (find_entry path files) then rest else ok path

abbrev bytes_of : Option FileEntry → ℕ
bytes_of none = 0
bytes_of (some f) = f.bytes

abbrev pub unpause_charge : Charge
unpause_charge = record { temporary = 8538; promised = 6342; names = 5 }

abbrev reserved : Text
reserved = txt "hypothetical reserved bytes; not authentication"

-- measure and check
unfoldable pub measured : CostCalls → Inventory → Head → Charge → Limits → Result Cost
unfolding measure check
measured calls i h charge l = do c ← measure calls i h charge; check c l; ok c

-- unpausePeak up to its last measurement: the store and the head with the reserved receipt and request
unfoldable pub reserve_unpause : CostCalls → Inventory → Head → Limits → Result (Inventory × Head)
unfolding measure journal_reserve checked_add receipt_name find_entry put free_shard free_request
    encode_file head_value decode_head
reserve_unpause calls base h l = do
  let i = add_dir base (txt "staging")
  c ← measure calls i h no_charge
  journal_reserve c true l
  n ← checked_add h.last_seq 1
  refuse_if (ltb max_stage_receipt_seq n) limit_exceeded
  let hash = calls.sum reserved
  let path = txt "receipts/" ++ or_empty (receipt_name n)
  refuse_if (is_some (find_entry path i.files)) malformed
  j ← put i (record { path = path; bytes = unpause_receipt_bytes; sha256 = hash }) true
  let shard = free_shard 256 0 j.dirs
  request ← free_request (length j.files + 1) 0 shard j.files
  k ← put j (record { path = request; bytes = 563; sha256 = hash }) true
  let next = record h { last_seq = n; last_receipt_sha256 = some hash }
  let head = encode_file (head_value next)
  decode_head head
  m ←
      if leb (bytes_of (find_entry (txt "head.json") k.files)) (length head)
      then put k (bytes_entry calls.sum (txt "head.json") head) false
      else ok k
  ok (m, next)

-- unpausePeak
unfoldable pub unpause_peak : CostCalls → Inventory → Head → Limits → Result Cost
unfolding reserve_unpause measured
unpause_peak calls base h l = do
  (i, next) ← reserve_unpause calls base h l
  measured calls i next unpause_charge l
