-- ===== src/Transaction/Inventory.antt =====
-- The inventory of internal/transaction/capacity.go: the files and directories that a transaction meets, and
-- the plan of model.go as far as the capacity and redo checks read it. A map is a list of its
-- entries with distinct keys. Paths are clean: none has an empty segment or a dot segment.
use corvint_tasks.Base.{
  ℕ, zero, suc, ◌+◌, ◌*◌, ◌==◌, Bool, true, false, not, ◌&&◌, ◌||◌, Option, none, some, List, [],
  ◌∷◌, ◌++◌, if◌then◌else◌, ltb, length, any, all, is_some, take,
}
use corvint_tasks.Text.{Text, txt, text_eq, has_prefix}
use corvint_tasks.Wire.Code.{
  Result, ok, err, malformed, limit_exceeded, unsupported, require, refuse_if, ◌>>=◌, ◌>>◌,
}
use corvint_tasks.Wire.Limits.{max_tickets_per_queue}
use corvint_tasks.Wire.Decimal.{count_of, parse_size, is_digit, decimal_value}
use corvint_tasks.Wire.Primitives.{Digest, parse_digest}
use corvint_tasks.Snapshot.Stage.{Description, max_stage_receipt_seq}
use corvint_tasks.Snapshot.Paths.{trim_prefix}
use corvint_tasks.Snapshot.Head.{Head}
use corvint_tasks.Snapshot.Places.{mib, has_suffix, post_bound, succeeds}
use corvint_tasks.Snapshot.Receipt.{max_receipt_file_bytes}
use corvint_tasks.Archive.Manifest.{FileEntry, max_archive_files}
use corvint_tasks.Archive.Cost.{checked_add}

pub record Inventory : Type 0 where
  pub files : List FileEntry
  pub dirs : List Text

-- What the capacity and redo checks read of a plan; `posts` holds the bytes of a path, none for a deletion.
pub record FrozenPlan : Type 0 where
  pub descriptor : Text
  pub receipt : Text
  pub head : Text
  pub artifacts : List Description
  pub posts : Text → Text
  pub deletes_barrier : Bool
  pub base : Inventory
  pub base_head : Option Head

abbrev pub max_archive_scan_entries : ℕ
max_archive_scan_entries = max_archive_files + 4096

abbrev pub max_intent_tree_bytes : ℕ
max_intent_tree_bytes = 256 * mib

unfoldable pub find_entry : Text → List FileEntry → Option FileEntry
unfolding text_eq
find_entry path [] = none
find_entry path (f ∷ fs) =
    let rest = find_entry path fs in if text_eq f.path path then some f else rest

-- Inventory.matches
unfoldable pub matches : (Text → Digest) → Inventory → Text → Text → Bool
unfolding find_entry
matches sum i path raw = elim (find_entry path i.files) [
  | none ↦ false
  | some f ↦ text_eq f.sha256 (sum raw) && f.bytes == length raw
]

-- ==, of two entries
unfoldable pub entry_eq : FileEntry → FileEntry → Bool
unfolding text_eq
entry_eq f g = text_eq f.path g.path && (f.bytes == g.bytes && text_eq f.sha256 g.sha256)

-- i.files[path] == f
unfoldable pub holds_entry : List FileEntry → Text → FileEntry → Bool
unfolding find_entry entry_eq
holds_entry fs path f = elim (find_entry path fs) [ none ↦ false | some g ↦ entry_eq g f ]

-- entry
abbrev pub entry : Description → FileEntry
entry a = record { path = a.target; bytes = a.bytes; sha256 = a.sha256 }

-- bytesEntry
abbrev pub bytes_entry : (Text → Digest) → Text → Text → FileEntry
bytes_entry sum path raw = record { path = path; bytes = length raw; sha256 = sum raw }

abbrev has_dir : Inventory → Text → Bool
has_dir i d = any (text_eq d) i.dirs

abbrev pub add_dir : Inventory → Text → Inventory
add_dir i d = if any (text_eq d) i.dirs then i else record i { dirs = d ∷ i.dirs }

-- The directories above a path, by repeated path.Dir; `before` holds the path in front, in reverse.
unfoldable pub parents_from : Text → Text → List Text
parents_from before [] = []
parents_from before (c ∷ s) =
    let rest = parents_from (before ++ c ∷ []) s in if c == b'/' then before ∷ rest else rest

abbrev pub parents : Text → List Text
parents path = parents_from [] path

-- Is path.Dir "." or a directory that is there?
abbrev last_or_none : List Text → Option Text
last_or_none [] = none
last_or_none (d ∷ []) = some d
last_or_none (d ∷ e ∷ ds) = last_or_none (e ∷ ds)

abbrev pub has_parent : List Text → Text → Bool
has_parent dirs path = elim (last_or_none (parents path)) [
  | none ↦ true
  | some d ↦ any (text_eq d) dirs
]

-- directory
unfoldable pub is_directory : Text → Bool
unfolding text_eq has_prefix trim_prefix parse_digest
is_directory d =
    any (text_eq d) (
      txt "receipts"
      ∷ txt "requests"
      ∷ txt "evidence"
      ∷ txt "pinned"
      ∷ txt "attempts"
      ∷ txt "effects"
      ∷ txt "worktrees"
      ∷ txt "staging"
      ∷ [])
    || (length d == 11
        && (has_prefix d (txt "requests/")
            && succeeds (parse_digest (repeated 32 (trim_prefix d (txt "requests/"))))))
  where
    repeated : ℕ → Text → Text
    repeated zero s = []
    repeated (suc n) s = s ++ repeated n s

-- The bound of a receipt by its file name.
abbrev receipt_bound : Text → Result ℕ
receipt_bound name = do
  refuse_if (not (length name == 17) || not (has_suffix name (txt ".json"))) malformed
  require (all is_digit (take 12 name)) malformed
  let n = decimal_value (take 12 name)
  refuse_if (ltb n 1 || ltb max_stage_receipt_seq n) limit_exceeded
  ok max_receipt_file_bytes

-- retainedBound
unfoldable pub retained_bound : Text → Result ℕ
unfolding text_eq has_prefix trim_prefix has_suffix decimal_value post_bound
retained_bound p =
    if text_eq p (txt "head.json")
    then ok 4096
    else if has_prefix p (txt "receipts/")
    then receipt_bound (trim_prefix p (txt "receipts/"))
    else if has_prefix p (txt "attempts/")
        || (has_prefix p (txt "effects/")
            || (has_prefix p (txt "worktrees/") || text_eq p (txt "intent/import-map.json")))
    then err unsupported
    else post_bound p

-- The loop of NewInventory over the directories.
unfoldable pub admit_dirs : List Text → List Text → Result (List Text)
unfolding is_directory text_eq
admit_dirs seen [] = ok seen
admit_dirs seen (d ∷ ds) = do
  refuse_if (not (is_directory d) || any (text_eq d) seen) malformed
  admit_dirs (d ∷ seen) ds

-- What NewInventory checks of one file.
unfoldable pub check_file : List Text → List FileEntry → FileEntry → Result (Unit {0})
unfolding find_entry retained_bound parse_size count_of parse_digest has_prefix text_eq parents_from
check_file dirs seen f = do
  refuse_if (is_some (find_entry f.path seen)) malformed
  bound ← retained_bound f.path
  n ← parse_size (count_of f.bytes)
  refuse_if (ltb bound n) limit_exceeded
  parse_digest f.sha256
  refuse_if
      (has_prefix f.path (txt "evidence/") && not (text_eq f.path (txt "evidence/" ++ f.sha256)))
      malformed
  refuse_if
      (has_prefix f.path (txt "pinned/")
        && not (text_eq f.path (txt "pinned/" ++ (f.sha256 ++ txt ".json"))))
      malformed
  refuse_if (not (has_prefix f.path (txt "intent/")) && not (has_parent dirs f.path)) malformed

-- The loop of NewInventory over the files.
unfoldable pub admit_entries : List Text → List FileEntry → List FileEntry → Result (List FileEntry)
unfolding check_file
admit_entries dirs seen [] = ok seen
admit_entries dirs seen (f ∷ fs) = do check_file dirs seen f; admit_entries dirs (f ∷ seen) fs

abbrev pub is_intent : FileEntry → Bool
is_intent f = has_prefix f.path (txt "intent/")

-- The bytes of the files of a list that pass a test, by add.
unfoldable pub add_bytes : (FileEntry → Bool) → ℕ → List FileEntry → Result ℕ
unfolding checked_add
add_bytes test total [] = ok total
add_bytes test total (f ∷ fs) = do
  more ← if test f then checked_add total f.bytes else ok total
  add_bytes test more fs

abbrev pub count_files : (FileEntry → Bool) → List FileEntry → ℕ
count_files test [] = 0
count_files test (f ∷ fs) = if test f then 1 + count_files test fs else count_files test fs

-- NewInventory
unfoldable pub new_inventory : List FileEntry → List Text → Result Inventory
unfolding admit_dirs admit_entries parents_from text_eq add_bytes has_prefix
new_inventory files dirs = do
  refuse_if (ltb max_archive_files (length files) || ltb max_archive_scan_entries (length dirs))
      limit_exceeded
  ds ← admit_dirs [] dirs
  fs ← admit_entries ds [] files
  require (all (has_parent ds) ds) malformed
  intent ← add_bytes is_intent 0 fs
  refuse_if
      (ltb max_archive_scan_entries (length ds + count_files (λ f. not (is_intent f)) fs)
        || (ltb max_intent_tree_bytes intent
            || ltb max_tickets_per_queue
                (count_files (λ f. has_prefix f.path (txt "intent/tickets/")) fs)))
      limit_exceeded
  ok (record { files = fs; dirs = ds })

unfoldable pub replace_entry : FileEntry → List FileEntry → List FileEntry
unfolding text_eq
replace_entry f [] = f ∷ []
replace_entry f (g ∷ fs) =
    let rest = replace_entry f fs in if text_eq g.path f.path then f ∷ fs else g ∷ rest

abbrev add_dirs : Inventory → List Text → Inventory
add_dirs i [] = i
add_dirs i (d ∷ ds) = add_dirs (add_dir i d) ds

-- Inventory.put
unfoldable pub put : Inventory → FileEntry → Bool → Result Inventory
unfolding find_entry entry_eq replace_entry has_prefix parents_from text_eq
put i f exclusive =
    if exclusive && is_some (find_entry f.path i.files)
    then (if holds_entry i.files f.path f then ok i else err malformed)
    else let j = record i { files = replace_entry f i.files } in
      ok (if is_intent f then j else add_dirs j (parents f.path))

unfoldable pub remove_entry : Text → List FileEntry → List FileEntry
unfolding text_eq
remove_entry path [] = []
remove_entry path (f ∷ fs) =
    let rest = remove_entry path fs in if text_eq f.path path then fs else f ∷ rest
