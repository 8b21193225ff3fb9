-- ===== src/Transaction/Recovery.antt =====
-- validateRedoInventory of internal/transaction/recovery.go, with DeleteRedo
-- of internal/journal/redo.go: whether the files of the store are those of a committed transaction
-- that was cut off while it was carried out.
pub mod Redo
use corvint_tasks.Base.{
  ℕ, ◌==◌, Bool, true, false, not, ◌&&◌, ◌||◌, Option, none, some, List, [], ◌∷◌, ◌++◌,
  if◌then◌else◌, length, any, all, is_some, map,
}
use corvint_tasks.Text.{Text, txt, text_eq, has_prefix}
use corvint_tasks.Wire.Code.{
  Result, ok, err, malformed, journal_forked, require, refuse_if, ◌>>=◌, ◌>>◌,
}
use corvint_tasks.Wire.Decimal.{Size}
use corvint_tasks.Wire.Primitives.{Digest, parse_digest}
use corvint_tasks.Snapshot.Stage.{Description}
use corvint_tasks.Archive.Manifest.{FileEntry}
use corvint_tasks.Transaction.Inventory.{
  Inventory, FrozenPlan, find_entry, matches, holds_entry, entry,
}
use corvint_tasks.Snapshot.Paths.{receipt_name, or_empty}

-- A post of a receipt, with the pre image of the same index.
pub record Change : Type 0 where
  pub path : Text
  pub pre : Option Digest
  pub post : Option Digest

-- What the redo check reads of a receipt.
pub record Receipt : Type 0 where
  pub seq : Size
  pub changes : List Change

-- The code of other parts that the redo check calls.
pub record RedoCalls : Type 0 where
  pub sum : Text → Digest
  pub decode_receipt : Text → Result Receipt

-- What DeleteRedo finds.
pub data Deletion : Type 0 where
  already_applied delete_eligible : Deletion

-- DeleteRedo
unfoldable pub delete_redo : Digest → Option Digest → Result Deletion
unfolding parse_digest text_eq
delete_redo pre current = do
  parse_digest pre
  elim current [
    | none ↦ ok already_applied
    | some d ↦ do parse_digest d; if text_eq d pre then ok delete_eligible else err journal_forked
  ]

-- The digest of a file that is there.
abbrev pub current_digest : Option FileEntry → Option Digest
current_digest none = none
current_digest (some f) = some f.sha256

-- A file is still the one of the base.
unfoldable pub is_base : FrozenPlan → Inventory → Change → Bool
unfolding find_entry holds_entry text_eq
is_base p i c = elim c.pre [
  | none ↦ not (is_some (find_entry c.path i.files))
  | some pre ↦ elim (find_entry c.path i.files) [
    | none ↦ false
    | some f ↦ text_eq pre f.sha256 && holds_entry p.base.files c.path f
  ]
]

-- One turn of the loop over the posts. A deletion without a pre image, which no receipt has, is refused
-- here.
unfoldable pub check_change : (Text → Digest) → FrozenPlan → Inventory → Change → Result (Unit {0})
unfolding delete_redo is_base matches find_entry
check_change sum p i c = elim c.post [
  | none ↦ elim c.pre [
    | none ↦ err malformed
    | some pre ↦ do delete_redo pre (current_digest (find_entry c.path i.files)); ok tt
  ]
  | some _ ↦ require (matches sum i c.path (p.posts c.path) || is_base p i c) journal_forked
]

unfoldable pub check_changes :
    (Text → Digest) → FrozenPlan → Inventory → List Change → Result (Unit {0})
unfolding check_change
check_changes sum p i [] = ok tt
check_changes sum p i (c ∷ more) = do check_change sum p i c; check_changes sum p i more

-- Is a post carried out?
unfoldable pub is_applied : (Text → Digest) → FrozenPlan → Inventory → Change → Bool
unfolding matches find_entry
is_applied sum p i c = elim c.post [
  | none ↦ not (is_some (find_entry c.path i.files))
  | some _ ↦ matches sum i c.path (p.posts c.path)
]

-- The head is that of the base, or all posts are carried out.
unfoldable pub check_head :
    (Text → Digest) → FrozenPlan → Inventory → List Change → Result (Unit {0})
unfolding is_applied matches holds_entry find_entry
check_head sum p i changes = elim (find_entry (txt "head.json") i.files) [
  | none ↦ refuse_if (is_some p.base_head) malformed
  | some f ↦
      if matches sum i (txt "head.json") p.head
      then require (all (is_applied sum p i) changes) malformed
      else require (is_some p.base_head && holds_entry p.base.files (txt "head.json") f) malformed
]

-- The paths that the transaction may change.
abbrev pub allowed_paths : FrozenPlan → Receipt → List Text
allowed_paths p rc =
    txt "head.json"
    ∷ (txt "receipts/" ++ or_empty (receipt_name rc.seq))
    ∷ (map (λ a. a.target) p.artifacts ++ map (λ c. c.path) rc.changes)

-- validateRedoInventory
unfoldable pub validate_redo : RedoCalls → FrozenPlan → Inventory → Result (Unit {0})
unfolding receipt_name check_changes check_head has_prefix text_eq matches holds_entry find_entry
validate_redo calls p i = do
  rc ← calls.decode_receipt p.receipt
  let allowed = allowed_paths p rc
  require (matches calls.sum i (txt "receipts/" ++ or_empty (receipt_name rc.seq)) p.receipt)
      malformed
  require
      (all (λ old. any (text_eq old.path) allowed || holds_entry i.files old.path old) p.base.files)
      malformed
  require
      (all (λ f. is_some (find_entry f.path p.base.files) || any (text_eq f.path) allowed) i.files)
      malformed
  require (all (λ d. any (text_eq d) i.dirs) p.base.dirs) malformed
  require
      (all
        (λ a. not (has_prefix a.target (txt "evidence/")) || holds_entry i.files a.target (entry a))
        p.artifacts)
      malformed
  check_changes calls.sum p i rc.changes
  check_head calls.sum p i rc.changes
