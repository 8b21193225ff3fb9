-- ===== src/Transaction/Stage.antt =====
-- ClassifyStage of internal/transaction/stage.go: what an observation of the staging area means. An
-- observation is data that the caller supplies; nothing is read here.
pub mod Codecs
pub mod Prepared
use corvint_tasks.Base.{
  ℕ, zero, suc, ◌+◌, ◌-◌, ◌/◌, ◌%◌, ◌^◌, Bool, true, false, not, ◌&&◌, ◌||◌, Option, none, some,
  List, [], ◌∷◌, ltb, ◌==◌, if◌then◌else◌, length, any, all, map,
}
use corvint_tasks.Text.{Text, txt, text_eq}
use corvint_tasks.Wire.Code.{
  Result, ok, err, malformed, limit_exceeded, journal_forked, require, refuse_if, ◌>>=◌, ◌>>◌,
}
use corvint_tasks.Wire.Decimal.{Size}
use corvint_tasks.Wire.Primitives.{Digest}
use corvint_tasks.Wire.Clock.{Timestamp}
use corvint_tasks.Snapshot.Stage.{Descriptor, Description, slot_name, max_stage_descriptor_bytes}

-- What the staging code reads of a head.
pub record Head : Type 0 where
  pub queue_id : Text
  pub last_seq : Size
  pub last_receipt_sha256 : Digest

-- What ClassifyStage reads of a frozen plan; `base_head` holds the file of the base head.
pub record Plan : Type 0 where
  pub descriptor : Text
  pub receipt : Text
  pub head : Text
  pub base_head : Option Text

pub record StageFile : Type 0 where
  pub name : Text
  pub file_type : Text
  pub content : Text

-- StageObservation, without the inventory, which only stageBase reads
pub record Observation : Type 0 where
  pub files : List StageFile
  pub base_state : Text
  pub receipt_inventory : Text
  pub premise : Text
  pub linked_receipt : Text
  pub current_head : Text
  pub projections : Text

-- The code of other parts that the staging code calls: the digest of bytes, the codecs of the
-- descriptor and of the head, and the comparison of an observation with the inventory.
pub record StageCalls : Type 0 where
  pub sum : Text → Digest
  pub decode_descriptor : Text → Result Descriptor
  pub decode_head : Text → Result Head
  pub stage_base : Observation → Option Plan → Result (Unit {0})

-- The Kind of a StageResult.
pub data Kind : Type 0 where
  empty_preparation temp_preparation_abortable preparation_pending : Kind
  full_plan_prepared redo_pending completed_cleanup : Kind

pub record StageResult : Type 0 where
  pub kind : Kind
  pub temporary_bytes : ℕ
  pub entries : ℕ

abbrev pub active_name : Text
active_name = txt "active.json"

abbrev pub temp_name : Text
temp_name = txt "active.json.tmp"

abbrev pub complete_no_next : Text
complete_no_next = txt "COMPLETE_NO_NEXT"

abbrev pub slots : List ℕ
slots = 0 ∷ 1 ∷ 2 ∷ 3 ∷ 4 ∷ 5 ∷ 6 ∷ 7 ∷ 8 ∷ 9 ∷ 10 ∷ []

unfoldable pub is_stage_name : Text → Bool
unfolding text_eq
is_stage_name name =
    text_eq name active_name
    || (text_eq name temp_name || any (λ i. text_eq name (slot_name i)) slots)

-- add of internal/transaction/capacity.go, on numbers below 2 ^ 64
unfoldable pub add : ℕ → ℕ → Result ℕ
add a b = if ltb (2 ^ 64 - 1 - a) b then err limit_exceeded else ok (a + b)

-- files[name]
unfoldable pub find_file : Text → List StageFile → Option StageFile
unfolding text_eq
find_file name [] = none
find_file name (f ∷ fs) =
    let rest = find_file name fs in if text_eq f.name name then some f else rest

abbrev pub has_file : Text → List StageFile → Bool
has_file name fs = any (λ f. text_eq f.name name) fs

-- The loop over the files of an observation: the sum of their bytes.
unfoldable pub admit_files : List StageFile → List StageFile → ℕ → Result ℕ
unfolding is_stage_name add text_eq
admit_files seen [] total = ok total
admit_files seen (f ∷ fs) total = do
  refuse_if (has_file f.name seen) malformed
  require (text_eq f.file_type (txt "REGULAR")) malformed
  require (is_stage_name f.name) malformed
  sum ← add total (length f.content)
  admit_files (f ∷ seen) fs sum

-- Without a descriptor.
unfoldable pub classify_temp : Observation → Result Kind
unfolding find_file
classify_temp o = do
  require (text_eq o.receipt_inventory complete_no_next) malformed
  elim o.files [
    | [] ↦ ok empty_preparation
    | f ∷ fs ↦ elim (find_file temp_name o.files) [
      | none ↦ err malformed
      | some temp ↦ do
        require (length o.files == 1) malformed
        refuse_if (ltb max_stage_descriptor_bytes (length temp.content)) malformed
        ok temp_preparation_abortable
    ]
  ]

-- The base that a descriptor names is that of the head.
unfoldable pub check_base : StageCalls → Observation → Descriptor → Result (Unit {0})
unfolding text_eq
check_base calls o d = elim d.base [
  | none ↦ refuse_if (not (length o.current_head == 0)) malformed
  | some base ↦ do
    h ← calls.decode_head o.current_head
    require
        (text_eq h.queue_id d.queue_id
          && (h.last_seq == base.last_seq
              && text_eq h.last_receipt_sha256 base.last_receipt_sha256))
        malformed
]

unfoldable pub check_current : StageCalls → Observation → Descriptor → Result (Unit {0})
unfolding check_base
check_current calls o d =
    if text_eq o.receipt_inventory complete_no_next then check_base calls o d else ok tt

-- A frozen plan has the descriptor that is observed.
unfoldable pub check_frozen : Option Plan → Text → Result (Unit {0})
unfolding text_eq
check_frozen none active = ok tt
check_frozen (some plan) active = require (text_eq plan.descriptor active) malformed

-- A temporary file beside the descriptor is a prefix of it by its length, and is it if complete.
unfoldable pub check_temp : Text → List StageFile → Result (Unit {0})
unfolding find_file
check_temp active fs = elim (find_file temp_name fs) [
  | none ↦ ok tt
  | some temp ↦ do
    refuse_if (ltb (length active) (length temp.content)) limit_exceeded
    refuse_if (length temp.content == length active && not (text_eq temp.content active))
        journal_forked
]

-- One artifact: is it there and complete?
unfoldable pub check_artifact : (Text → Digest) → List StageFile → Description → Result Bool
unfolding find_file text_eq
check_artifact sum fs a = elim (find_file a.slot fs) [
  | none ↦ ok false
  | some f ↦
      if ltb a.bytes (length f.content)
      then err limit_exceeded
      else if ltb (length f.content) a.bytes
      then ok false
      else if not (text_eq (sum f.content) a.sha256)
      then err journal_forked
      else ok true
]

-- The loop over the artifacts: are all there and complete?
unfoldable pub check_artifacts :
    (Text → Digest) → List StageFile → List Description → Bool → Result Bool
unfolding check_artifact
check_artifacts sum fs [] complete = ok complete
check_artifacts sum fs (a ∷ more) complete = do
  here ← check_artifact sum fs a
  check_artifacts sum fs more (complete && here)

-- Is the file the descriptor, its temporary file, or in the slot of an artifact?
unfoldable pub is_assigned : List Description → StageFile → Bool
unfolding text_eq
is_assigned ds f =
    text_eq f.name active_name || (text_eq f.name temp_name || any (λ a. text_eq f.name a.slot) ds)

-- The head of a pending transaction is still that of its base.
unfoldable pub check_pending : Option Text → Text → Result (Unit {0})
unfolding text_eq
check_pending none current = refuse_if (not (length current == 0)) malformed
check_pending (some head) current = require (text_eq current head) malformed

-- The switch on the receipt inventory.
unfoldable pub classify_receipt : Observation → Option Plan → Bool → Result Kind
unfolding text_eq check_pending
classify_receipt o p complete =
    if text_eq o.receipt_inventory complete_no_next
    then elim p [
      | none ↦ ok preparation_pending
      | some plan ↦ ok (if complete then full_plan_prepared else preparation_pending)
    ]
    else if text_eq o.receipt_inventory (txt "MATCHING_NEXT")
    then elim p [
      | none ↦ err malformed
      | some plan ↦ do
        require (text_eq o.linked_receipt plan.receipt) malformed
        check_pending plan.base_head o.current_head
        require (text_eq o.projections (txt "PRE_OR_POST")) malformed
        ok redo_pending
    ]
    else if text_eq o.receipt_inventory (txt "MATCHING_COMPLETED")
    then elim p [
      | none ↦ err malformed
      | some plan ↦ do
        require (text_eq o.linked_receipt plan.receipt) malformed
        require (text_eq o.current_head plan.head && text_eq o.projections (txt "POST")) malformed
        ok completed_cleanup
    ]
    else err malformed

-- With a descriptor.
unfoldable pub classify_active : StageCalls → Observation → Option Plan → StageFile → Result Kind
unfolding check_current check_frozen check_temp check_artifacts is_assigned classify_receipt
classify_active calls o p active = do
  d ← calls.decode_descriptor active.content
  check_current calls o d
  check_temp active.content o.files
  complete ← check_artifacts calls.sum o.files d.artifacts true
  require (all (is_assigned d.artifacts) o.files) malformed
  check_frozen p active.content
  classify_receipt o p complete

unfoldable pub classify_files : StageCalls → Observation → Option Plan → Result Kind
unfolding classify_temp classify_active find_file
classify_files calls o p = elim (find_file active_name o.files) [
  | none ↦ classify_temp o
  | some active ↦ classify_active calls o p active
]

-- ClassifyStage
unfoldable pub classify_stage : StageCalls → Observation → Option Plan → Result StageResult
unfolding admit_files classify_files text_eq
classify_stage calls o p = do
  require
      ((text_eq o.premise (txt "HYPOTHETICAL_FIXTURE_NO_RUNTIME")
          || text_eq o.premise (txt "OBSERVED_LOCAL_OPERATOR"))
        && text_eq o.base_state (txt "UNCHANGED"))
      malformed
  calls.stage_base o p
  refuse_if (ltb 13 (length o.files)) limit_exceeded
  total ← admit_files [] o.files 0
  kind ← classify_files calls o p
  ok (record { kind = kind; temporary_bytes = total; entries = length o.files + 1 })
