-- ===== src/Snapshot/Stage.antt =====
-- The data of internal/snapshot/stage.go: what a staged transaction consists of.
use corvint_tasks.Base.{ℕ, ◌+◌, ◌/◌, ◌%◌, Option, List, [], ◌∷◌, if◌then◌else◌}
use corvint_tasks.Text.{Text, txt, text_eq}
use corvint_tasks.Wire.Decimal.{Size}
use corvint_tasks.Wire.Primitives.{Digest}
use corvint_tasks.Wire.Clock.{Timestamp}

pub record StageBase : Type 0 where
  pub last_seq : Size
  pub last_receipt_sha256 : Digest

pub record Description : Type 0 where
  pub slot : Text
  pub role : Text
  pub target : Text
  pub sha256 : Digest
  pub bytes : Size

pub record Descriptor : Type 0 where
  pub queue_id : Text
  pub operation : Text
  pub request_id : Text
  pub request_sha256 : Digest
  pub recorded_at : Timestamp
  pub base : Option StageBase
  pub artifacts : List Description

abbrev pub init_operation : Text
init_operation = txt "INIT"

abbrev pub pause_operation : Text
pause_operation = txt "PAUSE"

abbrev pub unpause_operation : Text
unpause_operation = txt "UNPAUSE"

abbrev pub keep_operation : Text
keep_operation = txt "KEEP_JOURNAL"

abbrev pub adopt_operation : Text
adopt_operation = txt "ADOPT_FILE"

abbrev pub mutate_operation : Text
mutate_operation = txt "MUTATE"

abbrev pub release_operation : Text
release_operation = txt "RELEASE"

abbrev pub policy_operation : Text
policy_operation = txt "POLICY_UPDATE"

-- MaxStageDescriptorBytes
abbrev pub max_stage_descriptor_bytes : ℕ
max_stage_descriptor_bytes = 2422

-- MaxStageReceiptSeq
abbrev pub max_stage_receipt_seq : ℕ
max_stage_receipt_seq = 1000000

abbrev pub unpause_receipt_bytes : ℕ
unpause_receipt_bytes = 1683

-- stageSlot, of a number below 100; slotName of internal/transaction/stage.go is the same
abbrev pub slot_name : ℕ → Text
slot_name i = b'a' ∷ (b'0' + i / 10) ∷ (b'0' + i % 10) ∷ []

-- StageLimits: how many artifacts, and how many bytes of a descriptor
unfoldable pub stage_limits : Text → ℕ × ℕ
unfolding text_eq
stage_limits op =
    if text_eq op init_operation
    then (11, 2422)
    else if text_eq op pause_operation
    then (4, 1243)
    else if text_eq op unpause_operation
    then (3, 1098)
    else if text_eq op keep_operation
    then (6, 1676)
    else if text_eq op adopt_operation
    then (5, 1467)
    else if text_eq op mutate_operation
    then (6, 1615)
    else if text_eq op release_operation
    then (6, 2600)
    else if text_eq op policy_operation
    then (5, 1470)
    else (0, 0)
