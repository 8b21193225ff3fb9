-- ===== src/Transaction/Cleanup.antt =====
-- Cleanup of internal/transaction/stage.go: what the staging area still costs while a preparation is
-- taken back, and when it is free for a fresh descriptor.
pub mod Accepted
pub mod Ready
pub mod Steps
pub mod Promised
pub mod Ends
use corvint_tasks.Base.{
  ℕ, zero, suc, ◌+◌, ◌%◌, ◌^◌, Bool, true, false, not, ◌&&◌, ◌||◌, Option, none, some, List, [],
  ◌∷◌, if◌then◌else◌, length, any, all,
}
use corvint_tasks.Text.{Text, text_eq}
use corvint_tasks.Wire.Code.{Result, ok, err, malformed, require, refuse_if, ◌>>=◌, ◌>>◌}
use corvint_tasks.Snapshot.Stage.{Description}
use corvint_tasks.Transaction.Stage.{
  StageCalls, Observation, StageFile, Kind, empty_preparation, temp_preparation_abortable,
  active_name, complete_no_next, add, find_file, has_file, classify_stage,
}

pub record CleanupState : Type 0 where
  pub removed : List Text
  pub payload_synced : Bool
  pub descriptor_unlinked : Bool
  pub descriptor_synced : Bool

-- FreshDescriptor
pub data FreshDescriptor : Type 0 where
  held model_ready : FreshDescriptor

pub record CleanupResult : Type 0 where
  pub temporary_bytes : ℕ
  pub entries : ℕ
  pub promised_bytes : ℕ
  pub fresh_descriptor : FreshDescriptor

-- Is there no descriptor?
abbrev pub is_temp_only : Kind → Bool
is_temp_only temp_preparation_abortable = true
is_temp_only empty_preparation = true
is_temp_only _ = false

-- The loop over the removed names.
unfoldable pub check_removed : List StageFile → List Text → List Text → Result (Unit {0})
unfolding text_eq
check_removed fs seen [] = ok tt
check_removed fs seen (n ∷ ns) = do
  refuse_if (text_eq n active_name || any (text_eq n) seen) malformed
  require (has_file n fs) malformed
  check_removed fs (n ∷ seen) ns

-- Is a file other than the descriptor, if it is one, removed?
abbrev pub is_taken : CleanupState → StageFile → Bool
is_taken c f = text_eq f.name active_name || any (text_eq f.name) c.removed

-- durableRemoved
unfoldable pub durably_removed : CleanupState → StageFile → Bool
unfolding text_eq
durably_removed c f =
    if text_eq f.name active_name
    then c.descriptor_synced
    else any (text_eq f.name) c.removed && c.payload_synced

-- The loop that counts the files that are still charged, and their bytes.
unfoldable pub charged_entries : CleanupState → List StageFile → ℕ
unfolding durably_removed
charged_entries c [] = 1
charged_entries c (f ∷ fs) =
    let rest = charged_entries c fs in if durably_removed c f then rest else suc rest

unfoldable pub charged_bytes : CleanupState → List StageFile → ℕ
unfolding durably_removed
charged_bytes c [] = 0
charged_bytes c (f ∷ fs) =
    let rest = charged_bytes c fs in
    if durably_removed c f then rest else (length f.content + rest) % 2 ^ 64

-- The sum of the bytes that the descriptor promises.
unfoldable pub promised_from : ℕ → List Description → Result ℕ
unfolding add
promised_from total [] = ok total
promised_from total (a ∷ more) = do sum ← add total a.bytes; promised_from sum more

-- The bytes of the descriptor; a descriptor that does not decode is refused where the source, which
-- has decoded it before, ignores the error.
unfoldable pub promised : StageCalls → Observation → Result ℕ
unfolding find_file promised_from
promised calls o = elim (find_file active_name o.files) [
  | none ↦ err malformed
  | some active ↦ do d ← calls.decode_descriptor active.content; promised_from 0 d.artifacts
]

-- Cleanup
unfoldable pub cleanup : StageCalls → Observation → CleanupState → Result CleanupResult
unfolding classify_stage check_removed charged_entries charged_bytes promised text_eq
cleanup calls o c = do
  classified ← classify_stage calls o none
  require (text_eq o.receipt_inventory complete_no_next) malformed
  let temp_only = is_temp_only classified.kind
  check_removed o.files [] c.removed
  refuse_if (c.payload_synced && not (all (is_taken c) o.files)) malformed
  refuse_if (c.descriptor_unlinked && (not c.payload_synced || temp_only)) malformed
  refuse_if (c.descriptor_synced && not c.descriptor_unlinked) malformed
  bytes ← if temp_only || c.descriptor_synced then ok 0 else promised calls o
  ok (record {
    temporary_bytes = charged_bytes c o.files;
    entries = charged_entries c o.files;
    promised_bytes = bytes;
    fresh_descriptor =
        if (temp_only && c.payload_synced) || c.descriptor_synced then model_ready else held;
  })
