-- ===== src/Transaction/Cleanup/Accepted.antt =====
-- The states of a cleanup that Cleanup of internal/transaction/stage.go accepts.
use corvint_tasks.Base.{
  ℕ, ◌≡◌, refl, Bool, true, false, not, ◌&&◌, ◌||◌, none, [], all, if◌then◌else◌,
}
use corvint_tasks.Text.{text_eq}
use corvint_tasks.Wire.Code.{
  Result, ok, malformed, require, refuse_if, >>=-eq-ok, unit_step, require-passed, refuse_if-passed,
}
use corvint_tasks.Transaction.Stage.{
  StageCalls, Observation, StageResult, complete_no_next, classify_stage,
}
use corvint_tasks.Transaction.Cleanup.{
  CleanupState, CleanupResult, held, model_ready, is_temp_only, check_removed, is_taken,
  charged_entries, charged_bytes, promised, cleanup,
}

-- Is there no descriptor?
abbrev pub without_descriptor : StageResult → Bool
without_descriptor r = is_temp_only r.kind

-- What Cleanup checks of a state, and the bytes that are still promised.
pub record IsAccepted (calls : StageCalls) (o : Observation) (c : CleanupState) (r : StageResult)
    (bytes : ℕ) : Type 0 where
  pub classified : classify_stage calls o none ≡ ok r
  pub receipts : text_eq o.receipt_inventory complete_no_next ≡ true
  pub names : check_removed o.files [] c.removed ≡ ok tt
  pub payload : c.payload_synced && not (all (is_taken c) o.files) ≡ false
  pub unlinked : c.descriptor_unlinked && (not c.payload_synced || without_descriptor r) ≡ false
  pub synced : c.descriptor_synced && not c.descriptor_unlinked ≡ false
  pub promises :
      (if without_descriptor r || c.descriptor_synced then ok 0 else promised calls o) ≡ ok bytes

-- What Cleanup gives in a state that it accepts.
abbrev pub result_of : Observation → CleanupState → StageResult → ℕ → CleanupResult
result_of o c r bytes = record {
  temporary_bytes = charged_bytes c o.files;
  entries = charged_entries c o.files;
  promised_bytes = bytes;
  fresh_descriptor =
      if (without_descriptor r && c.payload_synced) || c.descriptor_synced
      then model_ready
      else held;
}

pub cleanup-IsAccepted :
    (calls : StageCalls) (o : Observation) (c : CleanupState) (out : CleanupResult)
    → cleanup calls o c ≡ ok out
    → (r : StageResult) × (bytes : ℕ) × IsAccepted calls o c r bytes × (out ≡ result_of o c r bytes)
unfolding cleanup
cleanup-IsAccepted calls o c out h =
    let (r, classified, h1) = >>=-eq-ok (classify_stage calls o none) _ h in
    let (receipts, h2) =
      unit_step (require (text_eq o.receipt_inventory complete_no_next) malformed) _ h1 in
    let (names, h3) = unit_step (check_removed o.files [] c.removed) _ h2 in
    let (payload, h4) =
      unit_step (refuse_if (c.payload_synced && not (all (is_taken c) o.files)) malformed) _ h3 in
    let (unlinked, h5) =
      unit_step
        (refuse_if (c.descriptor_unlinked && (not c.payload_synced || without_descriptor r))
          malformed)
        _ h4 in
    let (synced, h6) =
      unit_step (refuse_if (c.descriptor_synced && not c.descriptor_unlinked) malformed) _ h5 in
    let (bytes, promises, h7) =
      >>=-eq-ok (if without_descriptor r || c.descriptor_synced then ok 0 else promised calls o) _
        h6 in
    (
      r,
      bytes,
      record {
        classified = classified;
        receipts = require-passed _ malformed receipts;
        names = names;
        payload = refuse_if-passed _ malformed payload;
        unlinked = refuse_if-passed _ malformed unlinked;
        synced = refuse_if-passed _ malformed synced;
        promises = promises;
      },
      same out (result_of o c r bytes) h7,
    )
  where
    same : (x y : CleanupResult) → ◌≡◌ {A = Result CleanupResult} (ok y) (ok x) → x ≡ y
    same x y e = cc

pub IsAccepted-cleanup :
    (calls : StageCalls) (o : Observation) (c : CleanupState) (r : StageResult) (bytes : ℕ)
    → IsAccepted calls o c r bytes
    → cleanup calls o c ≡ ok (result_of o c r bytes)
unfolding cleanup
IsAccepted-cleanup calls o c r bytes a =
    rw (a.classified, a.receipts, a.names, a.payload, a.unlinked, a.synced, a.promises) refl
