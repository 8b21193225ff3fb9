-- ===== src/Transaction/Cleanup/Ready.antt =====
-- When Cleanup of internal/transaction/stage.go gives the staging area free, nothing is charged any more.
use corvint_tasks.Base.{
  ℕ, ◌≡◌, refl, sym, ap, ◌∙◌, none, Option-cases, Bool, true, false, not, ◌&&◌, ◌||◌, List, [], ◌∷◌,
  all, arith, if◌then◌else◌, ltb, Bool-cases, inl, inr, and_split, or_split, length,
}
use corvint_tasks.Text.{Text, text_eq}
use corvint_tasks.Wire.Code.{
  Result, ok, err, malformed, limit_exceeded, require, refuse_if, >>=-eq-ok, unit_step,
}
use corvint_tasks.Transaction.Stage.{
  StageCalls, Observation, StageFile, StageResult, active_name, find_file, complete_no_next, Kind,
  preparation_pending, classify_active, classify_receipt, classify_files, classify_stage,
  check_current, check_temp, check_artifacts, is_assigned, admit_files,
}
use corvint_tasks.Transaction.Cleanup.{
  CleanupState, CleanupResult, held, model_ready, is_temp_only, is_taken, durably_removed,
  charged_entries, charged_bytes, promised, cleanup,
}
use corvint_tasks.Transaction.Cleanup.Accepted.{IsAccepted, cleanup-IsAccepted, without_descriptor}

-- Every file is durably removed.
abbrev IsGone : CleanupState → List StageFile → Type 0
IsGone c [] = Unit
IsGone c (f ∷ fs) = (durably_removed c f ≡ true) × IsGone c fs

gone_free :
    (c : CleanupState) (fs : List StageFile)
    → IsGone c fs
    → (charged_entries c fs ≡ 1) × (charged_bytes c fs ≡ 0)
unfolding charged_entries charged_bytes
gone_free c [] h = (refl, refl)
gone_free c (f ∷ fs) (here, rest) = rw here (gone_free c fs rest)

-- With the payload and the descriptor synced, what is taken is gone.
taken_gone :
    (c : CleanupState) (fs : List StageFile)
    → c.payload_synced ≡ true
    → c.descriptor_synced ≡ true
    → all (is_taken c) fs ≡ true
    → IsGone c fs
unfolding durably_removed
taken_gone c [] p d h = tt
taken_gone c (f ∷ fs) p d h =
    let (here, rest) = and_split (is_taken c f) (all (is_taken c) fs) h in
    (ground arith, taken_gone c fs p d rest)

find_file_tail :
    (name : Text) (f : StageFile) (fs : List StageFile)
    → find_file name (f ∷ fs) ≡ none
    → (text_eq f.name name ≡ false) × (find_file name fs ≡ none)
unfolding find_file
find_file_tail name f fs h = elim (Bool-cases (text_eq f.name name)) [
  | inl same ↦ absurd (ground arith)
  | inr other ↦ (other, rw other at h)
]

-- Without a descriptor, the payload is all there is.
payload_gone :
    (c : CleanupState) (fs : List StageFile)
    → c.payload_synced ≡ true
    → find_file active_name fs ≡ none
    → all (is_taken c) fs ≡ true
    → IsGone c fs
unfolding durably_removed
payload_gone c [] p none_there h = tt
payload_gone c (f ∷ fs) p none_there h =
    let (here, rest) = and_split (is_taken c f) (all (is_taken c) fs) h in
    let (other, later) = find_file_tail active_name f fs none_there in
    (ground arith, payload_gone c fs p later rest)

-- A preparation with a descriptor is not without one.
active_kind :
    (calls : StageCalls) (o : Observation) (f : StageFile) (k : Kind)
    → text_eq o.receipt_inventory complete_no_next ≡ true
    → classify_active calls o none f ≡ ok k
    → is_temp_only k ≡ false
unfolding classify_active classify_receipt
active_kind calls o f k receipts h =
    let (d, decoded, h1) = >>=-eq-ok (calls.decode_descriptor f.content) _ h in
    let (current, h2) = unit_step (check_current calls o d) _ h1 in
    let (temp, h3) = unit_step (check_temp f.content o.files) _ h2 in
    let (complete, artifacts, h4) =
      >>=-eq-ok (check_artifacts calls.sum o.files d.artifacts true) _ h3 in
    let (assigned, h5) =
      unit_step (require (all (is_assigned d.artifacts) o.files) malformed) _ h4 in
    pending k (rw receipts at h5)
  where
    same :
        (k : Kind) → ◌≡◌ {A = Result Kind} (ok preparation_pending) (ok k) → k ≡ preparation_pending
    same k e = cc

    pending :
        (k : Kind) → ◌≡◌ {A = Result Kind} (ok preparation_pending) (ok k) → is_temp_only k ≡ false
    pending k e = ap is_temp_only (same k e)

no_descriptor :
    (calls : StageCalls) (o : Observation) (r : StageResult)
    → text_eq o.receipt_inventory complete_no_next ≡ true
    → classify_stage calls o none ≡ ok r
    → without_descriptor r ≡ true
    → find_file active_name o.files ≡ none
unfolding classify_stage classify_files
no_descriptor calls o r receipts h temp =
    let (premise, h1) = unit_step (require _ malformed) _ h in
    let (base, h2) = unit_step (calls.stage_base o none) _ h1 in
    let (few, h3) = unit_step (refuse_if (ltb 13 (length o.files)) limit_exceeded) _ h2 in
    let (total, admitted, h4) = >>=-eq-ok (admit_files [] o.files 0) _ h3 in
    let (kind, found, h5) = >>=-eq-ok (classify_files calls o none) _ h4 in
    absent kind found (ap (λ (x : Result StageResult). kind_of x) h5)
  where
    kind_of : Result StageResult → Bool
    kind_of (ok x) = is_temp_only x.kind
    kind_of (err code) = false

    clash : (b : Bool) → b ≡ false → b ≡ true → ⊥
    clash b p q = ground arith

    absent :
        (kind : Kind)
        → classify_files calls o none ≡ ok kind
        → is_temp_only kind ≡ without_descriptor r
        → find_file active_name o.files ≡ none
    absent kind found same = elim (Option-cases (find_file active_name o.files)) [
      | inl missing ↦ missing
      | inr (f, there) ↦ absurd (
          clash (is_temp_only kind)
            (active_kind calls o f kind receipts (rw (there, classify_files) at found))
            (same ∙ temp))
    ]

-- Nothing is promised any more.
nothing_promised :
    (calls : StageCalls) (o : Observation) (temp synced : Bool) (bytes : ℕ)
    → temp || synced ≡ true
    → (if temp || synced then ok 0 else promised calls o) ≡ ok bytes
    → bytes ≡ 0
nothing_promised calls o temp synced bytes h promises = number bytes (rw h at promises)
  where
    number : (n : ℕ) → ◌≡◌ {A = Result ℕ} (ok 0) (ok n) → n ≡ 0
    number n e = cc

IsAccepted-free :
    (calls : StageCalls) (o : Observation) (c : CleanupState) (r : StageResult) (bytes : ℕ)
    → IsAccepted calls o c r bytes
    → (without_descriptor r && c.payload_synced) || c.descriptor_synced ≡ true
    → IsGone c o.files × (bytes ≡ 0)
IsAccepted-free calls o c r bytes a free =
    elim (or_split (without_descriptor r && c.payload_synced) c.descriptor_synced free) [
      | inl plain ↦
          let (temp, payload) = and_split (without_descriptor r) c.payload_synced plain in
          (
            payload_gone c o.files payload (no_descriptor calls o r a.receipts a.classified temp)
                (taken payload a.payload),
            nothing_promised calls o (without_descriptor r) c.descriptor_synced bytes (rw temp refl)
                a.promises,
          )
      | inr synced ↦
          let unlinked = second c.descriptor_synced c.descriptor_unlinked synced a.synced in
          let payload =
            first c.descriptor_unlinked c.payload_synced (without_descriptor r) unlinked
              a.unlinked in
          (
            taken_gone c o.files payload synced (taken payload a.payload),
            nothing_promised calls o (without_descriptor r) c.descriptor_synced bytes
                (either (without_descriptor r) c.descriptor_synced synced) a.promises,
          )
    ]
  where
    taken :
        c.payload_synced ≡ true
        → c.payload_synced && not (all (is_taken c) o.files) ≡ false
        → all (is_taken c) o.files ≡ true
    taken p h = ground arith

    second : (s u : Bool) → s ≡ true → s && not u ≡ false → u ≡ true
    second s u e h = ground arith

    first : (u p t : Bool) → u ≡ true → u && (not p || t) ≡ false → p ≡ true
    first u p t e h = ground arith

    either : (t s : Bool) → s ≡ true → t || s ≡ true
    either t s e = ground arith

-- Cleanup gives the staging area free for a fresh descriptor only when nothing is charged any more: of the
-- entries only the directory itself is left, and neither bytes of files nor promised bytes.
pub cleanup-IsFree :
    (calls : StageCalls) (o : Observation) (c : CleanupState) (out : CleanupResult)
    → cleanup calls o c ≡ ok out
    → out.fresh_descriptor ≡ model_ready
    → (out.entries ≡ 1) × (out.temporary_bytes ≡ 0) × (out.promised_bytes ≡ 0)
cleanup-IsFree calls o c out h ready =
    let (r, bytes, a, same) = cleanup-IsAccepted calls o c out h in
    let (gone, none_left) = IsAccepted-free calls o c r bytes a (
      flag ((without_descriptor r && c.payload_synced) || c.descriptor_synced)
        (sym (ap (λ (x : CleanupResult). x.fresh_descriptor) same) ∙ ready)) in
    let (one, no_bytes) = gone_free c o.files gone in rw same (one, no_bytes, none_left)
  where
    flag : (b : Bool) → (if b then model_ready else held) ≡ model_ready → b ≡ true
    flag true e = refl
    flag false e = cc
