-- ===== src/Transaction/Cleanup/Steps.antt =====
-- The steps of a cleanup, in the order that internal/transaction/stage.go prescribes; each keeps
-- the cleanup acceptable.
use mathlib.Core.Path.{subst}
use corvint_tasks.Base.{
  ℕ, ◌≡◌, refl, sym, ◌∙◌, Bool, true, false, not, ◌&&◌, ◌||◌, none, List, [], ◌∷◌, ◌++◌, all, any,
  arith, if◌then◌else◌,
}
use corvint_tasks.Text.{Text, text_eq}
use corvint_tasks.Wire.Code.{Result, ok, malformed, require, refuse_if, unit_step}
use corvint_tasks.Transaction.Stage.{
  StageCalls, Observation, StageFile, StageResult, active_name, has_file, classify_stage,
}
use corvint_tasks.Transaction.Cleanup.{
  CleanupState, CleanupResult, check_removed, is_taken, promised, cleanup,
}
use corvint_tasks.Transaction.Cleanup.Accepted.{
  IsAccepted, result_of, cleanup-IsAccepted, IsAccepted-cleanup, without_descriptor,
}

-- One step of a cleanup: a name of the payload is removed, the payload is synced once all names are,
-- then the descriptor is unlinked, if there is one, and then this is synced.
pub data Step (o : Observation) (temp_only : Bool) : CleanupState → CleanupState → Type 0 where
  remove :
      (c : CleanupState) (name : Text)
      → c.payload_synced ≡ false
      → has_file name o.files ≡ true
      → text_eq name active_name ≡ false
      → any (text_eq name) c.removed ≡ false
      → Step o temp_only c (record c { removed = c.removed ++ name ∷ [] })
  sync_payload :
      (c : CleanupState)
      → all (is_taken c) o.files ≡ true
      → Step o temp_only c (record c { payload_synced = true })
  unlink_descriptor :
      (c : CleanupState)
      → temp_only ≡ false
      → c.payload_synced ≡ true
      → Step o temp_only c (record c { descriptor_unlinked = true })
  sync_descriptor :
      (c : CleanupState)
      → c.descriptor_unlinked ≡ true
      → Step o temp_only c (record c { descriptor_synced = true })

-- Steps one after the other.
pub data Steps (o : Observation) (temp_only : Bool) : CleanupState → CleanupState → Type 0 where
  no_step : (c : CleanupState) → Steps o temp_only c c
  one_more :
      (a b c : CleanupState) → Steps o temp_only a b → Step o temp_only b c → Steps o temp_only a c

pub or_right : {b : Bool} (a : Bool) → b ≡ true → a || b ≡ true
or_right true h = refl
or_right false h = h

check_removed-append :
    (fs : List StageFile) (seen ns : List Text) (n : Text)
    → check_removed fs seen ns ≡ ok tt
    → text_eq n active_name ≡ false
    → any (text_eq n) seen ≡ false
    → any (text_eq n) ns ≡ false
    → has_file n fs ≡ true
    → check_removed fs seen (ns ++ n ∷ []) ≡ ok tt
unfolding check_removed
check_removed-append fs seen [] n h active new other there = rw (active, new, there) refl
check_removed-append fs seen (m ∷ ns) n h active new other there =
    let (fresh, h1) =
      unit_step (refuse_if (text_eq m active_name || any (text_eq m) seen) malformed) _ h in
    let (owned, h2) = unit_step (require (has_file m fs) malformed) _ h1 in
    let (differ, rest) = or_none (text_eq n m) (any (text_eq n) ns) other in
    rw (fresh, owned)
      (check_removed-append fs (m ∷ seen) ns n h2 active (rw (differ, new) refl) rest there)
  where
    or_none : (a b : Bool) → a || b ≡ false → (a ≡ false) × (b ≡ false)
    or_none true b e = cc
    or_none false b e = (refl, e)

unlinked_not_synced : (u p t : Bool) → u && (not p || t) ≡ false → u && (not true || t) ≡ false
unlinked_not_synced u p t h = ground arith

pub Step-IsAccepted :
    (calls : StageCalls) (o : Observation) (r : StageResult) (c d : CleanupState) (bytes : ℕ)
    → IsAccepted calls o c r bytes
    → Step o (without_descriptor r) c d
    → (left : ℕ) × IsAccepted calls o d r left
Step-IsAccepted calls o r c d bytes a (remove _ name early there payload new) = (
  bytes,
  record {
    classified = a.classified;
    receipts = a.receipts;
    names = check_removed-append o.files [] c.removed name a.names payload refl new there;
    payload = rw early refl;
    unlinked = a.unlinked;
    synced = a.synced;
    promises = a.promises;
  },
)
Step-IsAccepted calls o r c d bytes a (sync_payload _ taken) = (
  bytes,
  record {
    classified = a.classified;
    receipts = a.receipts;
    names = a.names;
    payload = rw taken refl;
    unlinked =
        unlinked_not_synced c.descriptor_unlinked c.payload_synced (without_descriptor r)
          a.unlinked;
    synced = a.synced;
    promises = a.promises;
  },
)
Step-IsAccepted calls o r c d bytes a (unlink_descriptor _ there synced) = (
  bytes,
  record {
    classified = a.classified;
    receipts = a.receipts;
    names = a.names;
    payload = a.payload;
    unlinked = rw (synced, there) refl;
    synced = ground arith;
    promises = a.promises;
  },
)
Step-IsAccepted calls o r c d bytes a (sync_descriptor _ unlinked) = (
  0,
  record {
    classified = a.classified;
    receipts = a.receipts;
    names = a.names;
    payload = a.payload;
    unlinked = a.unlinked;
    synced = rw unlinked refl;
    promises = nothing (without_descriptor r);
  },
)
  where
    nothing : (t : Bool) → ◌≡◌ {A = Result ℕ} (if t || true then ok 0 else promised calls o) (ok 0)
    nothing true = refl
    nothing false = refl

-- Each step in the order that Cleanup prescribes, from a state that it accepts, leads to a state that it
-- accepts.
pub cleanup-Step :
    (calls : StageCalls) (o : Observation) (c d : CleanupState) (r : StageResult)
    (out : CleanupResult)
    → cleanup calls o c ≡ ok out
    → classify_stage calls o none ≡ ok r
    → Step o (without_descriptor r) c d
    → (next : CleanupResult) × (cleanup calls o d ≡ ok next)
cleanup-Step calls o c d r out h classified step =
    let (s, bytes, a, _) = cleanup-IsAccepted calls o c out h in
    let b = subst (λ x. IsAccepted calls o c x bytes) (same s (sym a.classified ∙ classified)) a in
    let (left, accepted) = Step-IsAccepted calls o r c d bytes b step in
    (result_of o d r left, IsAccepted-cleanup calls o d r left accepted)
  where
    same : (s : StageResult) → ◌≡◌ {A = Result StageResult} (ok s) (ok r) → s ≡ r
    same s e = cc
