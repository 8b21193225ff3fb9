-- ===== src/Transaction/Stage/Prepared.antt =====
-- When ClassifyStage of internal/transaction/stage.go finds a plan fully prepared.
use corvint_tasks.Base.{
  ℕ, ◌+◌, ◌≡◌, refl, ap, ◌∙◌, Bool, true, false, not, ◌&&◌, some, List, [], ◌∷◌, all, arith, All,
  ltb, if◌then◌else◌, Bool-cases, Option-cases, inl, inr, and_split, length, ◌⊎◌, ◌≤◌, In, any,
  or_split, not_ltb→le, ==_iff,
}
use corvint_tasks.Text.{Text, txt, text_eq, text_eq→eq}
use corvint_tasks.Wire.Code.{
  Result, ok, err, malformed, limit_exceeded, journal_forked, require, refuse_if, >>=-eq-ok,
  unit_step, require-passed, refuse_if-passed,
}
use corvint_tasks.Wire.Primitives.{Digest}
use corvint_tasks.Snapshot.Stage.{Descriptor, Description}
use corvint_tasks.Transaction.Stage.{
  StageCalls, Observation, StageFile, StageResult, Plan, Kind, full_plan_prepared,
  preparation_pending, redo_pending, completed_cleanup, check_pending, active_name, temp_name,
  complete_no_next, find_file, check_artifact, check_artifacts, is_assigned, check_current,
  check_frozen, check_temp, classify_receipt, classify_active, classify_temp, classify_files,
  classify_stage, admit_files,
}

-- The file in the slot of an artifact is there, as long and with the digest that the descriptor says.
abbrev pub IsInPlace : (Text → Digest) → List StageFile → Description → Type 0
IsInPlace sum fs a =
    (f : StageFile) × (find_file a.slot fs ≡ some f)
    × (length f.content ≡ a.bytes)
    × (sum f.content ≡ a.sha256)

-- The verdict on a file that is there.
verdict :
    (long short same : Bool)
    → (if long
        then err limit_exceeded
        else if short
        then ok false
        else if not same
        then err journal_forked
        else ok true)
      ≡ ok true
    → (long ≡ false) × (short ≡ false) × (same ≡ true)
verdict true short same h = cc
verdict false true same h = absurd (no_verdict h)
  where
    no_verdict : ◌≡◌ {A = Result Bool} (ok false) (ok true) → ⊥
    no_verdict e = cc
verdict false false false h = cc
verdict false false true h = (refl, refl, refl)

same_length : (m n : ℕ) → ltb m n ≡ false → ltb n m ≡ false → n ≡ m
same_length m n h k = ground arith

check_artifact-IsInPlace :
    (sum : Text → Digest) (fs : List StageFile) (a : Description)
    → check_artifact sum fs a ≡ ok true
    → IsInPlace sum fs a
unfolding check_artifact
check_artifact-IsInPlace sum fs a h = elim (Option-cases (find_file a.slot fs)) [
  | inl missing ↦ absurd (no_verdict (rw (missing, check_artifact) at h))
  | inr (f, there) ↦
      let (short, long, same) =
        verdict (ltb a.bytes (length f.content)) (ltb (length f.content) a.bytes)
          (text_eq (sum f.content) a.sha256) (rw (there, check_artifact) at h) in
      (
        f,
        there,
        same_length a.bytes (length f.content) short long,
        text_eq→eq (sum f.content) a.sha256 same,
      )
]
  where
    no_verdict : ◌≡◌ {A = Result Bool} (ok false) (ok true) → ⊥
    no_verdict e = cc

check_artifacts-IsInPlace :
    (sum : Text → Digest) (fs : List StageFile) (ds : List Description) (complete : Bool)
    → check_artifacts sum fs ds complete ≡ ok true
    → (complete ≡ true) × All (IsInPlace sum fs) ds
unfolding check_artifacts
check_artifacts-IsInPlace sum fs [] complete h = (cc, tt)
check_artifacts-IsInPlace sum fs (a ∷ more) complete h =
    let (here, one, h1) = >>=-eq-ok (check_artifact sum fs a) _ h in
    let (both, rest) = check_artifacts-IsInPlace sum fs more (complete && here) h1 in
    let (before, this) = and_split complete here both in
    (before, (check_artifact-IsInPlace sum fs a (rw this at one), rest))

-- The files that may be there: the descriptor, its temporary file, and the files of the artifacts.
abbrev pub IsAssigned : List Description → StageFile → Type 0
IsAssigned ds f =
    (f.name ≡ active_name)
    ⊎ ((f.name ≡ temp_name) ⊎ ((a : Description) × In a ds × (f.name ≡ a.slot)))

-- A temporary file of the descriptor is no longer than it, and is the same when it is as long.
abbrev pub IsPending : Text → StageFile → Type 0
IsPending active temp =
    (length temp.content ≤ length active)
    × (length temp.content ≡ length active → temp.content ≡ active)

slot_of :
    (name : Text) (ds : List Description)
    → any (λ a. text_eq name a.slot) ds ≡ true
    → (a : Description) × In a ds × (name ≡ a.slot)
slot_of name [] h = cc
slot_of name (a ∷ more) h = elim (or_split (text_eq name a.slot) _ h) [
  | inl here ↦ (a, inl refl, text_eq→eq name a.slot here)
  | inr later ↦ let (b, there, at) = slot_of name more later in (b, inr there, at)
]

is_assigned-IsAssigned :
    (ds : List Description) (f : StageFile) → is_assigned ds f ≡ true → IsAssigned ds f
unfolding is_assigned
is_assigned-IsAssigned ds f h = elim (or_split (text_eq f.name active_name) _ h) [
  | inl active ↦ inl (text_eq→eq f.name active_name active)
  | inr more ↦ elim (or_split (text_eq f.name temp_name) _ more) [
    | inl temp ↦ inr (inl (text_eq→eq f.name temp_name temp))
    | inr slot ↦ inr (inr (slot_of f.name ds slot))
  ]
]

all-IsAssigned :
    (ds : List Description) (fs : List StageFile)
    → all (is_assigned ds) fs ≡ true
    → All (IsAssigned ds) fs
all-IsAssigned ds [] h = tt
all-IsAssigned ds (f ∷ fs) h =
    let (here, rest) = and_split (is_assigned ds f) _ h in
    (is_assigned-IsAssigned ds f here, all-IsAssigned ds fs rest)

check_temp-IsPending :
    (active : Text) (fs : List StageFile) (temp : StageFile)
    → check_temp active fs ≡ ok tt
    → find_file temp_name fs ≡ some temp
    → IsPending active temp
unfolding check_temp
check_temp-IsPending active fs temp h there =
    let (short, h1) =
      unit_step (refuse_if (ltb (length active) (length temp.content)) limit_exceeded) _
        (rw (there, check_temp) at h) in
    let agrees = refuse_if-passed _ journal_forked h1 in
    (
      not_ltb→le (length active) (length temp.content) (refuse_if-passed _ limit_exceeded short),
      λ long.
          text_eq→eq temp.content active
            (both _ _ agrees ((==_iff (length temp.content) (length active)).1 long)),
    )
  where
    both : (a b : Bool) → (a && not b) ≡ false → a ≡ true → b ≡ true
    both a b e g = ground arith

-- What holds when the preparation of a plan is complete.
pub record IsPrepared (calls : StageCalls) (o : Observation) (p : Plan) : Type 0 where
  pub active : StageFile
  pub descriptor : Descriptor
  pub found : find_file active_name o.files ≡ some active
  pub decoded : calls.decode_descriptor active.content ≡ ok descriptor
  pub frozen : p.descriptor ≡ active.content
  pub in_place : All (IsInPlace calls.sum o.files) descriptor.artifacts
  pub assigned : All (IsAssigned descriptor.artifacts) o.files
  pub temporary :
      (temp : StageFile) → find_file temp_name o.files ≡ some temp → IsPending active.content temp
  pub not_linked : text_eq o.receipt_inventory complete_no_next ≡ true

-- The switch gives this kind only before a receipt, and of a complete preparation.
full_kind :
    (o : Observation) (p : Plan) (complete : Bool)
    → classify_receipt o (some p) complete ≡ ok full_plan_prepared
    → (complete ≡ true) × (text_eq o.receipt_inventory complete_no_next ≡ true)
unfolding classify_receipt
full_kind o p complete h = elim (Bool-cases (text_eq o.receipt_inventory complete_no_next)) [
  | inl first ↦ (all_of complete (rw first at h), first)
  | inr linked ↦ elim (Bool-cases (text_eq o.receipt_inventory (txt "MATCHING_NEXT"))) [
    | inl next ↦
        let (receipt, h1) =
          unit_step (require (text_eq o.linked_receipt p.receipt) malformed) _
            (rw (linked, next) at h) in
        let (head, h2) = unit_step (check_pending p.base_head o.current_head) _ h1 in
        let (posts, h3) =
          unit_step (require (text_eq o.projections (txt "PRE_OR_POST")) malformed) _ h2 in
        absurd (redo h3)
    | inr other ↦ elim (Bool-cases (text_eq o.receipt_inventory (txt "MATCHING_COMPLETED"))) [
      | inl done ↦
          let (receipt, h1) =
            unit_step (require (text_eq o.linked_receipt p.receipt) malformed) _
              (rw (linked, other, done) at h) in
          let (posts, h2) =
            unit_step
              (require (text_eq o.current_head p.head && text_eq o.projections (txt "POST"))
                malformed)
              _ h1 in
          absurd (completed h2)
      | inr unknown ↦ absurd (denied (rw (linked, other, unknown) at h))
    ]
  ]
]
  where
    all_of :
        (b : Bool)
        → ◌≡◌ {A = Result Kind}
            (ok (if b then full_plan_prepared else preparation_pending))
            (ok full_plan_prepared)
        → b ≡ true
    all_of true e = refl
    all_of false e = cc

    redo : ◌≡◌ {A = Result Kind} (ok redo_pending) (ok full_plan_prepared) → ⊥
    redo e = cc

    completed : ◌≡◌ {A = Result Kind} (ok completed_cleanup) (ok full_plan_prepared) → ⊥
    completed e = cc

    denied : ◌≡◌ {A = Result Kind} (err malformed) (ok full_plan_prepared) → ⊥
    denied e = cc

not_temp : (o : Observation) → classify_temp o ≡ ok full_plan_prepared → ⊥
unfolding classify_temp
not_temp o h =
    let (unlinked, h1) =
      unit_step (require (text_eq o.receipt_inventory complete_no_next) malformed) _ h in
    ground arith

active-IsPrepared :
    (calls : StageCalls) (o : Observation) (p : Plan) (active : StageFile)
    → find_file active_name o.files ≡ some active
    → classify_active calls o (some p) active ≡ ok full_plan_prepared
    → IsPrepared calls o p
unfolding classify_active check_frozen
active-IsPrepared calls o p active found h =
    let (d, decoded, h1) = >>=-eq-ok (calls.decode_descriptor active.content) _ h in
    let (current, h2) = unit_step (check_current calls o d) _ h1 in
    let (temp_ok, h3) = unit_step (check_temp active.content o.files) _ h2 in
    let (complete, artifacts, h4) =
      >>=-eq-ok (check_artifacts calls.sum o.files d.artifacts true) _ h3 in
    let (assigned, h5) =
      unit_step (require (all (is_assigned d.artifacts) o.files) malformed) _ h4 in
    let (frozen, h6) = unit_step (require (text_eq p.descriptor active.content) malformed) _ h5 in
    let (all_there, receipts) = full_kind o p complete h6 in
    record {
      active = active;
      descriptor = d;
      found = found;
      decoded = decoded;
      frozen = text_eq→eq p.descriptor active.content (require-passed _ malformed frozen);
      in_place =
          (check_artifacts-IsInPlace calls.sum o.files d.artifacts true
            (artifacts ∙ ap (λ b. ok b) all_there)).1;
      assigned = all-IsAssigned d.artifacts o.files (require-passed _ malformed assigned);
      temporary = λ temp there. check_temp-IsPending active.content o.files temp temp_ok there;
      not_linked = receipts;
    }

-- ClassifyStage finds a plan fully prepared only when the descriptor that is staged is the one of
-- the plan, the file of each of its artifacts is in its slot with the length and the digest that
-- the descriptor says, and no receipt is linked yet. Each file is the descriptor, its temporary
-- file or in the slot of an artifact. A temporary file that is left there is no longer than the
-- descriptor, and it is the same when it is as long.
pub classify_stage-IsPrepared :
    (calls : StageCalls) (o : Observation) (p : Plan) (r : StageResult)
    → classify_stage calls o (some p) ≡ ok r
    → r.kind ≡ full_plan_prepared
    → IsPrepared calls o p
unfolding classify_stage classify_files
classify_stage-IsPrepared calls o p r h full =
    let (premise, h1) = unit_step (require _ malformed) _ h in
    let (base, h2) = unit_step (calls.stage_base o (some p)) _ h1 in
    let (few, h3) = unit_step (refuse_if (ltb 13 (length o.files)) limit_exceeded) _ h2 in
    let (total, admitted, h4) = >>=-eq-ok (admit_files [] o.files 0) _ h3 in
    let (kind, found, h5) = >>=-eq-ok (classify_files calls o (some p)) _ h4 in
    of_files (found ∙ ap (λ k. ok k) (kind_of kind total (length o.files + 1) h5 ∙ full))
  where
    kind_of :
        (kind : Kind) (m n : ℕ)
        → ◌≡◌ {A = Result StageResult}
            (ok (record { kind = kind; temporary_bytes = m; entries = n }))
            (ok r)
        → kind ≡ r.kind
    kind_of kind m n e = cc

    of_files : classify_files calls o (some p) ≡ ok full_plan_prepared → IsPrepared calls o p
    of_files found = elim (Option-cases (find_file active_name o.files)) [
      | inl missing ↦ absurd (not_temp o (rw (missing, classify_files) at found))
      | inr (active, there) ↦
          active-IsPrepared calls o p active there (rw (there, classify_files) at found)
    ]
