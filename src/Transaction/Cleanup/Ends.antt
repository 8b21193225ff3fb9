-- ===== src/Transaction/Cleanup/Ends.antt =====
-- A cleanup can always be brought to its end, in the order that internal/transaction/stage.go prescribes.
use corvint_tasks.Base.{
  ℕ, ◌≡◌, refl, ◌∙◌, Bool, true, false, ◌&&◌, ◌||◌, none, List, [], ◌∷◌, ◌++◌, all, any, All,
  Bool-cases, inl, inr, and_split, or_split,
}
use corvint_tasks.Text.{Text, text_eq, text_eq_refl}
use corvint_tasks.Wire.Code.{ok}
use corvint_tasks.Transaction.Stage.{
  StageCalls, Observation, StageFile, StageResult, active_name, has_file, classify_stage,
}
use corvint_tasks.Transaction.Cleanup.{CleanupState, CleanupResult, model_ready, is_taken, cleanup}
use corvint_tasks.Transaction.Cleanup.Accepted.{
  IsAccepted, result_of, cleanup-IsAccepted, IsAccepted-cleanup, without_descriptor,
}
use corvint_tasks.Transaction.Cleanup.Steps.{
  remove, sync_payload, unlink_descriptor, sync_descriptor, Steps, no_step, one_more,
  Step-IsAccepted, or_right,
}

Steps-IsAccepted :
    (calls : StageCalls) (o : Observation) (r : StageResult) (c d : CleanupState) (bytes : ℕ)
    → IsAccepted calls o c r bytes
    → Steps o (without_descriptor r) c d
    → (left : ℕ) × IsAccepted calls o d r left
Steps-IsAccepted calls o r c d bytes a (no_step _) = (bytes, a)
Steps-IsAccepted calls o r c d bytes a (one_more _ b _ before last) =
    let (more, accepted) = Steps-IsAccepted calls o r c b bytes a before in
    Step-IsAccepted calls o r b d more accepted last

-- A cleanup state that takes more.
any_append :
    (n : Text) (ns : List Text) (m : Text)
    → any (text_eq n) ns ≡ true
    → any (text_eq n) (ns ++ m ∷ []) ≡ true
any_append n [] m h = cc
any_append n (k ∷ ns) m h = elim (or_split (text_eq n k) (any (text_eq n) ns) h) [
  | inl here ↦ rw here refl
  | inr later ↦ or_right (text_eq n k) (any_append n ns m later)
]

any_append_self : (n : Text) (ns : List Text) → any (text_eq n) (ns ++ n ∷ []) ≡ true
any_append_self n [] = rw (text_eq_refl n) refl
any_append_self n (k ∷ ns) = or_right (text_eq n k) (any_append_self n ns)

abbrev taking : CleanupState → Text → CleanupState
taking c n = record c { removed = c.removed ++ n ∷ [] }

all-taking :
    (c : CleanupState) (n : Text) (fs : List StageFile)
    → all (is_taken c) fs ≡ true
    → all (is_taken (taking c n)) fs ≡ true
all-taking c n [] h = refl
all-taking c n (f ∷ fs) h =
    let (here, rest) = and_split (is_taken c f) (all (is_taken c) fs) h in
    rw (all-taking c n fs rest) (and_true (keeps here))
  where
    keeps : is_taken c f ≡ true → is_taken (taking c n) f ≡ true
    keeps t = elim (or_split (text_eq f.name active_name) (any (text_eq f.name) c.removed) t) [
      | inl active ↦ rw active refl
      | inr removed ↦ or_right (text_eq f.name active_name) (any_append f.name c.removed n removed)
    ]

    and_true : is_taken (taking c n) f ≡ true → is_taken (taking c n) f && true ≡ true
    and_true t = rw t refl

All-mono :
    {P Q : StageFile → Type 0} (fs : List StageFile)
    → ((f : StageFile) → P f → Q f)
    → All P fs
    → All Q fs
All-mono [] k h = tt
All-mono (f ∷ fs) k (here, rest) = (k f here, All-mono fs k rest)

has_own_files : (fs : List StageFile) → All (λ f. has_file f.name fs ≡ true) fs
has_own_files [] = tt
has_own_files (f ∷ fs) = (
  rw (text_eq_refl f.name) refl,
  All-mono fs (λ g there. or_right (text_eq f.name g.name) there) (has_own_files fs),
)

-- Steps that take all of some files, and change nothing else.
record Drained (o : Observation) (temp_only : Bool) (c : CleanupState) (fs : List StageFile)
    : Type 0 where
  state : CleanupState
  steps : Steps o temp_only c state
  taken : all (is_taken state) fs ≡ true
  payload : state.payload_synced ≡ c.payload_synced

drain :
    (o : Observation) (temp_only : Bool) (c : CleanupState) (fs : List StageFile)
    → c.payload_synced ≡ false
    → All (λ f. has_file f.name o.files ≡ true) fs
    → Drained o temp_only c fs
drain o temp_only c [] early own = record {
  state = c;
  steps = no_step c;
  taken = refl;
  payload = refl;
}
drain o temp_only c (f ∷ fs) early (own, rest) =
    let d = drain o temp_only c fs early rest in
    elim (Bool-cases (is_taken d.state f)) [
      | inl there ↦ record {
        state = d.state;
        steps = d.steps;
        taken = rw (there, d.taken) refl;
        payload = d.payload;
      }
      | inr left ↦
          let (inactive, present) =
            both_false (text_eq f.name active_name) (any (text_eq f.name) d.state.removed) left in
          record {
            state = taking d.state f.name;
            steps =
                one_more c d.state (taking d.state f.name) d.steps
                  (remove d.state f.name (d.payload ∙ early) own inactive present);
            taken = rw (all-taking d.state f.name fs d.taken) (
                and_true
                  (or_right (text_eq f.name active_name) (any_append_self f.name d.state.removed)));
            payload = d.payload;
          }
    ]
  where
    both_false : (a b : Bool) → a || b ≡ false → (a ≡ false) × (b ≡ false)
    both_false true b e = cc
    both_false false b e = (refl, e)

    and_true : {b : Bool} → b ≡ true → b && true ≡ true
    and_true t = rw t refl

-- Steps to a state in which the payload is synced.
payload-Steps :
    (o : Observation) (temp_only : Bool) (c : CleanupState)
    → (d : CleanupState) × Steps o temp_only c d × (d.payload_synced ≡ true)
payload-Steps o temp_only c = elim (Bool-cases c.payload_synced) [
  | inl synced ↦ (c, no_step c, synced)
  | inr early ↦
      let d = drain o temp_only c o.files early (has_own_files o.files) in
      (
        record d.state { payload_synced = true },
        one_more c d.state (record d.state { payload_synced = true }) d.steps
            (sync_payload d.state d.taken),
        refl,
      )
]

-- Steps to a state in which the staging area is free.
free-Steps :
    (o : Observation) (temp_only : Bool) (c : CleanupState)
    → (d : CleanupState) × Steps o temp_only c d
      × ((temp_only && d.payload_synced) || d.descriptor_synced ≡ true)
free-Steps o true c = let (d, steps, synced) = payload-Steps o true c in (d, steps, rw synced refl)
free-Steps o false c =
    let (d, steps, synced) = payload-Steps o false c in
    let e = record d { descriptor_unlinked = true } in
    let f = record e { descriptor_synced = true } in
    (
      f,
      one_more c e f (one_more c d e steps (unlink_descriptor d refl synced))
          (sync_descriptor e refl),
      refl,
    )

-- From every state that Cleanup accepts, steps in the order that it prescribes lead to a state that it
-- accepts too and in which it gives the staging area free for a fresh descriptor.
pub cleanup_can_end :
    (calls : StageCalls) (o : Observation) (c : CleanupState) (out : CleanupResult)
    → cleanup calls o c ≡ ok out
    → (r : StageResult) × (d : CleanupState) × (final : CleanupResult) × (classify_stage calls o
          none
        ≡ ok r)
      × Steps o (without_descriptor r) c d
      × (cleanup calls o d ≡ ok final)
      × (final.fresh_descriptor ≡ model_ready)
cleanup_can_end calls o c out h =
    let (r, bytes, a, _) = cleanup-IsAccepted calls o c out h in
    let (d, steps, free) = free-Steps o (without_descriptor r) c in
    let (left, accepted) = Steps-IsAccepted calls o r c d bytes a steps in
    (
      r,
      d,
      result_of o d r left,
      a.classified,
      steps,
      IsAccepted-cleanup calls o d r left accepted,
      rw free refl,
    )
