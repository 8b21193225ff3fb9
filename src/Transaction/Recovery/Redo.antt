-- ===== src/Transaction/Recovery/Redo.antt =====
-- What validateRedoInventory of internal/transaction/recovery.go makes sure of.
use corvint_tasks.Base.{
  ◌==◌, length, ◌≡◌, refl, Bool, true, false, ◌&&◌, ◌||◌, Option, none, some, List, [], ◌∷◌, ◌++◌,
  all, any, is_some, if◌then◌else◌, All, In, ◌⊎◌, inl, inr, sym, ap, ◌∙◌, not, and_split, or_split,
  Bool-cases, Option-cases, ==_iff,
}
use mathlib.Core.Path.{subst}
use corvint_tasks.Text.{Text, txt, text_eq, text_eq→eq, text_eq_refl}
use corvint_tasks.Wire.Code.{
  Result, ok, err, malformed, require, refuse_if, ◌>>◌, journal_forked, >>=-eq-ok, unit_step,
  require-passed,
}
use corvint_tasks.Wire.Primitives.{Digest, parse_digest}
use corvint_tasks.Snapshot.Paths.{receipt_name, or_empty}
use corvint_tasks.Transaction.Recovery.{
  Change, Receipt, RedoCalls, Deletion, delete_eligible, delete_redo, current_digest, is_base,
  check_change, check_changes, is_applied, check_head, allowed_paths, validate_redo,
}
use corvint_tasks.Archive.Manifest.{FileEntry}
use corvint_tasks.Transaction.Inventory.{
  Inventory, FrozenPlan, find_entry, matches, holds_entry, entry_eq,
}

-- A file of these bytes stands at a path.
abbrev pub HoldsBytes : (Text → Digest) → List FileEntry → Text → Text → Type 0
HoldsBytes sum files path raw =
    (f : FileEntry) × (find_entry path files ≡ some f)
    × (f.sha256 ≡ sum raw)
    × (f.bytes ≡ length raw)

-- A path is as it was in the base: there is no file, and the receipt tells of none; or it is the
-- file of the base, with the digest that the receipt tells of.
abbrev pub IsUntouched : (base files : List FileEntry) → Change → Type 0
IsUntouched base files c =
    ((c.pre ≡ none) × (find_entry c.path files ≡ none))
    ⊎ ((f : FileEntry) × (find_entry c.path files ≡ some f)
        × (find_entry c.path base ≡ some f)
        × (c.pre ≡ some f.sha256))

-- A change is carried out: the file is gone, or it holds the bytes of the plan.
abbrev pub IsDone : (Text → Digest) → (Text → Text) → List FileEntry → Change → Type 0
IsDone sum posts files c = elim c.post [
  | none ↦ find_entry c.path files ≡ none
  | some _ ↦ HoldsBytes sum files c.path (posts c.path)
]

-- A file that is to be deleted is still there, with the digest that the receipt tells of.
abbrev pub IsKept : List FileEntry → Change → Type 0
IsKept files c = (f : FileEntry) × (find_entry c.path files ≡ some f) × (c.pre ≡ some f.sha256)

-- A path of the receipt is in its state after the change or before it.
abbrev pub IsSettled : (Text → Digest) → FrozenPlan → Inventory → Change → Type 0
IsSettled sum p i c =
    IsDone sum p.posts i.files c
    ⊎ (elim c.post [ none ↦ IsKept i.files c | some _ ↦ IsUntouched p.base.files i.files c ])

-- The inventory of a transaction that was cut off after its receipt was written.
pub record IsCutOff (calls : RedoCalls) (p : FrozenPlan) (i : Inventory) (rc : Receipt)
    : Type 0 where
  pub decoded : calls.decode_receipt p.receipt ≡ ok rc
  pub pending :
      HoldsBytes calls.sum i.files (txt "receipts/" ++ or_empty (receipt_name rc.seq)) p.receipt
  pub frame :
      (path : Text)
      → any (text_eq path) (allowed_paths p rc) ≡ false
      → find_entry path i.files ≡ find_entry path p.base.files
  pub settled : All (IsSettled calls.sum p i) rc.changes
  pub ordered :
      HoldsBytes calls.sum i.files (txt "head.json") p.head
      → All (IsDone calls.sum p.posts i.files) rc.changes

-- What the tests on entries say.
find_entry-In :
    (path : Text) (fs : List FileEntry) (f : FileEntry)
    → find_entry path fs ≡ some f
    → In f fs × (f.path ≡ path)
unfolding find_entry
find_entry-In path [] f h = cc
find_entry-In path (g ∷ gs) f h = elim (Bool-cases (text_eq g.path path)) [
  | inl here ↦
      let same = some_injective g f (rw here at h) in
      (inl (sym same), subst (λ x. x.path ≡ path) same (text_eq→eq g.path path here))
  | inr later ↦ let (there, at) = find_entry-In path gs f (rw later at h) in (inr there, at)
]
  where
    some_injective : (x y : FileEntry) → ◌≡◌ {A = Option FileEntry} (some x) (some y) → x ≡ y
    some_injective x y e = cc

all-In : {A : Type 0} (p : A → Bool) (xs : List A) (x : A) → all p xs ≡ true → In x xs → p x ≡ true
all-In p [] x h m = absurd m
all-In p (y ∷ ys) x h m =
    let (here, rest) = and_split (p y) (all p ys) h in
    elim m [ inl e ↦ subst (λ z. p z ≡ true) (sym e) here | inr later ↦ all-In p ys x rest later ]

entry_eq→eq : (f g : FileEntry) → entry_eq f g ≡ true → f ≡ g
unfolding entry_eq
entry_eq→eq f g h =
    let (path, h1) = and_split (text_eq f.path g.path) _ h in
    let (bytes, sha) = and_split (f.bytes == g.bytes) (text_eq f.sha256 g.sha256) h1 in
    same f g (text_eq→eq f.path g.path path) ((==_iff f.bytes g.bytes).0 bytes)
      (text_eq→eq f.sha256 g.sha256 sha)
  where
    same : (f g : FileEntry) → f.path ≡ g.path → f.bytes ≡ g.bytes → f.sha256 ≡ g.sha256 → f ≡ g
    same f g p b s = cc

holds_entry→found :
    (fs : List FileEntry) (path : Text) (f : FileEntry)
    → holds_entry fs path f ≡ true
    → find_entry path fs ≡ some f
unfolding holds_entry
holds_entry→found fs path f h = elim (Option-cases (find_entry path fs)) [
  | inl missing ↦ absurd (no_entry (rw (missing, holds_entry) at h))
  | inr (g, there) ↦ there ∙ ap (λ x. some x) (entry_eq→eq g f (rw (there, holds_entry) at h))
]
  where
    no_entry : false ≡ true → ⊥
    no_entry e = cc

matches→HoldsBytes :
    (sum : Text → Digest) (i : Inventory) (path raw : Text)
    → matches sum i path raw ≡ true
    → HoldsBytes sum i.files path raw
unfolding matches
matches→HoldsBytes sum i path raw h = elim (Option-cases (find_entry path i.files)) [
  | inl missing ↦ absurd (no_entry (rw (missing, matches) at h))
  | inr (f, there) ↦
      let (sha, size) = and_split (text_eq f.sha256 (sum raw)) _ (rw (there, matches) at h) in
      (f, there, text_eq→eq f.sha256 (sum raw) sha, (==_iff f.bytes (length raw)).0 size)
]
  where
    no_entry : false ≡ true → ⊥
    no_entry e = cc

HoldsBytes→matches :
    (sum : Text → Digest) (i : Inventory) (path raw : Text)
    → HoldsBytes sum i.files path raw
    → matches sum i path raw ≡ true
unfolding matches
HoldsBytes→matches sum i path raw (f, there, sha, size) =
    rw (there, matches, sha, text_eq_refl (sum raw), (==_iff f.bytes (length raw)).1 size) refl

is_base-IsUntouched :
    (p : FrozenPlan) (i : Inventory) (c : Change)
    → is_base p i c ≡ true
    → IsUntouched p.base.files i.files c
unfolding is_base
is_base-IsUntouched p i c h = elim (Option-cases c.pre) [
  | inl fresh ↦ elim (Option-cases (find_entry c.path i.files)) [
    | inl missing ↦ inl (fresh, missing)
    | inr (f, there) ↦ absurd (no_base (rw (fresh, there, is_base) at h))
  ]
  | inr (pre, old) ↦ elim (Option-cases (find_entry c.path i.files)) [
    | inl missing ↦ absurd (no_base (rw (old, missing, is_base) at h))
    | inr (f, there) ↦
        let (sha, held) =
          and_split (text_eq pre f.sha256) (holds_entry p.base.files c.path f)
            (rw (old, there, is_base) at h) in
        inr (
          f,
          there,
          holds_entry→found p.base.files c.path f held,
          old ∙ ap (λ x. some x) (text_eq→eq pre f.sha256 sha),
        )
  ]
]
  where
    no_base : false ≡ true → ⊥
    no_base e = cc

-- A deletion that is not refused: the file is gone, or it has the digest of the receipt.
gone_or_kept :
    (pre : Digest) (file : Option FileEntry)
    → ◌≡◌ {A = Result (Unit {0})} (delete_redo pre (current_digest file) >> ok tt) (ok tt)
    → (file ≡ none) ⊎ ((f : FileEntry) × (file ≡ some f) × (pre ≡ f.sha256))
unfolding delete_redo
gone_or_kept pre none h = inl refl
gone_or_kept pre (some f) h =
    let (verdict, deletes, _) = >>=-eq-ok (delete_redo pre (some f.sha256)) _ h in
    let (_, _, h1) = >>=-eq-ok (parse_digest pre) _ deletes in
    let (_, _, h2) = >>=-eq-ok (parse_digest f.sha256) _ h1 in
    inr (f, refl, sym (text_eq→eq f.sha256 pre (if_eq (text_eq f.sha256 pre) h2)))
  where
    if_eq :
        {verdict : Deletion} (b : Bool)
        → ◌≡◌ {A = Result Deletion}
            (if b then ok delete_eligible else err journal_forked)
            (ok verdict)
        → b ≡ true
    if_eq true e = refl
    if_eq false e = cc

change-IsSettled :
    (sum : Text → Digest) (p : FrozenPlan) (i : Inventory) (c : Change)
    → check_change sum p i c ≡ ok tt
    → IsSettled sum p i c
unfolding check_change
change-IsSettled sum p i c h = by_post c.post c.pre refl h
  where
    by_post :
        (post pre : Option Digest)
        → c.pre ≡ pre
        → ◌≡◌ {A = Result (Unit {0})}
            (elim post as (λ _. Result (Unit {0})) [
              | none ↦ elim pre as (λ _. Result (Unit {0})) [
                | none ↦ err malformed
                | some d ↦ delete_redo d (current_digest (find_entry c.path i.files)) >> ok tt
              ]
              | some _ ↦
                  require (matches sum i c.path (p.posts c.path) || is_base p i c) journal_forked
            ])
            (ok tt)
        → (elim post as (λ _. Type 0) [
          | none ↦ find_entry c.path i.files ≡ none
          | some _ ↦ HoldsBytes sum i.files c.path (p.posts c.path)
        ])
          ⊎ (elim post as (λ _. Type 0) [
            | none ↦ IsKept i.files c
            | some _ ↦ IsUntouched p.base.files i.files c
          ])
    by_post none none e h = cc
    by_post none (some d) e h = elim (gone_or_kept d (find_entry c.path i.files) h) [
      | inl gone ↦ inl gone
      | inr (f, there, sha) ↦ inr (f, there, e ∙ ap (λ x. some x) sha)
    ]
    by_post (some _) pre e h =
        elim (or_split (matches sum i c.path (p.posts c.path)) (is_base p i c)
          (require-passed _ journal_forked h)) [
            | inl new ↦ inl (matches→HoldsBytes sum i c.path (p.posts c.path) new)
            | inr old ↦ inr (is_base-IsUntouched p i c old)
          ]

changes-IsSettled :
    (sum : Text → Digest) (p : FrozenPlan) (i : Inventory) (cs : List Change)
    → check_changes sum p i cs ≡ ok tt
    → All (IsSettled sum p i) cs
unfolding check_changes
changes-IsSettled sum p i [] h = tt
changes-IsSettled sum p i (c ∷ more) h =
    let (now, later) = unit_step (check_change sum p i c) _ h in
    (change-IsSettled sum p i c now, changes-IsSettled sum p i more later)

applied-IsDone :
    (sum : Text → Digest) (p : FrozenPlan) (i : Inventory) (c : Change)
    → is_applied sum p i c ≡ true
    → IsDone sum p.posts i.files c
unfolding is_applied
applied-IsDone sum p i c h = by_post c.post h
  where
    gone : (o : Option FileEntry) → not (is_some o) ≡ true → o ≡ none
    gone none e = refl
    gone (some f) e = cc

    by_post :
        (post : Option Digest)
        → ◌≡◌ {A = Bool}
            (elim post as (λ _. Bool) [
              | none ↦ not (is_some (find_entry c.path i.files))
              | some _ ↦ matches sum i c.path (p.posts c.path)
            ])
            true
        → elim post as (λ _. Type 0) [
          | none ↦ find_entry c.path i.files ≡ none
          | some _ ↦ HoldsBytes sum i.files c.path (p.posts c.path)
        ]
    by_post none e = gone (find_entry c.path i.files) e
    by_post (some _) e = matches→HoldsBytes sum i c.path (p.posts c.path) e

all-IsDone :
    (sum : Text → Digest) (p : FrozenPlan) (i : Inventory) (cs : List Change)
    → all (is_applied sum p i) cs ≡ true
    → All (IsDone sum p.posts i.files) cs
all-IsDone sum p i [] h = tt
all-IsDone sum p i (c ∷ cs) h =
    let (here, rest) = and_split (is_applied sum p i c) _ h in
    (applied-IsDone sum p i c here, all-IsDone sum p i cs rest)

head-ordered :
    (sum : Text → Digest) (p : FrozenPlan) (i : Inventory) (cs : List Change)
    → check_head sum p i cs ≡ ok tt
    → matches sum i (txt "head.json") p.head ≡ true
    → all (is_applied sum p i) cs ≡ true
unfolding check_head matches
head-ordered sum p i cs h advanced =
    by_head (matches sum i (txt "head.json") p.head)
      (λ f. text_eq f.sha256 (sum p.head) && f.bytes == length p.head) (is_some p.base_head)
      (λ f. holds_entry p.base.files (txt "head.json") f) (all (is_applied sum p i) cs)
      (find_entry (txt "head.json") i.files) h advanced advanced
  where
    by_head :
        (advances : Bool) (new : FileEntry → Bool) (base : Bool) (old : FileEntry → Bool)
        (applied : Bool) (head : Option FileEntry)
        → ◌≡◌ {A = Result (Unit {0})}
            (elim head as (λ _. Result (Unit {0})) [
              | none ↦ refuse_if base malformed
              | some f ↦
                  if advances then require applied malformed else require (base && old f) malformed
            ])
            (ok tt)
        → advances ≡ true
        → elim head as (λ _. Bool) [ none ↦ false | some f ↦ new f ] ≡ true
        → applied ≡ true
    by_head advances new base old applied none e a n = cc
    by_head true new base old applied (some f) e a n = require-passed applied malformed e
    by_head false new base old applied (some f) e a n = cc

-- The two passes over the files of the base and of the store leave nothing else changed.
files-frame :
    (base files : List FileEntry) (allowed : List Text)
    → all (λ old. any (text_eq old.path) allowed || holds_entry files old.path old) base ≡ true
    → all (λ f. is_some (find_entry f.path base) || any (text_eq f.path) allowed) files ≡ true
    → (path : Text) → any (text_eq path) allowed ≡ false
    → find_entry path files ≡ find_entry path base
files-frame base files allowed retained foreseen path free =
    elim (Option-cases (find_entry path base)) [
      | inr (old, was) ↦
          let (there, at) = find_entry-In path base old was in
          let kept =
            all-In (λ g. any (text_eq g.path) allowed || holds_entry files g.path g) base old
              retained there in
          let moved : (any (text_eq path) allowed || holds_entry files path old) ≡ true =
            subst (λ q. (any (text_eq q) allowed || holds_entry files q old) ≡ true) at kept in
          holds_entry→found files path old (other _ _ free moved) ∙ sym was
      | inl never ↦ elim (Option-cases (find_entry path files)) [
        | inl missing ↦ missing ∙ sym never
        | inr (f, now) ↦
            let (there, at) = find_entry-In path files f now in
            let known =
              all-In (λ g. is_some (find_entry g.path base) || any (text_eq g.path) allowed) files f
                foreseen there in
            let moved : (is_some (find_entry path base) || any (text_eq path) allowed) ≡ true =
              subst (λ q. (is_some (find_entry q base) || any (text_eq q) allowed) ≡ true) at
                known in
            absurd (neither _ _ (ap is_some never) free moved)
      ]
    ]
  where
    other : (a b : Bool) → a ≡ false → (a || b) ≡ true → b ≡ true
    other a b e h = cc

    neither : (a b : Bool) → a ≡ false → b ≡ false → (a || b) ≡ true → ⊥
    neither a b e g h = cc

-- When validateRedoInventory accepts an inventory, the receipt of the plan is there, and at every
-- path that the transaction may not write, the inventory has what the base has: the same file, or
-- none. Each change of the receipt is carried out or its path is as before: a file that is to be
-- deleted is gone or has the digest of the pre image; another path holds the bytes of the plan,
-- or it is as the base and the pre image have it. When the new head is there, all the changes are
-- carried out.
pub validate_redo-IsCutOff :
    (calls : RedoCalls) (p : FrozenPlan) (i : Inventory)
    → validate_redo calls p i ≡ ok tt
    → (rc : Receipt) × IsCutOff calls p i rc
unfolding validate_redo
validate_redo-IsCutOff calls p i h =
    let (rc, decoded, h1) = >>=-eq-ok (calls.decode_receipt p.receipt) _ h in
    let (pending, h2) = unit_step (require _ malformed) _ h1 in
    let (retained, h3) = unit_step (require _ malformed) _ h2 in
    let (foreseen, h4) = unit_step (require _ malformed) _ h3 in
    let (_, h5) = unit_step (require _ malformed) _ h4 in
    let (_, h6) = unit_step (require _ malformed) _ h5 in
    let (settled, h7) = unit_step (check_changes calls.sum p i rc.changes) _ h6 in
    (
      rc,
      record {
        decoded = decoded;
        pending = matches→HoldsBytes calls.sum i _ p.receipt (require-passed _ malformed pending);
        frame =
            files-frame p.base.files i.files (allowed_paths p rc)
              (require-passed _ malformed retained) (require-passed _ malformed foreseen);
        settled = changes-IsSettled calls.sum p i rc.changes settled;
        ordered = λ stands. all-IsDone calls.sum p i rc.changes (
            head-ordered calls.sum p i rc.changes h7
              (HoldsBytes→matches calls.sum i (txt "head.json") p.head stands));
      },
    )
