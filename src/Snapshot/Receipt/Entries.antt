-- ===== src/Snapshot/Receipt/Entries.antt =====
-- What DecodeReceipt of internal/snapshot/head.go makes sure of.
use corvint_tasks.Base.{
  ℕ, ◌≤◌, ◌≡◌, refl, Bool, true, false, not, ◌&&◌, ◌||◌, Option, none, some, List, [], ◌∷◌, arith,
  ltb, ◌==◌, length, is_some, All, not_ltb→le, ==_iff, if◌then◌else◌,
}
use corvint_tasks.Text.{Text, txt, text_eq, text_ltb, text_eq→eq, text_ltb_trans}
use corvint_tasks.Wire.Code.{
  Result, ok, malformed, limit_exceeded, journal_forked, unsupported, require, refuse_if, ◌>>◌,
  >>=-eq-ok, unit_step, require-passed, refuse_if-passed,
}
use corvint_tasks.Wire.Primitives.{Digest}
use corvint_tasks.Wire.Value.{Value, Members, obj}
use corvint_tasks.Wire.Encode.{encode_file}
use corvint_tasks.Snapshot.Places.{post_bound}
use corvint_tasks.Snapshot.Receipt.{
  PreEntry, PostEntry, Receipt, check_inline, is_no_deletion, check_state, check_pairs,
  check_attempt, validate_entries,
}
use corvint_tasks.Snapshot.Receipt.Decode.{
  check_receipt, with_release, read_receipt, decode_receipt,
}

-- A post and the pre image of the same index.
pub record IsPair (sum : Text → Digest) (kind : Text) (pre : PreEntry) (p : PostEntry)
    : Type 0 where
  pub same_path : pre.path ≡ p.path
  pub placed : (bound : ℕ) × (post_bound p.path ≡ ok bound)
  pub deletion :
      p.sha256 ≡ none
      → (kind ≡ txt "UNPAUSE")
        × (p.path ≡ txt "barrier.json")
        × (is_some pre.sha256 ≡ true)
        × (is_some p.inline ≡ false)
  pub digest :
      (sha : Digest) (v : Value)
      → p.sha256 ≡ some sha
      → p.inline ≡ some v
      → sum (encode_file v) ≡ sha

-- The pairs, their paths strictly ascending.
abbrev pub ArePairs : (Text → Digest) → Text → List PreEntry → List PostEntry → Type 0
ArePairs sum kind [] [] = Unit
ArePairs sum kind [] (p ∷ posts) = ⊥
ArePairs sum kind (pre ∷ pres) [] = ⊥
ArePairs sum kind (pre ∷ pres) (p ∷ posts) =
    IsPair sum kind pre p
    × All (λ q. text_ltb p.path q.path ≡ true) posts
    × ArePairs sum kind pres posts

pub record IsReceipt (sum : Text → Digest) (rc : Receipt) : Type 0 where
  pub started : 1 ≤ rc.seq
  pub chained : (rc.seq == 1) ≡ not (is_some rc.prev)
  pub genesis : (rc.seq == 1) ≡ text_eq rc.kind (txt "INIT")
  pub pairs : ArePairs sum rc.kind rc.pre rc.post

-- A conjunction of refusals that did not come about.
or_passed : (a b : Bool) → (a || b) ≡ false → (a ≡ false) × (b ≡ false)
or_passed false b h = (refl, h)
or_passed true b h = cc

not_passed : (b : Bool) → not b ≡ false → b ≡ true
not_passed true h = refl
not_passed false h = cc

check_state-deletion :
    (kind : Text) (pre : PreEntry) (p : PostEntry)
    → is_no_deletion kind pre p ≡ false
    → (kind ≡ txt "UNPAUSE")
      × (p.path ≡ txt "barrier.json")
      × (is_some pre.sha256 ≡ true)
      × (is_some p.inline ≡ false)
check_state-deletion kind pre p h =
    let (inline, h1) = or_passed (is_some p.inline) _ h in
    let (_, h2) = or_passed (is_some p.blob_sha256) _ h1 in
    let (unpause, h3) = or_passed (not (text_eq kind (txt "UNPAUSE"))) _ h2 in
    let (barrier, held) = or_passed (not (text_eq p.path (txt "barrier.json"))) _ h3 in
    (
      text_eq→eq kind _ (not_passed _ unpause),
      text_eq→eq p.path _ (not_passed _ barrier),
      not_passed _ held,
      inline,
    )

check_inline-digest :
    (sum : Text → Digest) (bound : ℕ) (path : Text) (sha : Digest) (v : Value)
    → check_inline sum bound path sha (some v) ≡ ok tt
    → sum (encode_file v) ≡ sha
unfolding check_inline
check_inline-digest sum bound path sha v h =
    let (_, h1) = unit_step (refuse_if (ltb bound (length (encode_file v))) limit_exceeded) _ h in
    let (same, _) = unit_step (require (text_eq (sum (encode_file v)) sha) journal_forked) _ h1 in
    text_eq→eq _ sha (require-passed _ journal_forked same)

state-IsPair :
    (sum : Text → Digest) (kind : Text) (bound : ℕ) (pre : PreEntry) (p : PostEntry)
    → post_bound p.path ≡ ok bound
    → pre.path ≡ p.path
    → check_state sum kind bound pre p ≡ ok tt
    → IsPair sum kind pre p
unfolding check_state
state-IsPair sum kind bound pre p placed same h = record {
  same_path = same;
  placed = (bound, placed);
  deletion = λ gone. check_state-deletion kind pre p (refuse_if-passed _ malformed (rw gone at h));
  digest = λ sha v there inline.
      let h1 = rw there at h in
      let (checked, _) = unit_step (check_inline sum bound p.path sha p.inline) _ h1 in
      check_inline-digest sum bound p.path sha v (rw inline at checked);
}

-- Is the path not behind the one before?
abbrev is_unsorted : Option Text → Text → Bool
is_unsorted none path = false
is_unsorted (some q) path = not (text_ltb q path)

-- One turn of the loop over the pairs.
turn-IsPair :
    (sum : Text → Digest) (kind : Text) (before : Option Text) (pre : PreEntry)
    (pres : List PreEntry) (p : PostEntry) (posts : List PostEntry)
    → check_pairs sum kind before (pre ∷ pres) (p ∷ posts) ≡ ok tt
    → IsPair sum kind pre p
      × (is_unsorted before p.path ≡ false)
      × (check_pairs sum kind (some p.path) pres posts ≡ ok tt)
unfolding check_pairs
turn-IsPair sum kind before pre pres p posts h =
    let (bound, placed, h1) = >>=-eq-ok (post_bound p.path) _ h in
    let (same, h2) = unit_step (require (text_eq pre.path p.path) malformed) _ h1 in
    let (sorted, h3) =
      unit_step
        (refuse_if (elim before [ none ↦ false | some q ↦ not (text_ltb q p.path) ]) malformed) _
        h2 in
    let (state, rest) = unit_step (check_state sum kind bound pre p) _ h3 in
    (
      state-IsPair sum kind bound pre p placed
          (text_eq→eq pre.path p.path (require-passed _ malformed same)) state,
      unsorted before (refuse_if-passed _ malformed sorted),
      rest,
    )
  where
    unsorted :
        (before : Option Text)
        → elim before as (λ _. Bool) [ none ↦ false | some q ↦ not (text_ltb q p.path) ] ≡ false
        → is_unsorted before p.path ≡ false
    unsorted none e = e
    unsorted (some q) e = e

above-All :
    (q r : Text) (posts : List PostEntry)
    → text_ltb q r ≡ true
    → All (λ p. text_ltb r p.path ≡ true) posts
    → All (λ p. text_ltb q p.path ≡ true) posts
above-All q r [] h all = tt
above-All q r (p ∷ posts) h (here, all) =
    (text_ltb_trans q r p.path h here, above-All q r posts h all)

behind :
    (sum : Text → Digest) (kind q : Text) (pres : List PreEntry) (posts : List PostEntry)
    → check_pairs sum kind (some q) pres posts ≡ ok tt
    → length pres ≡ length posts
    → All (λ p. text_ltb q p.path ≡ true) posts × ArePairs sum kind pres posts
unfolding check_pairs
behind sum kind q [] [] h n = (tt, tt)
behind sum kind q [] (p ∷ posts) h n = absurd (omega arith)
behind sum kind q (pre ∷ pres) [] h n = absurd (omega arith)
behind sum kind q (pre ∷ pres) (p ∷ posts) h n =
    let (pair, sorted, more) = turn-IsPair sum kind (some q) pre pres p posts h in
    let (above, pairs) = behind sum kind p.path pres posts more (omega (arith, n)) in
    let below = not_passed _ sorted in
    ((below, above-All q p.path posts below above), (pair, above, pairs))

check_pairs-ArePairs :
    (sum : Text → Digest) (kind : Text) (pres : List PreEntry) (posts : List PostEntry)
    → check_pairs sum kind none pres posts ≡ ok tt
    → length pres ≡ length posts
    → ArePairs sum kind pres posts
check_pairs-ArePairs sum kind [] [] h n = tt
check_pairs-ArePairs sum kind [] (p ∷ posts) h n = absurd (omega arith)
check_pairs-ArePairs sum kind (pre ∷ pres) [] h n = absurd (omega arith)
check_pairs-ArePairs sum kind (pre ∷ pres) (p ∷ posts) h n =
    let (pair, _, more) = turn-IsPair sum kind none pre pres p posts h in
    let (above, pairs) = behind sum kind p.path pres posts more (omega (arith, n)) in
    (pair, above, pairs)

genesis_of :
    (first init zero : Bool)
    → (first && (not init || not zero)) ≡ false
    → (not first && init) ≡ false
    → first ≡ init
genesis_of true true zero a b = refl
genesis_of true false zero a b = cc
genesis_of false true zero a b = cc
genesis_of false false zero a b = refl

chained_of : (first prev : Bool) → (if first then not prev else prev) ≡ true → first ≡ not prev
chained_of true true h = cc
chained_of true false h = refl
chained_of false true h = refl
chained_of false false h = cc

check_receipt-IsReceipt :
    (sum : Text → Digest) (rc : Receipt) → check_receipt sum rc ≡ ok tt → IsReceipt sum rc
unfolding check_receipt validate_entries
check_receipt-IsReceipt sum rc h =
    let (started, h1) = unit_step (refuse_if (ltb rc.seq 1) malformed) _ h in
    let (chained, h2) =
      unit_step (require (if rc.seq == 1 then not (is_some rc.prev) else is_some rc.prev) malformed)
        _ h1 in
    let (first, h3) =
      unit_step
        (refuse_if
          (rc.seq == 1 && (not (text_eq rc.kind (txt "INIT")) || not (rc.head_generation == 0)))
          malformed)
        _ h2 in
    let (later, h4) =
      unit_step (refuse_if (not (rc.seq == 1) && text_eq rc.kind (txt "INIT")) malformed) _ h3 in
    let (_, h5) = unit_step (refuse_if (text_eq rc.kind (txt "PRUNE")) unsupported) _ h4 in
    let (_, h6) = unit_step (check_attempt rc.attempt_id) _ h5 in
    let (paired, pairs) = unit_step (require (length rc.pre == length rc.post) malformed) _ h6 in
    record {
      started = not_ltb→le rc.seq 1 (refuse_if-passed _ malformed started);
      chained = chained_of _ _ (require-passed _ malformed chained);
      genesis =
          genesis_of _ _ (rc.head_generation == 0) (refuse_if-passed _ malformed first)
            (refuse_if-passed _ malformed later);
      pairs =
          check_pairs-ArePairs sum rc.kind rc.pre rc.post pairs
            ((==_iff (length rc.pre) (length rc.post)).0 (require-passed _ malformed paired));
    }

-- A receipt that DecodeReceipt accepts: it has a sequence number, which is 1 exactly when no receipt comes
-- before it and exactly when its kind is INIT. Its pre and post images are paired by their paths,
-- which ascend strictly and which PostBound admits; what stands inline has the digest of its post; only
-- UNPAUSE deletes, and only a barrier that was there.
pub decode_receipt-IsReceipt :
    (sum : Text → Digest) (ms : Members) (rc : Receipt)
    → decode_receipt sum ms ≡ ok rc
    → IsReceipt sum rc
unfolding decode_receipt
decode_receipt-IsReceipt sum ms rc h =
    let (read, _, h1) =
      >>=-eq-ok (read_receipt (obj (with_release ms))) (λ x. check_receipt sum x >> ok x) h in
    let (checked, last) = unit_step (check_receipt sum read) _ h1 in
    rw (same rc read last) (check_receipt-IsReceipt sum read checked)
  where
    same : (x y : Receipt) → ◌≡◌ {A = Result Receipt} (ok y) (ok x) → x ≡ y
    same x y e = cc
