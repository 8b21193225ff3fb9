-- ===== src/Snapshot/Shape/Bounds.antt =====
-- The artifacts of a descriptor that StageDescriptor.shape accepts: how many and how large they are, and that
-- no two write one target.
use corvint_tasks.Base.{
  ℕ, suc, ◌≤◌, ◌≡◌, refl, Bool, true, false, not, Option, none, some, List, [], ◌∷◌, ◌++◌, arith,
  All, ltb, if◌then◌else◌, length, any, not_ltb→le, leb, leb→le, is_some,
}
use corvint_tasks.Text.{Text, txt, text_eq, text_eq→eq}
use corvint_tasks.Wire.Code.{
  Code, Result, ok, err, malformed, limit_exceeded, require, refuse_if, >>=-eq-ok, unit_step,
  require-passed, refuse_if-passed,
}
use corvint_tasks.Wire.Primitives.{Digest}
use corvint_tasks.Wire.Ids.{parse_ticket_id}
use corvint_tasks.Wire.Primitives.{parse_label}
use corvint_tasks.Snapshot.Stage.{
  Description, Descriptor, slot_name, stage_limits, init_operation, unpause_receipt_bytes,
}
use corvint_tasks.Snapshot.Paths.{trim_prefix, trim_suffix, receipt_name, or_empty}
use corvint_tasks.Snapshot.Shape.{
  Slot, mib, slot_if, init_post, ticket_post, release_post, request_cap, post_slot, evidence_cap,
  artifact_slot, stands_behind, artifact_keys, receipt_seq, shape,
}

-- A slot of at most a MiB.
IsSmall : Result Slot → Type 0
IsSmall (err code) = Unit
IsSmall (ok (key, cap)) = cap ≤ 1048576

ok-IsSmall : (key : Text) (cap : ℕ) → cap ≤ 1048576 → IsSmall (ok (key, cap))
unfolding IsSmall
ok-IsSmall key cap le = le

test-IsSmall : (key : Text) (cap : ℕ) → leb cap 1048576 ≡ true → IsSmall (ok (key, cap))
test-IsSmall key cap le = ok-IsSmall key cap (leb→le cap 1048576 le)

err-IsSmall : (code : Code) → IsSmall (err code)
unfolding IsSmall
err-IsSmall code = tt

slot_if-IsSmall : (b : Bool) (key : Text) (cap : ℕ) → cap ≤ 1048576 → IsSmall (slot_if b (key, cap))
slot_if-IsSmall true key cap le = ok-IsSmall key cap le
slot_if-IsSmall false key cap le = err-IsSmall malformed

if-IsSmall : (b : Bool) (x y : Result Slot) → IsSmall x → IsSmall y → IsSmall (if b then x else y)
if-IsSmall true x y h k = h
if-IsSmall false x y h k = k

elim-IsSmall {ℓ} :
    {A : Type ℓ} (r : Result A) (next : A → Result Slot)
    → ((x : A) → IsSmall (next x))
    → IsSmall (elim r [ err code ↦ err malformed | ok x ↦ next x ])
elim-IsSmall (err code) next h = err-IsSmall malformed
elim-IsSmall (ok x) next h = h x

init_post-IsSmall : (a : Description) → IsSmall (init_post a)
unfolding init_post
init_post-IsSmall a = search (if-IsSmall, test-IsSmall, err-IsSmall) depth 12

ticket_post-IsSmall : (d : Descriptor) (a : Description) → IsSmall (ticket_post d a)
unfolding ticket_post
ticket_post-IsSmall d a =
    let local = trim_suffix (trim_prefix a.target (txt "intent/tickets/")) (txt ".json") in
    elim-IsSmall
      (parse_ticket_id
        (txt "ticket:" ++ (trim_prefix d.queue_id (txt "queue:") ++ (txt ":" ++ local))))
      _
      (λ id.
        slot_if-IsSmall (text_eq a.target (txt "intent/tickets/" ++ (id.local ++ txt ".json")))
          (txt "ticket") 131072 (omega arith))

release_post-IsSmall : (a : Description) → IsSmall (release_post a)
unfolding release_post
release_post-IsSmall a =
    let id = trim_suffix (trim_prefix a.target (txt "intent/releases/")) (txt ".json") in
    elim-IsSmall (parse_label id) _ (λ _.
      slot_if-IsSmall (text_eq a.target (txt "intent/releases/" ++ (id ++ txt ".json")))
        (txt "release") 262144 (omega arith))

request_cap_small : (d : Descriptor) → request_cap d ≤ 1048576
unfolding request_cap
request_cap_small d = ground arith

evidence_cap_small : (d : Descriptor) → evidence_cap d ≤ 1048576
unfolding evidence_cap
evidence_cap_small d = ground arith

slot_if-test :
    (b : Bool) (key : Text) (cap : ℕ) → leb cap 1048576 ≡ true → IsSmall (slot_if b (key, cap))
slot_if-test b key cap le = slot_if-IsSmall b key cap (leb→le cap 1048576 le)

request_cap-IsSmall : (d : Descriptor) → IsSmall (ok (txt "request", request_cap d))
request_cap-IsSmall d = ok-IsSmall (txt "request") (request_cap d) (request_cap_small d)

post_slot-IsSmall :
    (sum : Text → Digest) (d : Descriptor) (a : Description) → IsSmall (post_slot sum d a)
unfolding post_slot
post_slot-IsSmall sum d a =
    search
      (
        if-IsSmall, test-IsSmall, err-IsSmall, slot_if-test, request_cap-IsSmall,
        ticket_post-IsSmall, release_post-IsSmall, init_post-IsSmall,
      )
      depth 14

receipt_cap-IsSmall :
    (c b : Bool) → IsSmall (slot_if c (txt "RECEIPT", if b then unpause_receipt_bytes else mib))
receipt_cap-IsSmall c true = slot_if-IsSmall c (txt "RECEIPT") unpause_receipt_bytes (omega arith)
receipt_cap-IsSmall c false = slot_if-IsSmall c (txt "RECEIPT") mib (omega arith)

evidence_cap-IsSmall :
    (c : Bool) (d : Descriptor) → IsSmall (slot_if c (txt "EVIDENCE", evidence_cap d))
evidence_cap-IsSmall c d =
    slot_if-IsSmall c (txt "EVIDENCE") (evidence_cap d) (evidence_cap_small d)

artifact_slot-IsSmall :
    (sum : Text → Digest) (d : Descriptor) (receipt : Text) (a : Description)
    → IsSmall (artifact_slot sum d receipt a)
unfolding artifact_slot
artifact_slot-IsSmall sum d receipt a = search (
  if-IsSmall, slot_if-test, err-IsSmall, receipt_cap-IsSmall, evidence_cap-IsSmall,
  post_slot-IsSmall,
)

-- The slots are named in order.
abbrev pub IsNumbered : ℕ → List Description → Type 0
IsNumbered i [] = Unit
IsNumbered i (a ∷ more) = (a.slot ≡ slot_name i) × IsNumbered (suc i) more

-- No two artifacts have one target, and none has one of those seen before.
abbrev pub HasOwnTargets : List Text → List Description → Type 0
HasOwnTargets seen [] = Unit
HasOwnTargets seen (a ∷ more) =
    (any (text_eq a.target) seen ≡ false) × HasOwnTargets (a.target ∷ seen) more

abbrev pub AllSmall : List Description → Type 0
AllSmall = All (λ a. a.bytes ≤ 1048576)

small_cap : (r : Result Slot) (key : Text) (cap : ℕ) → r ≡ ok (key, cap) → IsSmall r → cap ≤ 1048576
unfolding IsSmall
small_cap r key cap e small = rw e at small

artifact_keys-parts :
    (sum : Text → Digest) (d : Descriptor) (receipt : Text) (i : ℕ) (prev : Option Description)
    (seen : List Text) (artifacts : List Description) (keys : List Text)
    → artifact_keys sum d receipt i prev seen artifacts ≡ ok keys
    → IsNumbered i artifacts × HasOwnTargets seen artifacts × AllSmall artifacts
unfolding artifact_keys
artifact_keys-parts sum d receipt i prev seen [] keys h = (tt, tt, tt)
artifact_keys-parts sum d receipt i prev seen (a ∷ more) keys h =
    let (named, h1) = unit_step (require (text_eq a.slot (slot_name i)) malformed) _ h in
    let (behind, h2) = unit_step (require (stands_behind prev a) malformed) _ h1 in
    let (new, h3) = unit_step (refuse_if (any (text_eq a.target) seen) malformed) _ h2 in
    let ((key, cap), slot, h4) = >>=-eq-ok (artifact_slot sum d receipt a) _ h3 in
    let (fits, h5) = unit_step (refuse_if (ltb cap a.bytes) limit_exceeded) _ h4 in
    let (rest, later, _) =
      >>=-eq-ok (artifact_keys sum d receipt (suc i) (some a) (a.target ∷ seen) more) _ h5 in
    let (numbered, own, small) =
      artifact_keys-parts sum d receipt (suc i) (some a) (a.target ∷ seen) more rest later in
    let le =
      small_cap (artifact_slot sum d receipt a) key cap slot
        (artifact_slot-IsSmall sum d receipt a) in
    let within = not_ltb→le cap a.bytes (refuse_if-passed _ limit_exceeded fits) in
    (
      (text_eq→eq a.slot (slot_name i) (require-passed _ malformed named), numbered),
      (refuse_if-passed _ malformed new, own),
      (omega (arith, le, within), small),
    )

-- What holds of a descriptor that shape accepts.
pub record IsShaped (d : Descriptor) : Type 0 where
  pub few : length d.artifacts ≤ (stage_limits d.operation).0
  pub base : is_some d.base ≡ not (text_eq d.operation init_operation)
  pub numbered : IsNumbered 0 d.artifacts
  pub own_targets : HasOwnTargets [] d.artifacts
  pub small : AllSmall d.artifacts

-- A descriptor that shape accepts has at most as many artifacts as its operation may have, a base exactly if
-- the operation is not INIT, its slots numbered in order, no target twice, and no artifact above one MiB.
pub shape-IsShaped : (sum : Text → Digest) (d : Descriptor) → shape sum d ≡ ok tt → IsShaped d
unfolding shape
shape-IsShaped sum d h =
    let (few, h1) =
      unit_step (refuse_if (ltb (stage_limits d.operation).0 (length d.artifacts)) limit_exceeded) _
        h in
    let (base, h2) =
      unit_step
        (require
          (if text_eq d.operation init_operation then not (is_some d.base) else is_some d.base)
          malformed)
        _ h1 in
    let (seq, _, h3) = >>=-eq-ok (receipt_seq d.base) _ h2 in
    let receipt = txt "receipts/" ++ or_empty (receipt_name seq) in
    let (keys, counted, _) = >>=-eq-ok (artifact_keys sum d receipt 0 none [] d.artifacts) _ h3 in
    let (numbered, own, small) =
      artifact_keys-parts sum d receipt 0 none [] d.artifacts keys counted in
    record {
      few = not_ltb→le _ _ (refuse_if-passed _ limit_exceeded few);
      base =
          opposite (text_eq d.operation init_operation) (is_some d.base)
            (require-passed _ malformed base);
      numbered = numbered;
      own_targets = own;
      small = small;
    }
  where
    opposite : (i b : Bool) → (if i then not b else b) ≡ true → b ≡ not i
    opposite true true e = ground arith
    opposite true false e = refl
    opposite false b e = e

pub stage_limits_le : (op : Text) → (stage_limits op).0 ≤ 11
unfolding stage_limits
stage_limits_le op = ground arith
