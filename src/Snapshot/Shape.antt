-- ===== src/Snapshot/Shape.antt =====
-- StageDescriptor.shape of internal/snapshot/stage.go: which artifacts a staged transaction has. SHA-256 is the
-- parameter `sum`.
pub mod Bounds
use corvint_tasks.Base.{
  ℕ, zero, suc, ◌+◌, ◌*◌, Bool, true, false, not, ◌&&◌, ◌||◌, Option, none, some, List, [], ◌∷◌,
  ◌++◌, ltb, leb, ◌==◌, if◌then◌else◌, length, any, all, is_some, map,
}
use corvint_tasks.Text.{Text, txt, text_eq, text_ltb, has_prefix}
use corvint_tasks.Wire.Code.{
  Result, ok, err, malformed, limit_exceeded, require, refuse_if, ◌>>=◌, ◌>>◌,
}
use corvint_tasks.Wire.Limits.{kib, max_ticket_file_bytes}
use corvint_tasks.Wire.Primitives.{Digest, parse_label}
use corvint_tasks.Wire.Ids.{TicketId, parse_ticket_id}
use corvint_tasks.Snapshot.Stage.{
  StageBase, Description, Descriptor, slot_name, init_operation, pause_operation, unpause_operation,
  keep_operation, adopt_operation, mutate_operation, release_operation, policy_operation,
  max_stage_receipt_seq, unpause_receipt_bytes, stage_limits,
}
use corvint_tasks.Snapshot.Paths.{receipt_name, request_path, or_empty, trim_prefix, trim_suffix}

-- MaxQueueFileBytes, MaxReceiptFileBytes
abbrev pub mib : ℕ
mib = 1024 * kib

-- MaxReleaseFileBytes, MaxPolicyFileBytes
abbrev pub quarter_mib : ℕ
quarter_mib = 256 * kib

-- Is the operation of a descriptor among these?
abbrev pub is_one_of : Descriptor → List Text → Bool
is_one_of d ops = any (text_eq d.operation) ops

-- The key under which an artifact is counted, and the bound of its bytes.
abbrev pub Slot : Type 0
Slot = Text × ℕ

-- A target that must be another.
abbrev pub slot_if : Bool → Slot → Result Slot
slot_if true s = ok s
slot_if false s = err malformed

-- The case POST of an operation that is INIT.
unfoldable pub init_post : Description → Result Slot
unfolding text_eq
init_post a =
    if text_eq a.target (txt "VERSION")
    then ok (a.target, 16)
    else if text_eq a.target (txt "intent/queue.json")
    then ok (a.target, 1048576)
    else if text_eq a.target (txt "intent/policy.json")
    then ok (a.target, 262144)
    else if text_eq a.target (txt "reservations.json")
    then ok (a.target, 194)
    else if text_eq a.target (txt "pinned/" ++ (a.sha256 ++ txt ".json"))
    then ok (txt "pinned", 8465)
    else err malformed

-- The target of a ticket.
unfoldable pub ticket_post : Descriptor → Description → Result Slot
unfolding parse_ticket_id trim_prefix trim_suffix
ticket_post d a =
    let local = trim_suffix (trim_prefix a.target (txt "intent/tickets/")) (txt ".json") in
    let queue = trim_prefix d.queue_id (txt "queue:") in
    elim (parse_ticket_id (txt "ticket:" ++ (queue ++ (txt ":" ++ local)))) [
      | err code ↦ err malformed
      | ok id ↦
          slot_if (text_eq a.target (txt "intent/tickets/" ++ (id.local ++ txt ".json")))
            (txt "ticket", 131072)
    ]

-- The target of a release.
unfoldable pub release_post : Description → Result Slot
unfolding parse_label trim_prefix trim_suffix
release_post a =
    let id = trim_suffix (trim_prefix a.target (txt "intent/releases/")) (txt ".json") in
    elim (parse_label id) [
      | err code ↦ err malformed
      | ok _ ↦
          slot_if (text_eq a.target (txt "intent/releases/" ++ (id ++ txt ".json")))
            (txt "release", quarter_mib)
    ]

-- The bound of a request entry.
unfoldable pub request_cap : Descriptor → ℕ
unfolding text_eq
request_cap d =
    if is_one_of d (
      keep_operation ∷ adopt_operation ∷ mutate_operation ∷ release_operation ∷ policy_operation
      ∷ [])
    then 579
    else if text_eq d.operation init_operation
    then 551
    else 563

-- The case POST of the switch on the role.
unfoldable pub post_slot : (Text → Digest) → Descriptor → Description → Result Slot
unfolding request_path request_cap ticket_post release_post init_post has_prefix
post_slot sum d a =
    if text_eq a.target (or_empty (request_path sum d.request_id))
    then ok (txt "request", request_cap d)
    else if text_eq a.target (txt "barrier.json") && text_eq d.operation pause_operation
    then ok (txt "barrier", 4096)
    else if has_prefix a.target (txt "intent/tickets/")
        && is_one_of d (keep_operation ∷ adopt_operation ∷ mutate_operation ∷ [])
    then ticket_post d a
    else if has_prefix a.target (txt "intent/releases/") && text_eq d.operation release_operation
    then release_post a
    else if has_prefix a.target (txt "evidence/")
        && is_one_of d (keep_operation ∷ release_operation ∷ [])
    then slot_if (text_eq a.target (txt "evidence/" ++ a.sha256)) (txt "discard", 131072)
    else if text_eq a.target (txt "intent/queue.json") && text_eq d.operation mutate_operation
    then ok (txt "queue", 1048576)
    else if text_eq a.target (txt "intent/policy.json") && text_eq d.operation policy_operation
    then ok (txt "policy", quarter_mib)
    else if text_eq d.operation init_operation
    then init_post a
    else err malformed

-- The bound of an evidence blob.
unfoldable pub evidence_cap : Descriptor → ℕ
unfolding text_eq
evidence_cap d =
    if text_eq d.operation policy_operation
    then quarter_mib
    else if text_eq d.operation release_operation
    then quarter_mib
    else if text_eq d.operation init_operation
    then mib
    else max_ticket_file_bytes

-- The switch on the role of an artifact; `receipt` is the path of the receipt.
unfoldable pub artifact_slot : (Text → Digest) → Descriptor → Text → Description → Result Slot
unfolding evidence_cap post_slot
artifact_slot sum d receipt a =
    if text_eq a.role (txt "HEAD")
    then slot_if (text_eq a.target (txt "head.json")) (txt "HEAD", 4096)
    else if text_eq a.role (txt "RECEIPT")
    then slot_if (text_eq a.target receipt) (
      txt "RECEIPT",
      if text_eq d.operation unpause_operation then unpause_receipt_bytes else mib,
    )
    else if text_eq a.role (txt "EVIDENCE")
    then slot_if
        (has_prefix a.target (txt "evidence/") && text_eq a.target (txt "evidence/" ++ a.sha256))
        (txt "EVIDENCE", evidence_cap d)
    else if text_eq a.role (txt "POST")
    then post_slot sum d a
    else err malformed

-- Does an artifact stand behind the one before it, by role and then by target?
unfoldable pub stands_behind : Option Description → Description → Bool
unfolding text_ltb text_eq
stands_behind none a = true
stands_behind (some p) a =
    not (text_ltb a.role p.role || (text_eq p.role a.role && not (text_ltb p.target a.target)))

-- The loop over the artifacts: the keys under which they are counted.
unfoldable pub artifact_keys :
    (Text → Digest)
    → Descriptor
    → Text
    → ℕ
    → Option Description
    → List Text
    → List Description
    → Result (List Text)
unfolding artifact_slot stands_behind text_eq
artifact_keys sum d receipt i prev seen [] = ok []
artifact_keys sum d receipt i prev seen (a ∷ more) = do
  require (text_eq a.slot (slot_name i)) malformed
  require (stands_behind prev a) malformed
  refuse_if (any (text_eq a.target) seen) malformed
  (key, cap) ← artifact_slot sum d receipt a
  refuse_if (ltb cap a.bytes) limit_exceeded
  keys ← artifact_keys sum d receipt (suc i) (some a) (a.target ∷ seen) more
  ok (key ∷ keys)

-- counts[key]
unfoldable pub count_key : Text → List Text → ℕ
unfolding text_eq
count_key key [] = 0
count_key key (k ∷ ks) = let rest = count_key key ks in if text_eq k key then suc rest else rest

-- delete(counts, key), for keys
unfoldable pub without_keys : List Text → List Text → List Text
unfolding text_eq
without_keys keys [] = []
without_keys keys (k ∷ ks) =
    let rest = without_keys keys ks in if any (text_eq k) keys then rest else k ∷ rest

-- The keys that an operation requires, each once.
unfoldable pub required_keys : Descriptor → List Text → List Text
unfolding text_eq count_key
required_keys d keys =
    txt "HEAD"
    ∷ txt "RECEIPT"
    ∷ txt "request"
    ∷ (if text_eq d.operation init_operation
        then txt "VERSION"
          ∷ txt "intent/queue.json"
          ∷ txt "intent/policy.json"
          ∷ txt "reservations.json"
          ∷ txt "pinned"
          ∷ []
        else if text_eq d.operation pause_operation
        then txt "barrier" ∷ []
        else if text_eq d.operation keep_operation
        then txt "ticket" ∷ txt "discard" ∷ []
        else if text_eq d.operation adopt_operation
        then txt "ticket" ∷ []
        else if text_eq d.operation mutate_operation
        then txt "ticket" ∷ []
        else if text_eq d.operation policy_operation
        then txt "policy" ∷ []
        else if text_eq d.operation release_operation
        then txt "release"
          ∷ (if count_key (txt "discard") keys == 0 then [] else txt "discard" ∷ [])
        else [])

unfoldable pub max_evidence : Descriptor → ℕ
unfolding text_eq
max_evidence d =
    if text_eq d.operation init_operation
    then 3
    else if is_one_of d (
        keep_operation ∷ adopt_operation ∷ mutate_operation ∷ release_operation ∷ policy_operation
        ∷ [])
    then 1
    else 0

-- The checks on the counts behind the loop.
unfoldable pub check_counts : Descriptor → List Text → Result (Unit {0})
unfolding required_keys max_evidence without_keys count_key text_eq
check_counts d keys = do
  let counted =
      if text_eq d.operation mutate_operation then without_keys (txt "queue" ∷ []) keys else keys
  let required = required_keys d counted
  require (all (λ k. count_key k counted == 1) required) malformed
  require (length (without_keys (txt "EVIDENCE" ∷ []) (without_keys required counted)) == 0)
      malformed
  refuse_if (ltb (max_evidence d) (count_key (txt "EVIDENCE") counted)) limit_exceeded

-- The first post that an evidence blob of INIT serves, of those not used before.
unfoldable pub matching_post : List Text → Description → List Description → Option Text
unfolding text_eq
matching_post used a [] = none
matching_post used a (p ∷ ps) =
    let rest = matching_post used a ps in
    if text_eq p.role (txt "POST")
      && (any (text_eq p.target)
            (txt "VERSION" ∷ txt "intent/queue.json" ∷ txt "intent/policy.json" ∷ [])
          && (text_eq p.sha256 a.sha256
              && (p.bytes == a.bytes && not (any (text_eq p.target) used))))
    then some p.target
    else rest

-- The loop over the evidence of INIT.
unfoldable pub check_blobs : List Description → List Text → List Description → Result (Unit {0})
unfolding matching_post text_eq
check_blobs all_artifacts used [] = ok tt
check_blobs all_artifacts used (a ∷ more) = elim (text_eq a.role (txt "EVIDENCE")) [
  | false ↦ check_blobs all_artifacts used more
  | true ↦ elim (matching_post used a all_artifacts) [
    | none ↦ err malformed
    | some target ↦ check_blobs all_artifacts (target ∷ used) more
  ]
]

-- The sequence number of the receipt.
unfoldable pub receipt_seq : Option StageBase → Result ℕ
receipt_seq none = ok 1
receipt_seq (some base) =
    if ltb base.last_seq 1 || leb max_stage_receipt_seq base.last_seq
    then err limit_exceeded
    else ok (base.last_seq + 1)

-- StageDescriptor.shape
unfoldable pub shape : (Text → Digest) → Descriptor → Result (Unit {0})
unfolding stage_limits receipt_seq receipt_name artifact_keys check_counts check_blobs text_eq
shape sum d = do
  refuse_if (ltb (stage_limits d.operation).0 (length d.artifacts)) limit_exceeded
  require (if text_eq d.operation init_operation then not (is_some d.base) else is_some d.base)
      malformed
  seq ← receipt_seq d.base
  keys ← artifact_keys sum d (txt "receipts/" ++ or_empty (receipt_name seq)) 0 none [] d.artifacts
  check_counts d keys
  if text_eq d.operation init_operation then check_blobs d.artifacts [] d.artifacts else ok tt
