-- ===== src/Snapshot/Places.antt =====
-- The places that a receipt may write: PostBound, AttemptQueue and ContentPath of
-- internal/snapshot/receipt.go, with BoundFor of internal/intent/store.go. SHA-256 is the parameter `sum`.
use corvint_tasks.Base.{
  ℕ, ◌*◌, ◌-◌, Bool, true, false, not, ◌&&◌, ◌||◌, Option, none, some, List, [], ◌∷◌, ◌++◌, ltb,
  ◌==◌, length, take, drop, any, if◌then◌else◌,
}
use corvint_tasks.Text.{Text, txt, text_eq, has_prefix, split}
use corvint_tasks.Wire.Code.{Result, ok, err, malformed, journal_forked, require, refuse_if, ◌>>◌}
use corvint_tasks.Wire.Limits.{
  kib, max_identifier_bytes, max_local_token_bytes, max_ticket_file_bytes,
}
use corvint_tasks.Wire.Primitives.{Digest, parse_digest, parse_identifier, parse_label, parse_token}
use corvint_tasks.Wire.Ids.{QueueId, parse_queue_id}
use corvint_tasks.Snapshot.Paths.{trim_prefix, trim_suffix}
use corvint_tasks.Snapshot.Head.{max_barrier_bytes, max_pinned_bytes, version_bytes}

abbrev pub mib : ℕ
mib = kib * kib

abbrev pub max_attempt_record_bytes : ℕ
max_attempt_record_bytes = 64 * kib

abbrev pub max_reservation_set_bytes : ℕ
max_reservation_set_bytes = 64 * mib

abbrev pub max_evidence_blob_bytes : ℕ
max_evidence_blob_bytes = 64 * mib

abbrev pub max_queue_file_bytes : ℕ
max_queue_file_bytes = 1 * mib

abbrev pub max_policy_file_bytes : ℕ
max_policy_file_bytes = 256 * kib

abbrev pub max_import_map_bytes : ℕ
max_import_map_bytes = 8 * mib

abbrev pub max_release_file_bytes : ℕ
max_release_file_bytes = 256 * kib

-- Has a call given a value?
abbrev pub succeeds {ℓ} : {A : Type ℓ} → Result A → Bool
succeeds (ok a) = true
succeeds (err code) = false

-- strings.HasSuffix
unfoldable pub has_suffix : Text → Text → Bool
unfolding text_eq
has_suffix s suffix =
    not (ltb (length s) (length suffix)) && text_eq (drop (length s - length suffix) s) suffix

-- strings.Contains, of one byte
abbrev has_byte : ℕ → Text → Bool
has_byte b s = any (λ c. c == b) s

-- releaseName: is it the file name of a release?
unfoldable pub is_release_name : Text → Bool
unfolding has_suffix trim_suffix parse_label
is_release_name name =
    (has_suffix name (txt ".json") && not (has_byte b'/' name))
    && succeeds (parse_label (trim_suffix name (txt ".json")))

-- ticketLocal: is it the file name of a ticket?
unfoldable pub is_ticket_name : Text → Bool
unfolding has_suffix parse_token
is_ticket_name name =
    (has_suffix name (txt ".json") && not (has_byte b'/' name))
    && succeeds (parse_token (take (length name - 5) name) max_local_token_bytes)

-- BoundFor of internal/intent/store.go
unfoldable pub intent_bound : Text → Option ℕ
unfolding is_release_name is_ticket_name text_eq has_prefix
intent_bound path =
    if text_eq path (txt "queue.json")
    then some max_queue_file_bytes
    else if text_eq path (txt "policy.json")
    then some max_policy_file_bytes
    else if text_eq path (txt "import-map.json")
    then some max_import_map_bytes
    else if has_prefix path (txt "tickets/")
    then (if is_ticket_name (drop 8 path) then some max_ticket_file_bytes else none)
    else if has_prefix path (txt "releases/") && is_release_name (drop 9 path)
    then some max_release_file_bytes
    else none

abbrev attempt_parts : Text → List Text → Result QueueId
attempt_parts id (kind ∷ authority ∷ queue ∷ serial ∷ []) = do
  refuse_if
      (not (text_eq kind (txt "attempt"))
        || (not (length serial == 32) || ltb max_identifier_bytes (length id)))
      malformed
  parse_digest (serial ++ serial)
  parse_queue_id (txt "queue:" ++ (authority ++ (txt ":" ++ queue)))
attempt_parts id _ = err malformed

-- AttemptQueue
unfoldable pub attempt_queue : Text → Result QueueId
unfolding text_eq parse_digest parse_queue_id split
attempt_queue id = attempt_parts id (split b':' id)

-- A path of two names behind the closed layout.
abbrev pair_bound : Text → Text → Result ℕ
pair_bound dir file =
    let name = trim_suffix file (txt ".json") in
    let json = has_suffix file (txt ".json") in
    if text_eq dir (txt "attempts") && (json && succeeds (attempt_queue name))
    then ok max_attempt_record_bytes
    else if text_eq dir (txt "effects") && (json && succeeds (parse_digest name))
    then ok max_attempt_record_bytes
    else if text_eq dir (txt "pinned") && (json && succeeds (parse_digest name))
    then ok max_pinned_bytes
    else if text_eq dir (txt "evidence") && succeeds (parse_digest file)
    then ok max_evidence_blob_bytes
    else err malformed

-- The switch on the parts of a path.
abbrev parts_bound : List Text → Result ℕ
parts_bound (dir ∷ file ∷ []) = pair_bound dir file
parts_bound (dir ∷ shard ∷ file ∷ []) =
    let name = trim_suffix file (txt ".json") in
    if text_eq dir (txt "requests")
      && (has_suffix file (txt ".json")
          && (succeeds (parse_digest name) && text_eq shard (take 2 name)))
    then ok max_attempt_record_bytes
    else err malformed
parts_bound _ = err malformed

-- The bound of a file of the intent tree.
abbrev intent_place : Text → Option ℕ
intent_place p =
    if has_prefix p (txt "intent/") then intent_bound (trim_prefix p (txt "intent/")) else none

abbrev named_bound : Text → Result ℕ
named_bound p =
    if text_eq p (txt "VERSION")
    then ok (length version_bytes)
    else if text_eq p (txt "barrier.json")
    then ok max_barrier_bytes
    else if text_eq p (txt "reservations.json")
    then ok max_reservation_set_bytes
    else elim (intent_place p) [ some n ↦ ok n | none ↦ parts_bound (split b'/' p) ]

-- PostBound
unfoldable pub post_bound : Text → Result ℕ
unfolding parse_identifier text_eq intent_bound has_prefix trim_prefix split attempt_queue
    parse_digest trim_suffix has_suffix
post_bound p = do parse_identifier p; refuse_if (has_byte 92 p) malformed; named_bound p

-- ContentPath
unfoldable pub content_path : (Text → Digest) → Text → Text → Result (Unit {0})
unfolding has_prefix text_eq trim_prefix trim_suffix
content_path sum p raw =
    if has_prefix p (txt "pinned/")
    then require (text_eq (trim_suffix (trim_prefix p (txt "pinned/")) (txt ".json")) (sum raw))
        journal_forked
    else if has_prefix p (txt "evidence/")
    then require (text_eq (trim_prefix p (txt "evidence/")) (sum raw)) journal_forked
    else ok tt
