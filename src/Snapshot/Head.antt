-- ===== src/Snapshot/Head.antt =====
-- The head, the barrier and the identity of a store: DecodeHead, Head.Value and DecodeBarrier of
-- internal/snapshot/head.go, DecodeInit and Init.Value of internal/snapshot/receipt.go.
pub mod RoundTrip
use corvint_tasks.Base.{
  ℕ, ◌*◌, Bool, true, false, ◌||◌, not, Option, none, some, List, [], ◌∷◌, ltb, length, is_some,
}
use corvint_tasks.Text.{Text, txt}
use corvint_tasks.Wire.Code.{Result, ok, err, malformed, limit_exceeded, refuse_if, ◌>>=◌, ◌>>◌}
use corvint_tasks.Wire.Limits.{kib}
use corvint_tasks.Wire.Decimal.{Size, count_of}
use corvint_tasks.Wire.Primitives.{Digest}
use corvint_tasks.Wire.Clock.{Timestamp}
use corvint_tasks.Wire.Ids.{QueueId}
use corvint_tasks.Wire.Value.{Value, str, object, string_or_null}
use corvint_tasks.Wire.Reader.{
  parse_document, closed, read_field, read_string, read_size, read_digest, read_digest_or_null,
  read_path_text, read_queue_id, read_enum, read_label, read_timestamp, check_profile,
}

abbrev pub max_journal_head_bytes : ℕ
max_journal_head_bytes = 4 * kib

abbrev pub max_barrier_bytes : ℕ
max_barrier_bytes = 4 * kib

abbrev pub max_pinned_bytes : ℕ
max_pinned_bytes = 16 * (kib * kib)

abbrev pub profile_head : Text
profile_head = txt "taskman-journal-head/0"

abbrev pub profile_barrier : Text
profile_barrier = txt "taskman-barrier/0"

abbrev pub profile_init : Text
profile_init = txt "taskman-init/0"

abbrev pub version_bytes : Text
version_bytes = txt "taskman-state/0\n"

pub record Head : Type 0 where
  pub queue_id : QueueId
  pub last_seq : Size
  pub last_receipt_sha256 : Option Digest
  pub generation : Size
  pub init_sha256 : Digest
  pub primary_worktree : Text
  pub version_sha256 : Digest

-- DecodeHead, behind the parser
unfoldable pub read_head : Value → Result Head
unfolding closed check_profile
read_head v = do
  closed
      (txt "profile"
        ∷ txt "queueId"
        ∷ txt "lastSeq"
        ∷ txt "lastReceiptSha256"
        ∷ txt "generation"
        ∷ txt "initSha256"
        ∷ txt "primaryWorktree"
        ∷ txt "versionSha256"
        ∷ [])
      v
  profile ← read_field (txt "profile") read_string v
  check_profile profile profile_head
  queue ← read_field (txt "queueId") read_queue_id v
  last ← read_field (txt "lastSeq") read_size v
  receipt ← read_field (txt "lastReceiptSha256") read_digest_or_null v
  generation ← read_field (txt "generation") read_size v
  init ← read_field (txt "initSha256") read_digest v
  worktree ← read_field (txt "primaryWorktree") read_path_text v
  version ← read_field (txt "versionSha256") read_digest v
  refuse_if (ltb last 1 || not (is_some receipt)) malformed
  ok (record {
    queue_id = queue;
    last_seq = last;
    last_receipt_sha256 = receipt;
    generation = generation;
    init_sha256 = init;
    primary_worktree = worktree;
    version_sha256 = version;
  })

-- DecodeHead
unfoldable pub decode_head : Text → Result Head
unfolding parse_document read_head
decode_head text = do
  refuse_if (ltb max_journal_head_bytes (length text)) limit_exceeded
  v ← parse_document text
  read_head v

-- Head.Value
unfoldable pub head_value : Head → Value
unfolding object count_of
head_value h = object (
    (txt "profile", str profile_head)
    ∷ (txt "queueId", str h.queue_id.raw)
    ∷ (txt "lastSeq", str (count_of h.last_seq))
    ∷ (txt "lastReceiptSha256", string_or_null h.last_receipt_sha256)
    ∷ (txt "generation", str (count_of h.generation))
    ∷ (txt "initSha256", str h.init_sha256)
    ∷ (txt "primaryWorktree", str h.primary_worktree)
    ∷ (txt "versionSha256", str h.version_sha256)
    ∷ [])

pub record Barrier : Type 0 where
  pub queue_id : QueueId
  pub scope : Text
  pub reason : Text
  pub actor : Text
  pub since_seq : Size
  pub since : Timestamp

-- DecodeBarrier
unfoldable pub decode_barrier : Text → Result Barrier
unfolding parse_document closed check_profile read_enum
decode_barrier text = do
  refuse_if (ltb max_barrier_bytes (length text)) limit_exceeded
  v ← parse_document text
  closed
      (txt "profile"
        ∷ txt "queueId"
        ∷ txt "scope"
        ∷ txt "reason"
        ∷ txt "actor"
        ∷ txt "sinceSeq"
        ∷ txt "since"
        ∷ [])
      v
  profile ← read_field (txt "profile") read_string v
  check_profile profile profile_barrier
  queue ← read_field (txt "queueId") read_queue_id v
  scope ← read_field (txt "scope") (read_enum (txt "ADMISSION" ∷ txt "ALL" ∷ [])) v
  reason ←
      read_field (txt "reason")
        (read_enum (txt "CUTOVER" ∷ txt "EMERGENCY" ∷ txt "DRAIN" ∷ txt "OPERATOR" ∷ [])) v
  actor ← read_field (txt "actor") read_label v
  seq ← read_field (txt "sinceSeq") read_size v
  since ← read_field (txt "since") read_timestamp v
  ok (record {
    queue_id = queue;
    scope = scope;
    reason = reason;
    actor = actor;
    since_seq = seq;
    since = since;
  })

pub record Init : Type 0 where
  pub queue_id : QueueId
  pub primary_worktree : Text
  pub version_sha256 : Digest

-- DecodeInit
unfoldable pub decode_init : Text → Result Init
unfolding parse_document closed check_profile
decode_init text = do
  refuse_if (ltb max_pinned_bytes (length text)) limit_exceeded
  v ← parse_document text
  closed (txt "profile" ∷ txt "queueId" ∷ txt "primaryWorktree" ∷ txt "versionSha256" ∷ []) v
  profile ← read_field (txt "profile") read_string v
  check_profile profile profile_init
  queue ← read_field (txt "queueId") read_queue_id v
  worktree ← read_field (txt "primaryWorktree") read_path_text v
  version ← read_field (txt "versionSha256") read_digest v
  ok (record { queue_id = queue; primary_worktree = worktree; version_sha256 = version })

-- Init.Value
unfoldable pub init_value : Init → Value
unfolding object
init_value d = object (
    (txt "profile", str profile_init)
    ∷ (txt "queueId", str d.queue_id.raw)
    ∷ (txt "primaryWorktree", str d.primary_worktree)
    ∷ (txt "versionSha256", str d.version_sha256)
    ∷ [])
