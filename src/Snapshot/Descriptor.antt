-- ===== src/Snapshot/Descriptor.antt =====
-- The codec of the stage descriptor in internal/snapshot/stage.go. SHA-256 is the parameter `sum`.
pub mod RoundTrip
use corvint_tasks.Base.{true, ℕ, Option, none, some, List, [], ◌∷◌, ltb, length, map}
use corvint_tasks.Text.{Text, txt, text_eq}
use corvint_tasks.Wire.Code.{
  Result, ok, err, malformed, limit_exceeded, require, refuse_if, ◌>>=◌, ◌>>◌,
}
use corvint_tasks.Wire.Decimal.{count_of}
use corvint_tasks.Wire.Primitives.{Digest}
use corvint_tasks.Wire.Value.{Value, str, null, array, object}
use corvint_tasks.Wire.Encode.{encode_file}
use corvint_tasks.Wire.Reader.{
  parse_document, closed, field, read_field, read_string, read_enum, read_size, read_digest,
  read_identifier, read_queue_id, read_timestamp, read_array, read_each, or_null, check_profile,
}
use corvint_tasks.Snapshot.Stage.{
  StageBase, Description, Descriptor, max_stage_descriptor_bytes, stage_limits, init_operation,
  pause_operation, unpause_operation, keep_operation, adopt_operation, mutate_operation,
  release_operation, policy_operation,
}
use corvint_tasks.Snapshot.Paths.{request_path}
use corvint_tasks.Snapshot.Shape.{shape}

abbrev pub profile_stage : Text
profile_stage = txt "taskman-stage/0"

unfoldable pub base_value : Option StageBase → Value
unfolding object count_of
base_value none = null
base_value (some b) = object (
    (txt "lastSeq", str (count_of b.last_seq))
    ∷ (txt "lastReceiptSha256", str b.last_receipt_sha256)
    ∷ [])

unfoldable pub description_value : Description → Value
unfolding object count_of
description_value a = object (
    (txt "slot", str a.slot)
    ∷ (txt "role", str a.role)
    ∷ (txt "target", str a.target)
    ∷ (txt "sha256", str a.sha256)
    ∷ (txt "bytes", str (count_of a.bytes))
    ∷ [])

-- StageDescriptor.Value
unfoldable pub descriptor_value : Descriptor → Value
unfolding object array base_value description_value
descriptor_value d = object (
    (txt "profile", str profile_stage)
    ∷ (txt "queueId", str d.queue_id)
    ∷ (txt "operation", str d.operation)
    ∷ (txt "requestId", str d.request_id)
    ∷ (txt "requestSha256", str d.request_sha256)
    ∷ (txt "recordedAt", str d.recorded_at)
    ∷ (txt "base", base_value d.base)
    ∷ (txt "artifacts", array (map description_value d.artifacts))
    ∷ [])

unfoldable pub read_base : Value → Result StageBase
unfolding closed field
read_base v = do
  closed (txt "lastSeq" ∷ txt "lastReceiptSha256" ∷ []) v
  seq ← read_field (txt "lastSeq") read_size v
  sha ← read_field (txt "lastReceiptSha256") read_digest v
  ok (record { last_seq = seq; last_receipt_sha256 = sha })

abbrev pub stage_roles : List Text
stage_roles = txt "EVIDENCE" ∷ txt "HEAD" ∷ txt "POST" ∷ txt "RECEIPT" ∷ []

unfoldable pub read_description : Value → Result Description
unfolding closed field read_enum
read_description v = do
  closed (txt "slot" ∷ txt "role" ∷ txt "target" ∷ txt "sha256" ∷ txt "bytes" ∷ []) v
  slot ← read_field (txt "slot") read_string v
  role ← read_field (txt "role") (read_enum stage_roles) v
  target ← read_field (txt "target") read_identifier v
  sha ← read_field (txt "sha256") read_digest v
  bytes ← read_field (txt "bytes") read_size v
  ok (record { slot = slot; role = role; target = target; sha256 = sha; bytes = bytes })

abbrev pub stage_operations : List Text
stage_operations =
    init_operation ∷ pause_operation ∷ unpause_operation ∷ keep_operation ∷ adopt_operation
    ∷ mutate_operation ∷ release_operation ∷ policy_operation ∷ []

-- The fields of a descriptor.
unfoldable pub read_descriptor : Value → Result Descriptor
unfolding closed check_profile field read_enum read_base read_array read_each read_description
read_descriptor v = do
  closed
      (txt "profile"
        ∷ txt "queueId"
        ∷ txt "operation"
        ∷ txt "requestId"
        ∷ txt "requestSha256"
        ∷ txt "recordedAt"
        ∷ txt "base"
        ∷ txt "artifacts"
        ∷ [])
      v
  profile ← read_field (txt "profile") read_string v
  check_profile profile profile_stage
  queue ← read_field (txt "queueId") read_queue_id v
  operation ← read_field (txt "operation") (read_enum stage_operations) v
  request ← read_field (txt "requestId") read_string v
  sha ← read_field (txt "requestSha256") read_digest v
  at ← read_field (txt "recordedAt") read_timestamp v
  base ← read_field (txt "base") (or_null read_base) v
  items ← read_field (txt "artifacts") (read_array (some 11) true) v
  artifacts ← read_each read_description items
  ok (record {
    queue_id = queue.raw;
    operation = operation;
    request_id = request;
    request_sha256 = sha;
    recorded_at = at;
    base = base;
    artifacts = artifacts;
  })

-- DecodeStageDescriptor
unfoldable pub decode_descriptor : (Text → Digest) → Text → Result Descriptor
unfolding parse_document encode_file text_eq read_descriptor request_path shape stage_limits
decode_descriptor sum text = do
  refuse_if (ltb max_stage_descriptor_bytes (length text)) limit_exceeded
  v ← parse_document text
  require (text_eq (encode_file v) text) malformed
  d ← read_descriptor v
  request_path sum d.request_id
  shape sum d
  refuse_if (ltb (stage_limits d.operation).1 (length text)) limit_exceeded
  ok d

-- StageDescriptor.Encode
unfoldable pub encode_descriptor : (Text → Digest) → Descriptor → Result Text
unfolding encode_file descriptor_value decode_descriptor
encode_descriptor sum d = do
  let raw = encode_file (descriptor_value d)
  decode_descriptor sum raw
  ok raw
