-- ===== src/Transaction/Stage/Codecs.antt =====
-- The codecs that internal/transaction/stage.go calls, as the snapshot package gives them.
use corvint_tasks.Base.{Option, none, some}
use corvint_tasks.Text.{Text}
use corvint_tasks.Wire.Code.{Result, ok, err, malformed, ◌>>=◌}
use corvint_tasks.Wire.Primitives.{Digest}
use corvint_tasks.Snapshot.Head.{decode_head}
use corvint_tasks.Snapshot.Descriptor.{decode_descriptor}
use corvint_tasks.Transaction.Stage.{Head, Plan, Observation, StageCalls}

-- What the staging code reads of the result of DecodeHead, which always has a last receipt.
unfoldable pub decode_stage_head : Text → Result Head
unfolding decode_head
decode_stage_head text = do
  h ← decode_head text
  elim h.last_receipt_sha256 [
    | none ↦ err malformed
    | some last ↦
        ok (record { queue_id = h.queue_id.raw; last_seq = h.last_seq; last_receipt_sha256 = last })
  ]

-- The calls of the staging code; `stage_base` compares an observation with the inventory.
unfoldable pub stage_calls :
    (Text → Digest) → (Observation → Option Plan → Result (Unit {0})) → StageCalls
unfolding decode_descriptor decode_stage_head
stage_calls sum stage_base = record {
  sum = sum;
  decode_descriptor = decode_descriptor sum;
  decode_head = decode_stage_head;
  stage_base = stage_base;
}
