-- ===== src/Examples/Snapshot.antt =====
-- Heads and receipts at concrete values.
use corvint_tasks.Base.{◌≡◌, refl, true, leb→le, length, arith}
use corvint_tasks.Text.{txt, text_eq, text_ltb, split}
use corvint_tasks.Wire.Primitives.{parse_digest, parse_path_text}
use corvint_tasks.Wire.Ids.{parse_queue_id}
use corvint_tasks.Wire.Decimal.{count_of, parse_size}
use corvint_tasks.Wire.Clock.{parse_timestamp}
use corvint_tasks.Wire.Parse.{set_defaults, array_bound, is_wide, count}
use corvint_tasks.Wire.Code.{ok}
use corvint_tasks.Wire.Value.{
  Value, Members, null, str, arr, obj, nil, cons, end, member, object, set, get,
}
use corvint_tasks.Wire.Encode.{encode_file, encode}
use corvint_tasks.Wire.Utf8.{check_hostile}
use corvint_tasks.Wire.Parse.Shape.{size, IsWithin}
use corvint_tasks.Samples.{sample_head, noon, zero_digest, zero_sum}
use corvint_tasks.Snapshot.Head.{max_journal_head_bytes, head_value, decode_head}
use corvint_tasks.Snapshot.Head.RoundTrip.{IsReadable, IsHead, decode_head-head_value}
use corvint_tasks.Snapshot.Receipt.{Receipt}
use corvint_tasks.Snapshot.Receipt.Decode.{decode_receipt, check_receipt}
use corvint_tasks.Snapshot.Receipt.Entries.{IsReceipt, decode_receipt-IsReceipt}

sample_head-IsReadable : IsReadable (head_value sample_head)
unfolding head_value object set set_defaults IsWithin text_eq check_hostile array_bound is_wide
    count get size count_of
sample_head-IsReadable = record {
  within = (
    omega arith,
    (
      refl,
      refl,
      refl,
      (
        refl,
        refl,
        refl,
        (
          refl,
          refl,
          refl,
          (
            refl,
            refl,
            refl,
            (refl, refl, refl, (refl, refl, refl, (refl, refl, refl, (refl, refl, refl, tt)))),
          ),
        ),
      ),
    ),
  );
  few = omega arith;
}

sample_head-IsHead : IsHead sample_head
unfolding parse_queue_id parse_digest parse_path_text encode_file head_value object set text_eq
    split count_of text_ltb encode
sample_head-IsHead = record {
  queue = refl;
  seq = omega arith;
  seq_bound = omega arith;
  last = zero_digest;
  receipt = refl;
  last_digest = refl;
  generation_bound = omega arith;
  init_digest = refl;
  worktree = refl;
  version_digest = refl;
  readable = sample_head-IsReadable;
  short = leb→le (length (encode_file (head_value sample_head))) max_journal_head_bytes refl;
}

decode_head-head_value_example : decode_head (encode_file (head_value sample_head)) ≡ ok sample_head
decode_head-head_value_example = decode_head-head_value sample_head sample_head-IsHead

-- The receipt of an UNPAUSE that deletes a barrier.
abbrev unpause_members : Members
unpause_members = member (txt "profile") (str (txt "taskman-receipt/0")) (
    member (txt "seq") (str (txt "2")) (
      member (txt "prev") (str zero_digest) (
        member (txt "kind") (str (txt "UNPAUSE")) (
          member (txt "requestId") (str (txt "r1")) (
            member (txt "actor")
              (obj
                (member (txt "id") (str (txt "ann")) (member (txt "role") (str (txt "OWNER")) end)))
              (member (txt "ticketId") null (
                member (txt "attemptId") null (
                  member (txt "generation") null (
                    member (txt "expectedRevision") null (
                      member (txt "headGeneration") (str (txt "0")) (
                        member (txt "pre")
                          (arr (
                            cons
                              (obj (
                                member (txt "path") (str (txt "barrier.json"))
                                  (member (txt "sha256") (str zero_digest) end)))
                              nil))
                          (member (txt "post")
                            (arr (
                              cons
                                (obj (
                                  member (txt "path") (str (txt "barrier.json")) (
                                    member (txt "sha256") null (
                                      member (txt "record") null
                                        (member (txt "blobSha256") null end)))))
                                nil))
                            (member (txt "outcome") (str (txt "COMPLETED")) (
                              member (txt "codes") (arr nil)
                                (member (txt "recordedAt") (str noon) end)))))))))))))))

unpause_read : (rc : Receipt) × (decode_receipt zero_sum unpause_members ≡ ok rc)
unfolding decode_receipt check_receipt parse_size parse_timestamp
unpause_read = (_, refl)

decode_receipt-IsReceipt_example : IsReceipt zero_sum unpause_read.0
decode_receipt-IsReceipt_example =
    decode_receipt-IsReceipt zero_sum unpause_members unpause_read.0 unpause_read.1

-- A releaseId that is not a label counts as none, and the receipt is accepted.
release_ignored :
    decode_receipt zero_sum (member (txt "releaseId") (Value.bool true) unpause_members)
    ≡ decode_receipt zero_sum (member (txt "releaseId") null unpause_members)
unfolding decode_receipt
release_ignored = refl
