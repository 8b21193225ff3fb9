-- ===== src/Snapshot/Head/RoundTrip.antt =====
-- The encoding of a head, as internal/snapshot/head.go writes and reads it.
use corvint_tasks.Base.{◌≤◌, ◌<◌, ◌^◌, ◌≡◌, refl, ap, false, some, [], ◌∷◌, le→not_ltb, ltb, length}
use corvint_tasks.Text.{Text, txt, text_eq, text_ltb}
use corvint_tasks.Wire.Code.{Result, ok, err, malformed}
use corvint_tasks.Wire.Decimal.{count_of, parse_size}
use corvint_tasks.Wire.Decimal.RoundTrip.{parse_size-count_of}
use corvint_tasks.Wire.Primitives.{Digest, parse_digest, parse_path_text}
use corvint_tasks.Wire.Ids.{parse_queue_id}
use corvint_tasks.Wire.Value.{Value, str, object, get, set}
use corvint_tasks.Wire.Encode.{encode_file}
use corvint_tasks.Wire.Parsed.{parsed, failed, out_of_fuel}
use corvint_tasks.Wire.Scan.{Options}
use corvint_tasks.Wire.Parse.{parse, set_defaults}
use corvint_tasks.Wire.Parse.Shape.{size, IsWithin}
use corvint_tasks.Wire.Parse.Order.{in_order, insert_member}
use corvint_tasks.Wire.Parse.Order.Kept.{parse_with-encode_file}
use corvint_tasks.Wire.Reader.{parse_document, closed, field, check_profile}
use corvint_tasks.Snapshot.Head.{
  profile_head, Head, read_head, decode_head, head_value, max_journal_head_bytes,
}

-- The options of Parse
abbrev pub defaults : Options
defaults = record { wide_array_key = []; wide_array_max = 0; max_nodes = 0 }

-- A value that Parse can read.
pub record IsReadable (v : Value) : Type 0 where
  pub within : IsWithin (set_defaults defaults) 0 false v
  pub few : size v ≤ (set_defaults defaults).max_nodes

pub parse_document-encode_file :
    (v : Value) → IsReadable v → parse_document (encode_file v) ≡ ok (in_order v)
unfolding parse_document parse
parse_document-encode_file v r =
    ap
      (λ p. elim p as (λ _. Result Value) [
        | out_of_fuel ↦ err malformed
        | failed code ↦ err code
        | parsed w ↦ ok w
      ])
      (parse_with-encode_file defaults v r.within r.few)

-- A head whose fields the readers accept, in a file of at most 4 KiB.
pub record IsHead (h : Head) : Type 0 where
  pub queue : parse_queue_id h.queue_id.raw ≡ ok h.queue_id
  pub seq : 1 ≤ h.last_seq
  pub seq_bound : h.last_seq < 2 ^ 64
  pub last : Digest
  pub receipt : h.last_receipt_sha256 ≡ some last
  pub last_digest : parse_digest last ≡ ok last
  pub generation_bound : h.generation < 2 ^ 64
  pub init_digest : parse_digest h.init_sha256 ≡ ok h.init_sha256
  pub worktree : parse_path_text h.primary_worktree ≡ ok h.primary_worktree
  pub version_digest : parse_digest h.version_sha256 ≡ ok h.version_sha256
  pub readable : IsReadable (head_value h)
  pub short : length (encode_file (head_value h)) ≤ max_journal_head_bytes

-- The readers of a head on its fields, in whatever way their strings are written.
read_fields :
    (h : Head) (queue last receipt generation init worktree version : Text)
    → parse_queue_id queue ≡ ok h.queue_id
    → parse_size last ≡ ok h.last_seq
    → ltb h.last_seq 1 ≡ false
    → parse_digest receipt ≡ ok receipt
    → parse_size generation ≡ ok h.generation
    → parse_digest init ≡ ok h.init_sha256
    → parse_path_text worktree ≡ ok h.primary_worktree
    → parse_digest version ≡ ok h.version_sha256
    → read_head (
        in_order (
          object (
            (txt "profile", str profile_head)
            ∷ (txt "queueId", str queue)
            ∷ (txt "lastSeq", str last)
            ∷ (txt "lastReceiptSha256", str receipt)
            ∷ (txt "generation", str generation)
            ∷ (txt "initSha256", str init)
            ∷ (txt "primaryWorktree", str worktree)
            ∷ (txt "versionSha256", str version)
            ∷ [])))
      ≡ ok (record h { last_receipt_sha256 = some receipt })
unfolding read_head in_order insert_member text_ltb text_eq object closed get set check_profile
    field
read_fields h queue last receipt generation init worktree version q l few r g i w v =
    rw (q, l, r, g, i, w, v, few) refl

read_head-head_value : (h : Head) → IsHead h → read_head (in_order (head_value h)) ≡ ok h
unfolding head_value
read_head-head_value h i = rw i.receipt (
    read_fields h h.queue_id.raw (count_of h.last_seq) i.last (count_of h.generation) h.init_sha256
      h.primary_worktree h.version_sha256 i.queue (parse_size-count_of h.last_seq i.seq_bound)
      (le→not_ltb 1 h.last_seq i.seq) i.last_digest
      (parse_size-count_of h.generation i.generation_bound) i.init_digest i.worktree
      i.version_digest)

pub decode_head-head_value : (h : Head) → IsHead h → decode_head (encode_file (head_value h)) ≡ ok h
unfolding decode_head
decode_head-head_value h i =
    rw
      (
        le→not_ltb (length (encode_file (head_value h))) max_journal_head_bytes i.short,
        parse_document-encode_file (head_value h) i.readable,
      )
      (read_head-head_value h i)
