-- ===== src/Snapshot/Descriptor/RoundTrip.antt =====
-- The encoding of a stage descriptor, as internal/snapshot/stage.go writes and reads it.
use corvint_tasks.Base.{
  ◌≤◌, ◌<◌, ◌^◌, ◌≡◌, refl, sym, ap, ◌∙◌, arith, true, Option, none, some, List, [], ◌∷◌,
  le→not_ltb, length, length-map, any, map, All,
}
use mathlib.Core.Path.{subst}
use corvint_tasks.Text.{Text, txt, text_eq, text_ltb, text_eq_refl}
use corvint_tasks.Wire.Code.{ok}
use corvint_tasks.Wire.Decimal.{count_of, parse_size}
use corvint_tasks.Wire.Decimal.RoundTrip.{parse_size-count_of}
use corvint_tasks.Wire.Primitives.{Digest, parse_digest, parse_identifier}
use corvint_tasks.Wire.Clock.{parse_timestamp}
use corvint_tasks.Wire.Ids.{QueueId, parse_queue_id}
use corvint_tasks.Wire.Value.{Value, Values, arr, nil, cons, str, null, array, object, get, set}
use corvint_tasks.Wire.Encode.{encode_file}
use corvint_tasks.Wire.Parse.Order.{in_order, insert_member}
use corvint_tasks.Wire.Reader.{
  parse_document, closed, field, check_profile, read_enum, read_array, read_each, or_null, listed,
}
use corvint_tasks.Snapshot.Stage.{
  StageBase, Description, Descriptor, max_stage_descriptor_bytes, stage_limits,
}
use corvint_tasks.Snapshot.Paths.{request_path}
use corvint_tasks.Snapshot.Shape.{shape}
use corvint_tasks.Snapshot.Shape.Bounds.{shape-IsShaped}
use corvint_tasks.Snapshot.Head.RoundTrip.{IsReadable, defaults, parse_document-encode_file}
use corvint_tasks.Wire.Parse.Order.Kept.{encode_file-in_order}
use corvint_tasks.Snapshot.Descriptor.{
  profile_stage, stage_operations, stage_roles, base_value, description_value, descriptor_value,
  read_base, read_description, read_descriptor, decode_descriptor, encode_descriptor,
}

-- A base and an artifact whose fields the readers accept.
pub record IsBase (b : StageBase) : Type 0 where
  pub seq_bound : b.last_seq < 2 ^ 64
  pub last_digest : parse_digest b.last_receipt_sha256 ≡ ok b.last_receipt_sha256

pub record IsDescription (a : Description) : Type 0 where
  pub role : any (text_eq a.role) stage_roles ≡ true
  pub target : parse_identifier a.target ≡ ok a.target
  pub digest : parse_digest a.sha256 ≡ ok a.sha256
  pub size_bound : a.bytes < 2 ^ 64

abbrev pub IsBaseOrNone : Option StageBase → Type 0
IsBaseOrNone none = Unit
IsBaseOrNone (some b) = IsBase b

base_fields :
    (b : StageBase) (seq sha : Text)
    → parse_size seq ≡ ok b.last_seq
    → parse_digest sha ≡ ok b.last_receipt_sha256
    → read_base
        (in_order (object ((txt "lastSeq", str seq) ∷ (txt "lastReceiptSha256", str sha) ∷ [])))
      ≡ ok b
unfolding read_base in_order insert_member text_ltb text_eq object closed get set field
base_fields b seq sha s d = rw (s, d) refl

read_base-base_value :
    (o : Option StageBase) → IsBaseOrNone o → or_null read_base (in_order (base_value o)) ≡ ok o
unfolding base_value in_order object set insert_member
read_base-base_value none i = refl
read_base-base_value (some b) i =
    rw
      (base_fields b (count_of b.last_seq) b.last_receipt_sha256
        (parse_size-count_of b.last_seq i.seq_bound) i.last_digest)
      refl

description_fields :
    (a : Description) (sha bytes : Text)
    → any (text_eq a.role) stage_roles ≡ true
    → parse_identifier a.target ≡ ok a.target
    → parse_digest sha ≡ ok a.sha256
    → parse_size bytes ≡ ok a.bytes
    → read_description (
        in_order (
          object (
            (txt "slot", str a.slot)
            ∷ (txt "role", str a.role)
            ∷ (txt "target", str a.target)
            ∷ (txt "sha256", str sha)
            ∷ (txt "bytes", str bytes)
            ∷ [])))
      ≡ ok a
unfolding read_description in_order insert_member text_ltb text_eq object closed get set field
    read_enum
description_fields a sha bytes r t d s = rw (r, t, d, s) refl

read_description-description_value :
    (a : Description) → IsDescription a → read_description (in_order (description_value a)) ≡ ok a
unfolding description_value
read_description-description_value a i =
    description_fields a a.sha256 (count_of a.bytes) i.role i.target i.digest
      (parse_size-count_of a.bytes i.size_bound)

-- One more element in front of an array.
abbrev put_first : Value → Value → Value
put_first v (arr ws) = arr (cons v ws)
put_first v _ = null

in_order-array : (vs : List Value) → in_order (array vs) ≡ array (map in_order vs)
unfolding array in_order
in_order-array [] = refl
in_order-array (v ∷ vs) = ap (λ w. put_first (in_order v) w) (in_order-array vs)

array_parts : (vs : List Value) → (ws : Values) × (array vs ≡ arr ws) × (listed ws ≡ vs)
unfolding array
array_parts [] = (nil, refl, refl)
array_parts (v ∷ vs) =
    let (ws, made, kept) = array_parts vs in
    (cons v ws, ap (λ w. put_first v w) made, ap (λ us. v ∷ us) kept)

read_array-array : (vs : List Value) → length vs ≤ 11 → read_array (some 11) true (array vs) ≡ ok vs
unfolding read_array
read_array-array vs few =
    let (ws, made, kept) = array_parts vs in
    rw (made, read_array, kept, le→not_ltb (length vs) 11 few) refl

read_each-artifacts :
    (ds : List Description)
    → All IsDescription ds
    → read_each read_description (map in_order (map description_value ds)) ≡ ok ds
unfolding read_each
read_each-artifacts [] all = refl
read_each-artifacts (a ∷ ds) (here, all) =
    rw (read_description-description_value a here, read_each-artifacts ds all) refl

-- The readers of a descriptor on its fields, in whatever way they are written.
descriptor_fields :
    (d : Descriptor) (queue : QueueId) (request sha : Text) (base artifacts : Value)
    (items : List Value)
    → parse_queue_id d.queue_id ≡ ok queue
    → queue.raw ≡ d.queue_id
    → any (text_eq d.operation) stage_operations ≡ true
    → parse_digest sha ≡ ok d.request_sha256
    → parse_timestamp request ≡ ok d.recorded_at
    → or_null read_base (in_order base) ≡ ok d.base
    → read_array (some 11) true (in_order artifacts) ≡ ok items
    → read_each read_description items ≡ ok d.artifacts
    → read_descriptor (
        in_order (
          object (
            (txt "profile", str profile_stage)
            ∷ (txt "queueId", str d.queue_id)
            ∷ (txt "operation", str d.operation)
            ∷ (txt "requestId", str d.request_id)
            ∷ (txt "requestSha256", str sha)
            ∷ (txt "recordedAt", str request)
            ∷ (txt "base", base)
            ∷ (txt "artifacts", artifacts)
            ∷ [])))
      ≡ ok d
unfolding read_descriptor in_order insert_member text_ltb text_eq object closed get set field
    read_enum check_profile
descriptor_fields d queue request sha base artifacts items q raw op s t b a e =
    rw (q, raw, op, s, t, b, a, e) refl

-- A descriptor whose fields the readers accept, with a shape, a request path and a file within
-- the lengths of its operation and of all descriptors.
pub record IsDescriptor (sum : Text → Digest) (d : Descriptor) : Type 0 where
  pub id : QueueId
  pub queue : parse_queue_id d.queue_id ≡ ok id
  pub raw : id.raw ≡ d.queue_id
  pub operation : any (text_eq d.operation) stage_operations ≡ true
  pub request_digest : parse_digest d.request_sha256 ≡ ok d.request_sha256
  pub recorded : parse_timestamp d.recorded_at ≡ ok d.recorded_at
  pub base : IsBaseOrNone d.base
  pub artifacts : All IsDescription d.artifacts
  pub name : Text
  pub request : request_path sum d.request_id ≡ ok name
  pub shaped : shape sum d ≡ ok tt
  pub readable : IsReadable (descriptor_value d)
  pub short : length (encode_file (descriptor_value d)) ≤ (stage_limits d.operation).1
  pub below : length (encode_file (descriptor_value d)) ≤ max_stage_descriptor_bytes

few_artifacts : (op : Text) → (stage_limits op).0 ≤ 11
unfolding stage_limits
few_artifacts op = ground arith

read_descriptor-descriptor_value :
    (sum : Text → Digest) (d : Descriptor)
    → IsDescriptor sum d
    → read_descriptor (in_order (descriptor_value d)) ≡ ok d
unfolding descriptor_value
read_descriptor-descriptor_value sum d i =
    let values = map description_value d.artifacts in
    let few : length (map in_order values) ≤ 11 = omega (
      arith,
      length-map in_order values,
      length-map description_value d.artifacts,
      (shape-IsShaped sum d i.shaped).few,
      few_artifacts d.operation,
    ) in
    descriptor_fields d i.id d.recorded_at d.request_sha256 (base_value d.base) (array values)
      (map in_order values) i.queue i.raw i.operation i.request_digest i.recorded
      (read_base-base_value d.base i.base)
      (ap (λ v. read_array (some 11) true v) (in_order-array values)
        ∙ read_array-array (map in_order values) few)
      (read_each-artifacts d.artifacts i.artifacts)

decode_file :
    (sum : Text → Digest) (d : Descriptor)
    → IsDescriptor sum d
    → (text : Text) → text ≡ encode_file (descriptor_value d)
    → decode_descriptor sum text ≡ ok d
unfolding decode_descriptor
decode_file sum d i text file =
    let v = descriptor_value d in
    let parsed : parse_document text ≡ ok (in_order v) =
      ap parse_document file ∙ parse_document-encode_file v i.readable in
    let same : encode_file (in_order v) ≡ text =
      encode_file-in_order defaults v i.readable.within ∙ sym file in
    let below : length text ≤ max_stage_descriptor_bytes =
      subst (λ t. length t ≤ max_stage_descriptor_bytes) (sym file) i.below in
    let short : length text ≤ (stage_limits d.operation).1 =
      subst (λ t. length t ≤ (stage_limits d.operation).1) (sym file) i.short in
    rw
      (
        le→not_ltb (length text) max_stage_descriptor_bytes below,
        parsed,
        same,
        text_eq_refl text,
        read_descriptor-descriptor_value sum d i,
        i.request,
        i.shaped,
        le→not_ltb (length text) (stage_limits d.operation).1 short,
      )
      refl

-- DecodeStageDescriptor reads back the file that a stage descriptor is written to, and Encode
-- writes it, for a descriptor whose fields the readers accept, which has a request path and the
-- shape of its operation, whose value is within the bounds of the parser and whose file is as
-- short as the operation and the bound of all descriptors demand.
pub decode_descriptor-descriptor_value :
    (sum : Text → Digest) (d : Descriptor)
    → IsDescriptor sum d
    → (decode_descriptor sum (encode_file (descriptor_value d)) ≡ ok d)
      × (encode_descriptor sum d ≡ ok (encode_file (descriptor_value d)))
unfolding encode_descriptor
decode_descriptor-descriptor_value sum d i =
    let back = decode_file sum d i (encode_file (descriptor_value d)) refl in (back, rw back refl)
