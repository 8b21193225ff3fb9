-- ===== src/Wire/Reader.antt =====
-- internal/wire/reader.go: the reader of a parsed value. The first failure is kept and every later call
-- gives a zero value, so that the code of a decoder is that of its first failure: a call of the
-- reader is a Result, and a decoder is a chain of them. The place of a reader, which only messages tell,
-- is left out.
use corvint_tasks.Base.{
  ℕ, Bool, true, false, ◌&&◌, Option, none, some, List, [], ◌∷◌, ltb, length, any, all, is_some,
  if◌then◌else◌, take, ◌-◌,
}
use corvint_tasks.Text.{Text, text_eq, has_prefix}
use corvint_tasks.Wire.Code.{
  Result, ok, err, malformed, limit_exceeded, unsupported_version, require, refuse_if, ◌>>=◌, ◌>>◌,
}
use corvint_tasks.Wire.Parsed.{out_of_fuel, failed, parsed}
use corvint_tasks.Wire.Parse.{parse}
use corvint_tasks.Wire.Decimal.{Count, Size, parse_count, parse_size}
use corvint_tasks.Wire.Primitives.{
  Digest, parse_digest, parse_oid, parse_identifier, parse_path_text, parse_label, parse_prose,
  parse_path,
}
use corvint_tasks.Wire.Clock.{Timestamp, parse_timestamp}
use corvint_tasks.Wire.Ids.{TicketId, QueueId, parse_ticket_id, parse_queue_id}
use corvint_tasks.Wire.Value.{
  Value, Values, Members, null, bool, str, arr, obj, nil, cons, end, member, get,
}
use corvint_tasks.Wire.Sorted.{check_sorted_unique}

-- The elements of an array.
abbrev pub listed : Values → List Value
listed nil = []
listed (cons v vs) = v ∷ listed vs

-- Object.Keys
abbrev pub keys_of : Members → List Text
keys_of end = []
keys_of (member k v ms) = k ∷ keys_of ms

-- Parse, of which it is shown that it has a result
unfoldable pub parse_document : Text → Result Value
unfolding parse
parse_document text = elim (parse text) [
  | out_of_fuel ↦ err malformed
  | failed code ↦ err code
  | parsed v ↦ ok v
]

-- Reader.Closed
unfoldable pub closed : List Text → Value → Result (Unit {0})
unfolding get text_eq
closed keys (obj ms) =
    require (all (λ k. is_some (get ms k)) keys && all (λ k. any (text_eq k) keys) (keys_of ms))
      malformed
closed keys _ = err malformed

-- Reader.Field
unfoldable pub field : Text → Value → Result Value
unfolding get
field key (obj ms) = elim (get ms key) [ none ↦ err malformed | some v ↦ ok v ]
field key _ = err malformed

-- Reader.IsNull
abbrev pub is_null : Value → Bool
is_null null = true
is_null _ = false

-- Reader.String
abbrev pub read_string : Value → Result Text
read_string (str s) = ok s
read_string _ = err malformed

-- Reader.Bool
abbrev pub read_bool : Value → Result Bool
read_bool (bool b) = ok b
read_bool _ = err malformed

-- Reader.Enum
unfoldable pub read_enum : List Text → Value → Result Text
unfolding text_eq
read_enum allowed v = do s ← read_string v; require (any (text_eq s) allowed) malformed; ok s

-- Reader.Exact
abbrev pub read_exact : Text → Value → Result Text
read_exact want v = read_enum (want ∷ []) v

-- What Count, Size, Digest and their like share: a string that a parser accepts.
abbrev pub read_with {ℓ} : {A : Type ℓ} → (Text → Result A) → Value → Result A
read_with parser v = do s ← read_string v; parser s

-- Reader.Count
abbrev pub read_count : Value → Result Count
read_count v = read_with parse_count v

-- Reader.Size
abbrev pub read_size : Value → Result Size
read_size v = read_with parse_size v

-- Reader.Digest
abbrev pub read_digest : Value → Result Digest
read_digest v = read_with parse_digest v

-- Reader.OID
abbrev pub read_oid : Value → Result Text
read_oid v = read_with parse_oid v

-- Reader.Identifier
abbrev pub read_identifier : Value → Result Text
read_identifier v = read_with parse_identifier v

-- Reader.PathText
abbrev pub read_path_text : Value → Result Text
read_path_text v = read_with parse_path_text v

-- Reader.Label
abbrev pub read_label : Value → Result Text
read_label v = read_with parse_label v

-- Reader.Prose
abbrev pub read_prose : ℕ → ℕ → Value → Result Text
read_prose min max v = read_with (λ s. parse_prose s min max) v

-- Reader.Path
abbrev pub read_path : Value → Result Text
read_path v = read_with parse_path v

-- Reader.Timestamp
abbrev pub read_timestamp : Value → Result Timestamp
read_timestamp v = read_with parse_timestamp v

-- Reader.TicketID
abbrev pub read_ticket_id : Value → Result TicketId
read_ticket_id v = read_with parse_ticket_id v

-- Reader.QueueID
abbrev pub read_queue_id : Value → Result QueueId
read_queue_id v = read_with parse_queue_id v

-- Reader.StringOrNull, and what the other readers of a value or null share
abbrev pub or_null {ℓ} : {A : Type ℓ} → (Value → Result A) → Value → Result (Option A)
or_null read null = ok none
or_null read v = do a ← read v; ok (some a)

-- Reader.DigestOrNull
abbrev pub read_digest_or_null : Value → Result (Option Digest)
read_digest_or_null v = or_null read_digest v

-- Reader.LabelOrNull
abbrev pub read_label_or_null : Value → Result (Option Text)
read_label_or_null v = or_null read_label v

-- Reader.ProseOrNull
abbrev pub read_prose_or_null : ℕ → Value → Result (Option Text)
read_prose_or_null max v = or_null (read_prose 0 max) v

-- Reader.TimestampOrNull
abbrev pub read_timestamp_or_null : Value → Result (Option Timestamp)
read_timestamp_or_null v = or_null read_timestamp v

-- Reader.CountOrNull
abbrev pub read_count_or_null : Value → Result (Option Count)
read_count_or_null v = or_null read_count v

-- Reader.SizeOrNull
abbrev pub read_size_or_null : Value → Result (Option Size)
read_size_or_null v = or_null read_size v

-- Reader.Array; a negative bound of the source is none.
unfoldable pub read_array : Option ℕ → Bool → Value → Result (List Value)
unfolding check_sorted_unique
read_array max semantic (arr vs) = do
  refuse_if (elim max [ none ↦ false | some n ↦ ltb n (length (listed vs)) ]) limit_exceeded
  if semantic then ok tt else check_sorted_unique (listed vs)
  ok (listed vs)
read_array max semantic _ = err malformed

-- Each element in turn, up to the first failure.
unfoldable pub read_each {ℓ} : {A : Type ℓ} → (Value → Result A) → List Value → Result (List A)
read_each read [] = ok []
read_each read (v ∷ vs) = do a ← read v; rest ← read_each read vs; ok (a ∷ rest)

-- Reader.Strings
unfoldable pub read_strings : Option ℕ → Bool → (Value → Result Text) → Value → Result (List Text)
unfolding read_array read_each
read_strings max semantic read v = do items ← read_array max semantic v; read_each read items

-- A field read by a reader.
abbrev pub read_field {ℓ} : {A : Type ℓ} → Text → (Value → Result A) → Value → Result A
read_field key read v = do w ← field key v; read w

-- CheckProfile; a profile of the source ends in the version `0`
unfoldable pub check_profile : Text → Text → Result (Unit {0})
unfolding text_eq has_prefix
check_profile got want =
    if text_eq got want
    then ok tt
    else if has_prefix got (take (length want - 1) want)
    then err unsupported_version
    else err malformed
