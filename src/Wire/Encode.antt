-- ===== src/Wire/Encode.antt =====
-- internal/wire/encode.go: the canonical encoding.
pub mod Bytewise
pub mod Injective
pub mod Valid
use corvint_tasks.Base.{
  ℕ, zero, suc, ◌+◌, ◌-◌, ◌/◌, ◌%◌, true, false, List, [], ◌∷◌, ◌++◌, ltb, ◌==◌, if◌then◌else◌,
}
use corvint_tasks.Text.{Text, txt, text_ltb}
use corvint_tasks.Wire.Utf8.{decode_rune}
use corvint_tasks.Wire.Value.{
  Value, Values, Members, null, bool, str, arr, obj, nil, cons, end, member,
}

-- hexdigits
abbrev pub hex_digit : ℕ → ℕ
hex_digit n = if ltb n 10 then b'0' + n else b'a' + (n - 10)

-- What appendString writes of one byte below utf8.RuneSelf.
unfoldable pub escape_byte : ℕ → Text
escape_byte c =
    if c == 34
    then 92 ∷ 34 ∷ []
    else if c == 92
    then 92 ∷ 92 ∷ []
    else if c == 9
    then 92 ∷ b't' ∷ []
    else if c == 10
    then 92 ∷ b'n' ∷ []
    else if c == 13
    then 92 ∷ b'r' ∷ []
    else if ltb c 0x20
    then 92 ∷ b'u' ∷ b'0' ∷ b'0' ∷ hex_digit (c / 16) ∷ hex_digit (c % 16) ∷ []
    else c ∷ []

-- The loop of appendString. A rune of more than one byte is copied whole: `skip` counts the bytes of
-- the current rune that are still to be copied.
unfoldable pub escape_from : ℕ → Text → Text
unfolding escape_byte decode_rune
escape_from skip [] = []
escape_from (suc skip) (c ∷ s) = c ∷ escape_from skip s
escape_from zero (c ∷ s) =
    let ascii = escape_from 0 s in
    let wide = escape_from ((decode_rune (c ∷ s)).1 - 1) s in
    if ltb c 0x80 then escape_byte c ++ ascii else c ∷ wide

-- appendString
unfoldable pub encode_string : Text → Text
unfolding escape_from
encode_string s = 34 ∷ (escape_from 0 s ++ 34 ∷ [])

-- sort.Strings on the keys of an object, here with the encoded members that they bring along
unfoldable pub insert_key : Text × Text → List (Text × Text) → List (Text × Text)
insert_key (k, e) [] = (k, e) ∷ []
insert_key (k, e) ((j, f) ∷ rest) =
    if text_ltb j k then (j, f) ∷ insert_key (k, e) rest else (k, e) ∷ (j, f) ∷ rest

unfoldable pub sort_keys : List (Text × Text) → List (Text × Text)
unfolding insert_key
sort_keys [] = []
sort_keys (m ∷ ms) = insert_key m (sort_keys ms)

unfoldable pub join_members : List (Text × Text) → Text
unfolding encode_string
join_members [] = []
join_members ((k, e) ∷ []) = encode_string k ++ (b':' ∷ e)
join_members ((k, e) ∷ m ∷ ms) = encode_string k ++ (b':' ∷ (e ++ (b',' ∷ join_members (m ∷ ms))))

-- Encode: appendValue on an empty buffer
unfoldable mutual
  unfolding encode_string sort_keys join_members

  pub encode : Value → Text
  encode null = txt "null"
  encode (bool true) = txt "true"
  encode (bool false) = txt "false"
  encode (str s) = encode_string s
  encode (arr vs) = b'[' ∷ (encode_elements vs ++ b']' ∷ [])
  encode (obj ms) = b'{' ∷ (join_members (sort_keys (encode_members ms)) ++ b'}' ∷ [])

  pub encode_elements : Values → Text
  encode_elements nil = []
  encode_elements (cons v nil) = encode v
  encode_elements (cons v (cons w vs)) = encode v ++ (b',' ∷ encode_elements (cons w vs))

  pub encode_members : Members → List (Text × Text)
  encode_members end = []
  encode_members (member k v ms) = (k, encode v) ∷ encode_members ms

-- EncodeFile
unfoldable pub encode_file : Value → Text
unfolding encode
encode_file v = encode v ++ 10 ∷ []
