-- ===== src/Wire/Primitives.antt =====
-- internal/wire/primitives.go: digests, bounded texts, tokens and repository paths. Each function
-- returns the string that it was given, or the code of its first error.
use corvint_tasks.Base.{
  ℕ, Bool, true, false, ◌&&◌, ◌||◌, [], ◌∷◌, ltb, leb, ◌==◌, if◌then◌else◌, length, all, any,
}
use corvint_tasks.Text.{Text, txt, text_eq, ends_with_byte, drop_last, split, map_lower}
use corvint_tasks.Wire.Code.{Result, ok, err, malformed, limit_exceeded, require, refuse_if, ◌>>◌}
use corvint_tasks.Wire.Limits.{max_identifier_bytes, max_label_bytes, max_path_text_bytes}
use corvint_tasks.Wire.Utf8.{check_hostile}

-- Digest, 64 lowercase hexadecimal characters once validated
abbrev pub Digest : Type 0
Digest = Text

abbrev is_hex_byte : ℕ → Bool
is_hex_byte c = (leb b'0' c && leb c b'9') || (leb b'a' c && leb c b'f')

unfoldable pub is_lower_hex : Text → Bool
is_lower_hex s = all is_hex_byte s

unfoldable pub parse_digest : Text → Result Digest
unfolding is_lower_hex
parse_digest s = if (length s == 64) && is_lower_hex s then ok s else err malformed

unfoldable pub parse_oid : Text → Result Text
unfolding is_lower_hex
parse_oid s =
    if ((length s == 40) || (length s == 64)) && is_lower_hex s then ok s else err malformed

unfoldable pub parse_text : Text → ℕ → ℕ → Bool → Result Text
unfolding check_hostile
parse_text s min max allow_tab_lf_cr = do
  refuse_if (ltb (length s) min) malformed
  refuse_if (ltb max (length s)) limit_exceeded
  check_hostile s allow_tab_lf_cr
  ok s

unfoldable pub parse_identifier : Text → Result Text
unfolding parse_text
parse_identifier s = parse_text s 1 max_identifier_bytes false

unfoldable pub parse_label : Text → Result Text
unfolding parse_text
parse_label s = parse_text s 1 max_label_bytes false

unfoldable pub parse_prose : Text → ℕ → ℕ → Result Text
unfolding parse_text
parse_prose s min max = parse_text s min max true

abbrev starts_with_slash : Text → Bool
starts_with_slash [] = false
starts_with_slash (c ∷ s) = c == b'/'

unfoldable pub parse_path_text : Text → Result Text
unfolding check_hostile
parse_path_text s = do
  refuse_if (ltb (length s) 1) malformed
  refuse_if (ltb max_path_text_bytes (length s)) limit_exceeded
  check_hostile s false
  require (starts_with_slash s) malformed
  ok s

unfoldable pub is_token_byte : ℕ → Bool → Bool
is_token_byte c first =
    if (leb b'A' c && leb c b'Z') || (leb b'a' c && leb c b'z') || (leb b'0' c && leb c b'9')
    then true
    else if first
    then false
    else (c == b'.') || (c == b'_') || (c == b'-')

-- The loop of ParseToken over a non-empty string: only the byte at index 0 is the first one.
abbrev token_bytes : Text → Bool
token_bytes [] = true
token_bytes (c ∷ s) = is_token_byte c true && all (λ d. is_token_byte d false) s

unfoldable pub parse_token : Text → ℕ → Result Text
unfolding is_token_byte
parse_token s max = do
  refuse_if (text_eq s []) malformed
  refuse_if (ltb max (length s)) limit_exceeded
  require (token_bytes s) malformed
  ok s

-- FoldToken: what it folds are tokens, which are ASCII
unfoldable pub fold_token : Text → Text
fold_token s = map_lower s

-- A trailing '/' is cut before the segments are checked.
unfoldable pub path_body : Text → Text
path_body s = if ends_with_byte b'/' s then drop_last s else s

abbrev bad_segment : Text → Bool
bad_segment segment =
    text_eq segment [] || (text_eq segment (txt ".") || text_eq segment (txt ".."))

-- ParsePath
unfoldable pub parse_path : Text → Result Text
unfolding check_hostile path_body
parse_path s = do
  refuse_if (text_eq s []) malformed
  refuse_if (ltb 512 (length s)) limit_exceeded
  check_hostile s false
  refuse_if (any (λ c. (c == 92) || (c == 0x7F)) s) malformed
  refuse_if (starts_with_slash s) malformed
  refuse_if (any bad_segment (split b'/' (path_body s))) malformed
  ok s
