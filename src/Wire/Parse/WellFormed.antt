-- ===== src/Wire/Parse/WellFormed.antt =====
-- What internal/wire/encode.go writes passes the checks that ParseWith of internal/wire/parse.go makes on
-- the bytes of a document.
use corvint_tasks.Base.{
  ℕ, suc, ◌≡◌, refl, sym, ap, ◌∙◌, Bool, true, false, not, [], ◌∷◌, ◌++◌, append_assoc, append_nil,
  ◌≤◌, ◌+◌, arith,
}
use corvint_tasks.Text.{
  Text, text_eq, text_eq_refl, has_prefix, ends_with_byte, drop_last, drop_last-append_byte,
  ends_with_byte-append,
}
use corvint_tasks.Wire.Code.{malformed}
use corvint_tasks.Wire.Utf8.{valid_from, valid_utf8}
use corvint_tasks.Wire.Value.{Value, Values, Members, null, bool, arr, obj, nil, cons, end, member}
use corvint_tasks.Wire.Encode.{encode, encode_elements, encode_file, encode_string}
use corvint_tasks.Wire.Encode.Valid.{valid_ascii, valid_from-AllAscii, encode_string_valid}
use corvint_tasks.Wire.Scan.{Options}
use corvint_tasks.Wire.Parsed.{parsed, >>=-parsed, expect-true}
use corvint_tasks.Wire.Parse.{
  any_value, set_defaults, begin, fuel_for, byte_order_mark, parse_with, is_wide,
}
use corvint_tasks.Wire.Parse.Shape.{size, IsWithin, AllWithin, MembersWithin}
use corvint_tasks.Wire.Parse.Canonical.{
  IsOrdered, AllOrdered, MembersOrdered, encode_ordered, encode-obj,
}
use corvint_tasks.Wire.Parse.Reads.{at, at_state, wide_after}
use corvint_tasks.Wire.Parse.RoundTrip.{any_value-encode}

-- Behind the encoding of a value that is within the bounds, well-formed text is well-formed.
mutual
  unfolding encode IsWithin AllWithin MembersWithin IsOrdered AllOrdered MembersOrdered
      encode_ordered

  valid_value :
      (o : Options) (depth : ℕ) (wide : Bool) (v : Value) (t : Text)
      → IsWithin o depth wide v
      → IsOrdered v
      → valid_from 0 t ≡ true
      → valid_from 0 (encode v ++ t) ≡ true
  valid_value o depth wide null t within ordered rest =
      valid_from-AllAscii (encode null) t (refl, (refl, (refl, (refl, tt)))) ∙ rest
  valid_value o depth wide (bool true) t within ordered rest =
      valid_from-AllAscii (encode (bool true)) t (refl, (refl, (refl, (refl, tt)))) ∙ rest
  valid_value o depth wide (bool false) t within ordered rest =
      valid_from-AllAscii (encode (bool false)) t (refl, (refl, (refl, (refl, (refl, tt))))) ∙ rest
  valid_value o depth wide (Value.str s) t within ordered rest = encode_string_valid s t within rest
  valid_value o depth wide (arr vs) t (_, _, within) ordered rest =
      valid_ascii b'[' ((encode_elements vs ++ b']' ∷ []) ++ t) refl
      ∙ (ap (valid_from 0) (append_assoc (encode_elements vs) (b']' ∷ []) t)
          ∙ valid_elements o (suc depth) vs (b']' ∷ t) within ordered
              (valid_ascii b']' t refl ∙ rest))
  valid_value o depth wide (obj ms) t (_, within) ordered rest =
      ap (λ u. valid_from 0 (u ++ t)) (encode-obj ms ordered)
      ∙ (valid_ascii b'{' ((encode_ordered ms ++ b'}' ∷ []) ++ t) refl
          ∙ (ap (valid_from 0) (append_assoc (encode_ordered ms) (b'}' ∷ []) t)
              ∙ valid_members o (suc depth) ms (b'}' ∷ t) within ordered
                  (valid_ascii b'}' t refl ∙ rest)))

  valid_elements :
      (o : Options) (depth : ℕ) (vs : Values) (t : Text)
      → AllWithin o depth vs
      → AllOrdered vs
      → valid_from 0 t ≡ true
      → valid_from 0 (encode_elements vs ++ t) ≡ true
  valid_elements o depth nil t within ordered rest = rest
  valid_elements o depth (cons v nil) t (here, _) (ordered, _) rest =
      valid_value o depth false v t here ordered rest
  valid_elements o depth (cons v (cons w vs)) t (here, all) (ordered, tail) rest =
      let s = encode_elements (cons w vs) ++ t in
      ap (valid_from 0) (append_assoc (encode v) (b',' ∷ encode_elements (cons w vs)) t)
      ∙ valid_value o depth false v (b',' ∷ s) here ordered
          (valid_ascii b',' s refl ∙ valid_elements o depth (cons w vs) t all tail rest)

  valid_members :
      (o : Options) (depth : ℕ) (ms : Members) (t : Text)
      → MembersWithin o depth ms
      → MembersOrdered ms
      → valid_from 0 t ≡ true
      → valid_from 0 (encode_ordered ms ++ t) ≡ true
  valid_members o depth end t within ordered rest = rest
  valid_members o depth (member k v end) t (clean, _, here, _) (_, ordered, _) rest =
      ap (valid_from 0) (append_assoc (encode_string k) (b':' ∷ encode v) t)
      ∙ encode_string_valid k (b':' ∷ (encode v ++ t)) clean (
          valid_ascii b':' (encode v ++ t) refl
          ∙ valid_value o depth (is_wide o depth k) v t here ordered rest)
  valid_members o depth (member k v (member j w ms)) t (clean, _, here, all) (_, ordered, tail)
        rest =
      let s = encode_ordered (member j w ms) ++ t in
      ap (valid_from 0) (
        append_assoc (encode_string k)
          (b':' ∷ (encode v ++ (b',' ∷ encode_ordered (member j w ms)))) t)
      ∙ encode_string_valid k (b':' ∷ ((encode v ++ (b',' ∷ encode_ordered (member j w ms))) ++ t))
          clean
          (valid_ascii b':' ((encode v ++ (b',' ∷ encode_ordered (member j w ms))) ++ t) refl
            ∙ (ap (valid_from 0) (append_assoc (encode v) (b',' ∷ encode_ordered (member j w ms)) t)
                ∙ valid_value o depth (is_wide o depth k) v (b',' ∷ s) here ordered (
                    valid_ascii b',' s refl
                    ∙ valid_members o depth (member j w ms) t all tail rest)))

-- The encoding of a value starts with none of the bytes of the mark, and is not empty.
starts_plainly :
    (v : Value) (t : Text)
    → (not (text_eq (encode v ++ t) []) ≡ true)
      × (not (has_prefix (encode v ++ t) byte_order_mark) ≡ true)
unfolding encode encode_string text_eq has_prefix
starts_plainly null t = (refl, refl)
starts_plainly (bool true) t = (refl, refl)
starts_plainly (bool false) t = (refl, refl)
starts_plainly (Value.str s) t = (refl, refl)
starts_plainly (arr vs) t = (refl, refl)
starts_plainly (obj ms) t = (refl, refl)

-- An ordered value that is within the bounds is read back from its file.
pub parse_with-encode_file_ordered :
    (o : Options) (v : Value)
    → IsWithin (set_defaults o) 0 false v
    → IsOrdered v
    → size v ≤ (set_defaults o).max_nodes
    → parse_with (encode_file v) o ≡ parsed v
unfolding parse_with encode_file valid_utf8
parse_with-encode_file_ordered o v within ordered few =
    let s = set_defaults o in
    let text = encode v ++ 10 ∷ [] in
    let (some_bytes, no_mark) = starts_plainly v (10 ∷ []) in
    let body = drop_last-append_byte 10 (encode v) in
    expect-true (not (text_eq text [])) malformed _ _ some_bytes (
      expect-true (valid_from 0 text) malformed _ _
        (valid_value s 0 false v (10 ∷ []) within ordered (valid_ascii 10 [] refl))
        (expect-true (not (has_prefix text byte_order_mark)) malformed _ _ no_mark (
          expect-true (ends_with_byte 10 text) malformed _ _ (ends_with_byte-append 10 (encode v)) (
            >>=-parsed (any_value (fuel_for (drop_last text)) s (begin (drop_last text))) _
              (v, at [] 0 (size v) (wide_after v false)) _
              (ap (λ b. any_value (fuel_for b) s (begin b)) body
                ∙ (any_value-encode (fuel_for (encode v)) s v (encode v) [] 0 0 false
                      (sym (append_nil (encode v))) (omega arith) within ordered
                      (omega (arith, few))
                    ∙ at_state v [] 0 0 (0 + size v) (size v) _ _ refl (omega arith) refl))
              (expect-true (text_eq (encode v) (drop_last text)) malformed _ _
                (rw body (text_eq_refl (encode v))) refl)))))
