-- ===== src/Examples/Parse.antt =====
-- The parser at concrete documents.
use corvint_tasks.Base.{◌≡◌, ◌≢◌, ◌≤◌, ◌↔◌, refl, arith, Bool, true, [], ◌∷◌, ◌++◌}
use corvint_tasks.Text.{Text, txt, text_eq}
use corvint_tasks.Wire.Code.{malformed}
use corvint_tasks.Wire.Utf8.{check_hostile}
use corvint_tasks.Wire.Value.{Value, null, bool, str, arr, obj, nil, cons, end, member, get}
use corvint_tasks.Wire.Encode.{encode_file}
use corvint_tasks.Wire.Parsed.{parsed, failed, out_of_fuel, IsParseCode}
use corvint_tasks.Wire.Scan.{Options}
use corvint_tasks.Wire.Parse.{parse_with, set_defaults, array_bound, is_wide, count}
use corvint_tasks.Wire.Parse.Shape.{IsWithin, size}
use corvint_tasks.Wire.Parse.Order.{in_order}
use corvint_tasks.Wire.Parse.Order.Kept.{parse_with-encode_file}
use corvint_tasks.Wire.Parse.Accepts.{parse_with_returns, parse_with_refuses, parse_with_iff}

abbrev options : Options
options = record { wide_array_key = txt "files"; wide_array_max = 3; max_nodes = 9 }

-- A text with an escape and with a code point of two bytes.
abbrev sample_text : Text
sample_text = 34 ∷ 10 ∷ 0xC3 ∷ 0xA9 ∷ []

abbrev listed : Value
listed = arr (cons (str sample_text) (cons null nil))

abbrev unordered : Value
unordered = obj (member (txt "files") listed (member (txt "a") (bool true) end))

abbrev ordered : Value
ordered = obj (member (txt "a") (bool true) (member (txt "files") listed end))

abbrev document : Text
document = txt "{\"a\":true,\"files\":[\"\\\"\\n" ++ 0xC3 ∷ 0xA9 ∷ txt "\",null]}" ++ 10 ∷ []

abbrev swapped : Text
swapped = txt "{\"b\":null,\"a\":null}" ++ 10 ∷ []

unordered-IsWithin : IsWithin (set_defaults options) 0 Bool.false unordered
unfolding set_defaults IsWithin text_eq check_hostile array_bound is_wide count get
unordered-IsWithin =
    (omega arith, (refl, refl, (omega arith, omega arith, (refl, (tt, tt))), (refl, refl, tt, tt)))

unordered-size : size unordered ≤ (set_defaults options).max_nodes
unfolding set_defaults size
unordered-size = omega arith

parse_with-encode_file_example :
    parse_with (encode_file unordered) options ≡ parsed (in_order unordered)
parse_with-encode_file_example =
    parse_with-encode_file options unordered unordered-IsWithin unordered-size

parse_with_returns_example : parse_with swapped options ≢ out_of_fuel
parse_with_returns_example = parse_with_returns swapped options

swapped_refused : parse_with swapped options ≡ failed malformed
unfolding parse_with
swapped_refused = refl

parse_with_refuses_example : IsParseCode malformed
parse_with_refuses_example = parse_with_refuses swapped options malformed swapped_refused

document-parsed : parse_with document options ≡ parsed ordered
unfolding parse_with
document-parsed = refl

parse_with_iff_example : (parse_with document options ≡ parsed ordered) ↔ (
    IsWithin (set_defaults options) 0 Bool.false ordered
    × (size ordered ≤ (set_defaults options).max_nodes)
    × (in_order ordered ≡ ordered)
    × (encode_file ordered ≡ document))
parse_with_iff_example = parse_with_iff document options ordered
