-- ===== src/Examples/Wire.antt =====
-- The encodings at concrete inputs.
use corvint_tasks.Base.{◌≡◌, ◌≤◌, refl, arith}
use corvint_tasks.Text.{txt}
use corvint_tasks.Wire.Code.{ok}
use corvint_tasks.Wire.Limits.{max_count_value}
use corvint_tasks.Wire.Decimal.{count_of, parse_count}
use corvint_tasks.Base.{[], ◌∷◌, ◌++◌}
use corvint_tasks.Wire.Encode.{encode_string}
use corvint_tasks.Wire.Encode.Bytewise.{escape_all, encode_string-escape_all}
use corvint_tasks.Wire.Encode.Injective.{encode_string_injective}
use corvint_tasks.Base.{◌↔◌, In, map, List, [], ◌∷◌}
use corvint_tasks.Text.{text_eq, text_ltb}
use corvint_tasks.Wire.Value.{Value, str}
use corvint_tasks.Wire.Encode.{encode}
use corvint_tasks.Wire.Sorted.{check_sorted_unique, sorted_elements}
use corvint_tasks.Wire.Sorted.Order.{
  IsAscending, check_sorted_unique_lem, sorted_elements-check_sorted_unique,
}
use corvint_tasks.Text.{split}
use corvint_tasks.Wire.Ids.{parse_ticket_id}
use corvint_tasks.Wire.Ids.RoundTrip.{IsTicketId, parse_ticket_id-IsTicketId}
use corvint_tasks.Samples.{sample_id}
use corvint_tasks.Wire.Decimal.RoundTrip.{parse_count-count_of, count_of-parse_count}

parse_count-count_of_example : parse_count (count_of 1234) ≡ ok 1234
parse_count-count_of_example = parse_count-count_of 1234 (omega arith)

parsed : parse_count (txt "905") ≡ ok 905
unfolding parse_count
parsed = refl

count_of-parse_count_example : (count_of 905 ≡ txt "905") × (905 ≤ max_count_value)
count_of-parse_count_example = count_of-parse_count (txt "905") 905 parsed

encode_string-escape_all_example :
    encode_string (txt "a\"b") ≡ 34 ∷ (escape_all (txt "a\"b") ++ 34 ∷ [])
encode_string-escape_all_example = encode_string-escape_all (txt "a\"b")

encoded_twice : encode_string (txt "a") ++ txt "x" ≡ encode_string (txt "a") ++ txt "x"
encoded_twice = refl

encode_string_injective_example : (txt "a" ≡ txt "a") × (txt "x" ≡ txt "x")
encode_string_injective_example =
    encode_string_injective (txt "a") (txt "a") (txt "x") (txt "x") encoded_twice

abbrev unsorted : List Value
unsorted = str (txt "b") ∷ str (txt "a") ∷ []

abbrev in_order : List Value
in_order = str (txt "a") ∷ str (txt "b") ∷ []

check_sorted_unique_lem_example :
    (check_sorted_unique in_order ≡ ok tt) ↔ IsAscending (map encode in_order)
check_sorted_unique_lem_example = check_sorted_unique_lem in_order

sorted_run : sorted_elements unsorted ≡ ok in_order
unfolding sorted_elements text_eq text_ltb encode
sorted_run = refl

sorted_elements-check_sorted_unique_example :
    (check_sorted_unique in_order ≡ ok tt) × ((x : Value) → In x in_order ↔ In x unsorted)
sorted_elements-check_sorted_unique_example =
    sorted_elements-check_sorted_unique unsorted in_order sorted_run

parsed_id : parse_ticket_id (txt "ticket:acme:main:A") ≡ ok (sample_id (txt "A"))
unfolding parse_ticket_id text_eq split
parsed_id = refl

parse_ticket_id-IsTicketId_example : IsTicketId (txt "ticket:acme:main:A") (sample_id (txt "A"))
parse_ticket_id-IsTicketId_example =
    parse_ticket_id-IsTicketId (txt "ticket:acme:main:A") (sample_id (txt "A")) parsed_id
