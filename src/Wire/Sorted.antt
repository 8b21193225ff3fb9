-- ===== src/Wire/Sorted.antt =====
-- SortedSet and CheckSortedUnique of internal/wire/value.go. sort.SliceStable is of the standard library: a
-- stable sort by a key has one result, which the insertion of each element gives.
pub mod Order
use corvint_tasks.Base.{
  ◌≡◌, ◌≢◌, refl, sym, ap, ◌∙◌, ◌↔◌, ◌⊎◌, inl, inr, Bool, true, false, List, [], ◌∷◌, map, arith,
  if◌then◌else◌, Bool-cases, In, All, length, ℕ, suc, zero, ◌+◌,
}
use corvint_tasks.Text.{
  Text, text_eq, text_ltb, text_eq_iff, text_eq→eq, text_eq_refl, text_ltb_irrefl, text_ltb_trans,
}
use corvint_tasks.Wire.Code.{Code, Result, ok, err, malformed, ◌>>◌, ◌>>=◌, >>=-eq-ok}
use corvint_tasks.Wire.Value.{Value, array}
use corvint_tasks.Wire.Encode.{encode}

-- The loop of CheckSortedUnique; `prev` holds the key of the element before.
unfoldable pub check_sorted_from : Text → List Value → Result (Unit {0})
unfolding encode
check_sorted_from prev [] = ok tt
check_sorted_from prev (v ∷ vs) =
    let key = encode v in
    let rest = check_sorted_from key vs in
    if text_eq key prev then err malformed else if text_ltb key prev then err malformed else rest

-- CheckSortedUnique
unfoldable pub check_sorted_unique : List Value → Result (Unit {0})
unfolding check_sorted_from encode
check_sorted_unique [] = ok tt
check_sorted_unique (v ∷ vs) = check_sorted_from (encode v) vs

-- One insertion of a stable sort: in front of the first element whose key is not below.
unfoldable pub insert_value : Value → List Value → List Value
insert_value v [] = v ∷ []
insert_value v (w ∷ ws) =
    if text_ltb (encode w) (encode v) then w ∷ insert_value v ws else v ∷ w ∷ ws

unfoldable pub sort_values : List Value → List Value
unfolding insert_value
sort_values [] = []
sort_values (v ∷ vs) = insert_value v (sort_values vs)

-- The loop over the sorted elements, with the key of the element before.
unfoldable pub check_repeats : Text → List Value → Result (Unit {0})
check_repeats prev [] = ok tt
check_repeats prev (v ∷ vs) =
    if text_eq prev (encode v) then err malformed else check_repeats (encode v) vs

abbrev pub check_first : List Value → Result (Unit {0})
check_first [] = ok tt
check_first (v ∷ vs) = check_repeats (encode v) vs

-- SortedSet, before the elements are made an array
unfoldable pub sorted_elements : List Value → Result (List Value)
unfolding sort_values check_repeats
sorted_elements vs = do check_first (sort_values vs); ok (sort_values vs)

-- SortedSet
unfoldable pub sorted_set : List Value → Result Value
unfolding sorted_elements array
sorted_set vs = do out ← sorted_elements vs; ok (array out)
