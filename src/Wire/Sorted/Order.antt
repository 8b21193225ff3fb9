-- ===== src/Wire/Sorted/Order.antt =====
-- The order of the elements of a set: what CheckSortedUnique accepts, and what SortedSet makes.
use mathlib.Core.Path.{subst}
use corvint_tasks.Base.{
  ◌≡◌, refl, sym, ◌∙◌, ◌↔◌, inl, inr, true, false, List, [], ◌∷◌, map, arith, Bool-cases, In, All,
}
use corvint_tasks.Text.{
  Text, text_eq, text_ltb, text_eq_iff, text_eq→eq, text_ltb_irrefl, text_ltb_trans, text_ltb_asym,
}
use corvint_tasks.Wire.Code.{Code, Result, ok, err, >>=-eq-ok}
use corvint_tasks.Wire.Value.{Value}
use corvint_tasks.Wire.Encode.{encode}
use corvint_tasks.Wire.Sorted.{
  check_sorted_from, check_sorted_unique, insert_value, sort_values, check_repeats, check_first,
  sorted_elements,
}

err-ne-ok : {e : Code} → ◌≡◌ {A = Result (Unit {0})} (err e) (ok tt) → ⊥
err-ne-ok e = cc

true-ne-false : true ≡ false → ⊥
true-ne-false e = cc

-- No key is below the one before it.
abbrev IsRisingFrom : Text → List Value → Type 0
IsRisingFrom prev [] = Unit
IsRisingFrom prev (v ∷ vs) = (text_ltb (encode v) prev ≡ false) × IsRisingFrom (encode v) vs

abbrev IsRising : List Value → Type 0
IsRising [] = Unit
IsRising (v ∷ vs) = IsRisingFrom (encode v) vs

apart : (s t : Text) → text_ltb s t ≡ true → text_eq t s ≡ false
apart s t h = elim (Bool-cases (text_eq t s)) [
  | inl same ↦ absurd (true-ne-false (sym (rw (text_eq→eq t s same) at h) ∙ text_ltb_irrefl s))
  | inr other ↦ other
]

insert_value-IsRisingFrom :
    (prev : Text) (v : Value) (vs : List Value)
    → text_ltb (encode v) prev ≡ false
    → IsRisingFrom prev vs
    → IsRisingFrom prev (insert_value v vs)
unfolding insert_value
insert_value-IsRisingFrom prev v [] h r = (h, tt)
insert_value-IsRisingFrom prev v (w ∷ ws) h (first, rest) =
    elim (Bool-cases (text_ltb (encode w) (encode v))) [
      | inl below ↦ rw below (
        first,
        insert_value-IsRisingFrom (encode w) v ws (text_ltb_asym (encode w) (encode v) below) rest,
      )
      | inr above ↦ rw above (h, (above, rest))
    ]

insert_value-IsRising : (v : Value) (vs : List Value) → IsRising vs → IsRising (insert_value v vs)
unfolding insert_value
insert_value-IsRising v [] r = tt
insert_value-IsRising v (w ∷ ws) r = elim (Bool-cases (text_ltb (encode w) (encode v))) [
  | inl below ↦
      rw below
        (insert_value-IsRisingFrom (encode w) v ws (text_ltb_asym (encode w) (encode v) below) r)
  | inr above ↦ rw above (above, r)
]

sort_values-IsRising : (vs : List Value) → IsRising (sort_values vs)
unfolding sort_values
sort_values-IsRising [] = tt
sort_values-IsRising (v ∷ vs) = insert_value-IsRising v (sort_values vs) (sort_values-IsRising vs)

rising_sorted :
    (prev : Text) (vs : List Value)
    → IsRisingFrom prev vs
    → check_repeats prev vs ≡ ok tt
    → check_sorted_from prev vs ≡ ok tt
unfolding check_repeats check_sorted_from
rising_sorted prev [] r h = refl
rising_sorted prev (v ∷ vs) (rise, rest) h = elim (Bool-cases (text_eq prev (encode v))) [
  | inl same ↦ absurd (err-ne-ok (rw (same, check_repeats) at h))
  | inr other ↦
      let flipped : text_eq (encode v) prev ≡ false =
        ground (arith, text_eq_iff (encode v) prev, text_eq_iff prev (encode v)) in
      rw (flipped, rise) (rising_sorted (encode v) vs rest (rw (other, check_repeats) at h))
]

sorted_first :
    (vs : List Value) → IsRising vs → check_first vs ≡ ok tt → check_sorted_unique vs ≡ ok tt
unfolding check_sorted_unique
sorted_first [] r h = refl
sorted_first (v ∷ vs) r h = rising_sorted (encode v) vs r h

text_ltb_total : (s t : Text) → text_eq s t ≡ false → text_ltb s t ≡ false → text_ltb t s ≡ true
unfolding text_ltb text_eq
text_ltb_total [] [] h k = cc
text_ltb_total [] (d ∷ t) h k = cc
text_ltb_total (c ∷ s) [] h k = refl
text_ltb_total (c ∷ s) (d ∷ t) h k = ground (arith, text_ltb_total s t)

-- Each key is below all the later ones.
abbrev pub IsAscending : List Text → Type 0
IsAscending [] = Unit
IsAscending (k ∷ ks) = All (λ j. text_ltb k j ≡ true) ks × IsAscending ks

All-below :
    (p k : Text) (ks : List Text)
    → text_ltb p k ≡ true
    → All (λ j. text_ltb k j ≡ true) ks
    → All (λ j. text_ltb p j ≡ true) ks
All-below p k [] h v = tt
All-below p k (j ∷ ks) h (first, rest) = (text_ltb_trans p k j h first, All-below p k ks h rest)

check_sorted_from-IsAscending :
    (prev : Text) (vs : List Value)
    → check_sorted_from prev vs ≡ ok tt
    → All (λ j. text_ltb prev j ≡ true) (map encode vs) × IsAscending (map encode vs)
unfolding check_sorted_from
check_sorted_from-IsAscending prev [] h = (tt, tt)
check_sorted_from-IsAscending prev (v ∷ vs) h = elim (Bool-cases (text_eq (encode v) prev)) [
  | inl same ↦ absurd (err-ne-ok (rw (same, check_sorted_from) at h))
  | inr other ↦ elim (Bool-cases (text_ltb (encode v) prev)) [
    | inl below ↦ absurd (err-ne-ok (rw (other, below, check_sorted_from) at h))
    | inr above ↦
        let (rest, tail) =
          check_sorted_from-IsAscending (encode v) vs (rw (other, above, check_sorted_from) at h) in
        let next = text_ltb_total (encode v) prev other above in
        ((next, All-below prev (encode v) (map encode vs) next rest), (rest, tail))
  ]
]

check_sorted_from_complete :
    (prev : Text) (vs : List Value)
    → All (λ j. text_ltb prev j ≡ true) (map encode vs)
    → IsAscending (map encode vs)
    → check_sorted_from prev vs ≡ ok tt
unfolding check_sorted_from
check_sorted_from_complete prev [] v a = refl
check_sorted_from_complete prev (w ∷ ws) (next, later) (rest, tail) =
    let above = text_ltb_asym prev (encode w) next in
    let other : text_eq (encode w) prev ≡ false = apart prev (encode w) next in
    rw (other, above) (check_sorted_from_complete (encode w) ws rest tail)

-- CheckSortedUnique accepts exactly the lists in which the encoding of each element is below those of
-- all the later ones: the elements are sorted by their bytes, and no two are the same.
pub check_sorted_unique_lem :
    (vs : List Value) → (check_sorted_unique vs ≡ ok tt) ↔ IsAscending (map encode vs)
unfolding check_sorted_unique
check_sorted_unique_lem [] = (λ h. tt, λ a. refl)
check_sorted_unique_lem (v ∷ vs) = (
  λ h. check_sorted_from-IsAscending (encode v) vs h,
  λ a. check_sorted_from_complete (encode v) vs a.0 a.1,
)

In-insert_value : (x v : Value) (vs : List Value) → In x (insert_value v vs) ↔ In x (v ∷ vs)
unfolding insert_value
In-insert_value x v [] = (λ m. m, λ m. m)
In-insert_value x v (w ∷ ws) = elim (Bool-cases (text_ltb (encode w) (encode v))) [
  | inl below ↦
      let rest = In-insert_value x v ws in
      rw below (
        λ m. elim m [
          | inl e ↦ inr (inl e)
          | inr there ↦ elim (rest.0 there) [ inl e ↦ inl e | inr later ↦ inr (inr later) ]
        ],
        λ m. elim m [
          | inl e ↦ inr (rest.1 (inl e))
          | inr there ↦ elim there [ inl e ↦ inl e | inr later ↦ inr (rest.1 (inr later)) ]
        ],
      )
  | inr above ↦ rw above (λ m. m, λ m. m)
]

In-sort_values : (x : Value) (vs : List Value) → In x (sort_values vs) ↔ In x vs
unfolding sort_values
In-sort_values x [] = (λ m. m, λ m. m)
In-sort_values x (v ∷ vs) =
    let step = In-insert_value x v (sort_values vs) in
    let rest = In-sort_values x vs in
    (
      λ m. elim (step.0 m) [ inl e ↦ inl e | inr there ↦ inr (rest.0 there) ],
      λ m. step.1 (elim m [ inl e ↦ inl e | inr there ↦ inr (rest.1 there) ]),
    )

-- What SortedSet makes has the elements that it was given, and CheckSortedUnique accepts it.
pub sorted_elements-check_sorted_unique :
    (vs out : List Value)
    → sorted_elements vs ≡ ok out
    → (check_sorted_unique out ≡ ok tt) × ((x : Value) → In x out ↔ In x vs)
unfolding sorted_elements
sorted_elements-check_sorted_unique vs out h =
    let (u, once, h1) = >>=-eq-ok (check_first (sort_values vs)) _ h in
    let made : sort_values vs ≡ out = cc in
    let accepted = sorted_first (sort_values vs) (sort_values-IsRising vs) once in
    (
      subst (λ ws. check_sorted_unique ws ≡ ok tt) made accepted,
      λ x. subst (λ ws. In x ws ↔ In x vs) made (In-sort_values x vs),
    )
