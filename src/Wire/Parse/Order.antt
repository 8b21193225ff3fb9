-- ===== src/Wire/Parse/Order.antt =====
-- The value of a document, with the members of its objects in the order in which internal/wire/encode.go
-- writes them.
pub mod Kept
use corvint_tasks.Base.{
  ℕ, zero, suc, ◌+◌, ◌≤◌, ◌≡◌, refl, sym, ap, ◌∙◌, Bool, true, false, Option, none, some, [], ◌∷◌,
  ◌++◌, arith, if◌then◌else◌, Bool-cases, inl, inr, ltb, ◌==◌,
}
use corvint_tasks.Text.{Text, text_eq, text_ltb}
use corvint_tasks.Wire.Code.{ok}
use corvint_tasks.Wire.Limits.{max_json_depth}
use corvint_tasks.Wire.Utf8.{check_hostile}
use corvint_tasks.Wire.Value.{
  Value, Values, Members, null, bool, arr, obj, nil, cons, end, member, get,
}
use corvint_tasks.Wire.Encode.{
  encode, encode_elements, encode_members, encode_file, insert_key, sort_keys, join_members,
}
use corvint_tasks.Wire.Scan.{Options}
use corvint_tasks.Wire.Parsed.{parsed}
use corvint_tasks.Wire.Parse.{count, array_bound, is_wide, set_defaults, parse_with}
use corvint_tasks.Wire.Parse.Shape.{
  size, sizes, member_sizes, IsWithin, AllWithin, MembersWithin, get_tail, text_eq_swap,
}
use corvint_tasks.Wire.Parse.Canonical.{
  IsBelow, IsOrdered, AllOrdered, MembersOrdered, sort_keys-encode_members,
}
use corvint_tasks.Wire.Parse.WellFormed.{parse_with-encode_file_ordered}

unfoldable pub insert_member : Text → Value → Members → Members
insert_member k v end = member k v end
insert_member k v (member j w ms) =
    if text_ltb j k then member j w (insert_member k v ms) else member k v (member j w ms)

-- The value with the members of each of its objects by ascending keys.
unfoldable mutual
  unfolding insert_member

  pub in_order : Value → Value
  in_order null = null
  in_order (bool b) = bool b
  in_order (Value.str s) = Value.str s
  in_order (arr vs) = arr (all_in_order vs)
  in_order (obj ms) = obj (members_in_order ms)

  pub all_in_order : Values → Values
  all_in_order nil = nil
  all_in_order (cons v vs) = cons (in_order v) (all_in_order vs)

  pub members_in_order : Members → Members
  members_in_order end = end
  members_in_order (member k v ms) = insert_member k (in_order v) (members_in_order ms)

pub text_ltb_other : (s t : Text) → text_ltb s t ≡ false → text_eq s t ≡ false → text_ltb t s ≡ true
unfolding text_ltb text_eq
text_ltb_other [] [] h k = cc
text_ltb_other [] (d ∷ t) h k = cc
text_ltb_other (c ∷ s) [] h k = refl
text_ltb_other (c ∷ s) (d ∷ t) h k = ground (arith, text_ltb_other s t)

get-insert_member :
    (k : Text) (v : Value) (ms : Members) (j : Text)
    → text_eq k j ≡ false
    → get ms j ≡ none
    → get (insert_member k v ms) j ≡ none
unfolding get insert_member
get-insert_member k v end j other h = rw other refl
get-insert_member k v (member i w ms) j other h =
    let (differ, rest) = get_tail i j w ms h in
    elim (Bool-cases (text_ltb i k)) [
      | inl below ↦ rw (below, differ) (get-insert_member k v ms j other rest)
      | inr not_below ↦ rw (not_below, other, differ) rest
    ]

pub get-members_in_order :
    (ms : Members) (j : Text) → get ms j ≡ none → get (members_in_order ms) j ≡ none
unfolding members_in_order
get-members_in_order end j h = h
get-members_in_order (member k v ms) j h =
    let (differ, rest) = get_tail k j v ms h in
    get-insert_member k (in_order v) (members_in_order ms) j differ (get-members_in_order ms j rest)

insert_member-IsBelow :
    (j k : Text) (v : Value) (ms : Members)
    → text_ltb j k ≡ true
    → IsBelow j ms
    → IsBelow j (insert_member k v ms)
unfolding insert_member
insert_member-IsBelow j k v end here below = here
insert_member-IsBelow j k v (member i w ms) here below = elim (Bool-cases (text_ltb i k)) [
  | inl before ↦ rw before below
  | inr behind ↦ rw behind here
]

pub insert_member-MembersOrdered :
    (k : Text) (v : Value) (ms : Members)
    → get ms k ≡ none
    → IsOrdered v
    → MembersOrdered ms
    → MembersOrdered (insert_member k v ms)
unfolding insert_member MembersOrdered
insert_member-MembersOrdered k v end new here all = (tt, here, tt)
insert_member-MembersOrdered k v (member j w ms) new here (below, first, all) =
    let (other, rest) = get_tail j k w ms new in
    elim (Bool-cases (text_ltb j k)) [
      | inl before ↦ rw before (
        insert_member-IsBelow j k v ms before below,
        first,
        insert_member-MembersOrdered k v ms rest here all,
      )
      | inr behind ↦ rw behind (text_ltb_other j k behind other, here, (below, first, all))
    ]

pub insert_member-MembersWithin :
    (o : Options) (depth : ℕ) (k : Text) (v : Value) (ms : Members)
    → check_hostile k true ≡ ok tt
    → get ms k ≡ none
    → IsWithin o depth (is_wide o depth k) v
    → MembersWithin o depth ms
    → MembersWithin o depth (insert_member k v ms)
unfolding insert_member MembersWithin
insert_member-MembersWithin o depth k v end clean new here all = (clean, new, here, tt)
insert_member-MembersWithin o depth k v (member j w ms) clean new here (clean', fresh, first, all) =
    let (other, rest) = get_tail j k w ms new in
    elim (Bool-cases (text_ltb j k)) [
      | inl before ↦ rw before (
        clean',
        get-insert_member k v ms j (text_eq_swap j k other) fresh,
        first,
        insert_member-MembersWithin o depth k v ms clean rest here all,
      )
      | inr behind ↦ rw behind (clean, new, here, (clean', fresh, first, all))
    ]

pub encode_members-insert_member :
    (k : Text) (v : Value) (ms : Members)
    → encode_members (insert_member k v ms) ≡ insert_key (k, encode v) (encode_members ms)
unfolding insert_member encode_members insert_key
encode_members-insert_member k v end = refl
encode_members-insert_member k v (member j w ms) = elim (Bool-cases (text_ltb j k)) [
  | inl before ↦ rw before (ap (λ es. (j, encode w) ∷ es) (encode_members-insert_member k v ms))
  | inr behind ↦ rw behind refl
]

pub member_sizes-insert_member :
    (k : Text) (v : Value) (ms : Members)
    → member_sizes (insert_member k v ms) ≡ size v + member_sizes ms
unfolding insert_member member_sizes
member_sizes-insert_member k v end = refl
member_sizes-insert_member k v (member j w ms) = elim (Bool-cases (text_ltb j k)) [
  | inl before ↦ rw before (omega (arith, member_sizes-insert_member k v ms))
  | inr behind ↦ rw behind refl
]

pub count-all_in_order : (vs : Values) → count (all_in_order vs) ≡ count vs
unfolding count all_in_order
count-all_in_order nil = refl
count-all_in_order (cons v vs) = omega (arith, count-all_in_order vs)
