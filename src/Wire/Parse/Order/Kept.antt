-- ===== src/Wire/Parse/Order/Kept.antt =====
-- Ordering a value keeps its bounds and its encoding, so that the parser of internal/wire/parse.go finds the
-- ordered value behind the bytes of any.
use corvint_tasks.Base.{
  ℕ, suc, ◌+◌, ◌≤◌, ◌≡◌, refl, sym, ap, ◌∙◌, Bool, false, [], ◌∷◌, ◌++◌, arith,
}
use corvint_tasks.Wire.Value.{Value, Values, Members, null, bool, arr, obj, nil, cons, end, member}
use corvint_tasks.Wire.Encode.{
  encode, encode_elements, encode_members, encode_file, insert_key, sort_keys, join_members,
}
use corvint_tasks.Wire.Scan.{Options}
use corvint_tasks.Wire.Parsed.{parsed}
use corvint_tasks.Wire.Parse.{is_wide, set_defaults, parse_with}
use corvint_tasks.Wire.Parse.Shape.{size, sizes, member_sizes, IsWithin, AllWithin, MembersWithin}
use corvint_tasks.Wire.Parse.Canonical.{
  IsOrdered, AllOrdered, MembersOrdered, sort_keys-encode_members,
}
use corvint_tasks.Wire.Parse.WellFormed.{parse_with-encode_file_ordered}
use corvint_tasks.Wire.Parse.Order.{
  in_order, all_in_order, members_in_order, get-members_in_order, insert_member-MembersOrdered,
  insert_member-MembersWithin, encode_members-insert_member, member_sizes-insert_member,
  count-all_in_order,
}

-- What ordering keeps of a value: its bounds, its encoding and its nodes.
record IsKept (o : Options) (depth : ℕ) (wide : Bool) (v : Value) : Type 0 where
  ordered : IsOrdered (in_order v)
  within : IsWithin o depth wide (in_order v)
  same_bytes : encode (in_order v) ≡ encode v
  same_size : size (in_order v) ≡ size v

record AreKept (o : Options) (depth : ℕ) (vs : Values) : Type 0 where
  ordered : AllOrdered (all_in_order vs)
  within : AllWithin o depth (all_in_order vs)
  same_bytes : encode_elements (all_in_order vs) ≡ encode_elements vs
  same_size : sizes (all_in_order vs) ≡ sizes vs

record MembersKept (o : Options) (depth : ℕ) (ms : Members) : Type 0 where
  ordered : MembersOrdered (members_in_order ms)
  within : MembersWithin o depth (members_in_order ms)
  same_members : encode_members (members_in_order ms) ≡ sort_keys (encode_members ms)
  same_size : member_sizes (members_in_order ms) ≡ member_sizes ms

mutual
  unfolding in_order encode sort_keys IsOrdered AllOrdered MembersOrdered IsWithin AllWithin
      MembersWithin size

  any_value-IsKept :
      (o : Options) (depth : ℕ) (wide : Bool) (v : Value)
      → IsWithin o depth wide v
      → IsKept o depth wide v
  any_value-IsKept o depth wide null h = record {
    ordered = tt;
    within = h;
    same_bytes = refl;
    same_size = refl;
  }
  any_value-IsKept o depth wide (bool b) h = record {
    ordered = tt;
    within = h;
    same_bytes = refl;
    same_size = refl;
  }
  any_value-IsKept o depth wide (Value.str s) h = record {
    ordered = tt;
    within = h;
    same_bytes = refl;
    same_size = refl;
  }
  any_value-IsKept o depth wide (arr vs) (deep, short, all) =
      let k = all_kept o (suc depth) vs all in
      record {
        ordered = k.ordered;
        within = (deep, omega (arith, short, count-all_in_order vs), k.within);
        same_bytes = ap (λ t. b'[' ∷ (t ++ b']' ∷ [])) k.same_bytes;
        same_size = ap suc k.same_size;
      }
  any_value-IsKept o depth wide (obj ms) (deep, all) =
      let k = members_kept o (suc depth) ms all in
      record {
        ordered = k.ordered;
        within = (deep, k.within);
        same_bytes =
            ap (λ es. b'{' ∷ (join_members es ++ b'}' ∷ []))
              (sort_keys-encode_members (members_in_order ms) k.ordered ∙ k.same_members);
        same_size = ap suc k.same_size;
      }

  all_kept : (o : Options) (depth : ℕ) (vs : Values) → AllWithin o depth vs → AreKept o depth vs
  all_kept o depth nil h = record { ordered = tt; within = tt; same_bytes = refl; same_size = refl }
  all_kept o depth (cons v nil) (here, _) =
      let k = any_value-IsKept o depth false v here in
      record {
        ordered = (k.ordered, tt);
        within = (k.within, tt);
        same_bytes = k.same_bytes;
        same_size = ap (λ n. n + 0) k.same_size;
      }
  all_kept o depth (cons v (cons w vs)) (here, all) =
      let k = any_value-IsKept o depth false v here in
      let ks = all_kept o depth (cons w vs) all in
      record {
        ordered = (k.ordered, ks.ordered);
        within = (k.within, ks.within);
        same_bytes =
            ap (λ t. t ++ (b',' ∷ encode_elements (all_in_order (cons w vs)))) k.same_bytes
            ∙ ap (λ t. encode v ++ (b',' ∷ t)) ks.same_bytes;
        same_size = omega (arith, k.same_size, ks.same_size);
      }

  members_kept :
      (o : Options) (depth : ℕ) (ms : Members) → MembersWithin o depth ms → MembersKept o depth ms
  members_kept o depth end h = record {
    ordered = tt;
    within = tt;
    same_members = refl;
    same_size = refl;
  }
  members_kept o depth (member k v ms) (clean, new, here, all) =
      let first = any_value-IsKept o depth (is_wide o depth k) v here in
      let rest = members_kept o depth ms all in
      let fresh = get-members_in_order ms k new in
      record {
        ordered =
            insert_member-MembersOrdered k (in_order v) (members_in_order ms) fresh first.ordered
              rest.ordered;
        within =
            insert_member-MembersWithin o depth k (in_order v) (members_in_order ms) clean fresh
              first.within rest.within;
        same_members =
            encode_members-insert_member k (in_order v) (members_in_order ms)
            ∙ (ap (λ t. insert_key (k, t) (encode_members (members_in_order ms))) first.same_bytes
                ∙ ap (insert_key (k, encode v)) rest.same_members);
        same_size = omega (
          arith,
          member_sizes-insert_member k (in_order v) (members_in_order ms),
          first.same_size,
          rest.same_size,
        );
      }

-- The file of a value that is within the bounds of the options is read as the value with the members of
-- its objects by ascending keys: the parser finds the value behind the bytes, and forgets only the
-- order in which the members were set.
pub parse_with-encode_file :
    (o : Options) (v : Value)
    → IsWithin (set_defaults o) 0 false v
    → size v ≤ (set_defaults o).max_nodes
    → parse_with (encode_file v) o ≡ parsed (in_order v)
unfolding encode_file
parse_with-encode_file o v within few =
    let k = any_value-IsKept (set_defaults o) 0 false v within in
    ap (λ t. parse_with (t ++ 10 ∷ []) o) (sym k.same_bytes)
    ∙ parse_with-encode_file_ordered o (in_order v) k.within k.ordered
        (omega (arith, few, k.same_size))

-- The order of the members does not matter to the file.
pub encode_file-in_order :
    (o : Options) (v : Value)
    → IsWithin (set_defaults o) 0 false v
    → encode_file (in_order v) ≡ encode_file v
unfolding encode_file
encode_file-in_order o v within =
    ap (λ t. t ++ 10 ∷ []) (any_value-IsKept (set_defaults o) 0 false v within).same_bytes
