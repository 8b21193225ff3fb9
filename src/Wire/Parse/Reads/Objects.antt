-- ===== src/Wire/Parse/Reads/Objects.antt =====
-- Objects are read back: object and its loop of internal/wire/parse.go.
use corvint_tasks.Base.{
  ℕ, suc, ◌+◌, ◌-◌, ◌≡◌, refl, ap, ◌∙◌, Bool, true, false, not, none, [], ◌∷◌, ◌++◌, arith, length,
  length-append, append_assoc, is_some,
}
use corvint_tasks.Text.{Text}
use corvint_tasks.Wire.Code.{ok, malformed}
use corvint_tasks.Wire.Utf8.{check_hostile}
use corvint_tasks.Wire.Value.{Value, Members, obj, end, member, get, set}
use corvint_tasks.Wire.Encode.{encode, encode_string}
use corvint_tasks.Wire.Scan.{Options, next_is, str}
use corvint_tasks.Wire.Parsed.{parsed, >>=-parsed, expect-true}
use corvint_tasks.Wire.Scan.RoundTrip.{str-encode_string}
use corvint_tasks.Wire.Parse.{enter, after, is_wide, member_key, any_value, any_object, members}
use corvint_tasks.Wire.Parse.Shape.{size, member_sizes, IsWithin, MembersWithin}
use corvint_tasks.Wire.Parse.Canonical.{
  IsOrdered, MembersOrdered, encode_ordered, encode-obj, set_members, set_members_end, AllFresh,
  AllFresh-set, AllFresh-end, IsDistinct,
}
use corvint_tasks.Wire.Parse.Reads.{
  at, at_state, wide_after, length_parts, enter-at, elim-false, ValueReads, ObjectReads,
  MembersReads,
}

member_key_reads :
    (o : Options) (before : Members) (k u : Text) (depth nodes : ℕ) (wide : Bool)
    → check_hostile k true ≡ ok tt
    → get before k ≡ none
    → member_key o before (at (encode_string k ++ b':' ∷ u) depth nodes wide)
      ≡ parsed (k, at u depth nodes (is_wide o depth k))
unfolding member_key encode_string
member_key_reads o before k u depth nodes wide clean new =
    >>=-parsed (str (at (encode_string k ++ b':' ∷ u) depth nodes wide)) _
      (k, at (b':' ∷ u) depth nodes wide) _
      (str-encode_string (at (encode_string k ++ b':' ∷ u) depth nodes wide) k (b':' ∷ u) refl
        clean)
      (expect-true (not (is_some (get before k))) malformed _ _ (rw new refl) refl)

pub members_reads : (fuel : ℕ) → ValueReads fuel → MembersReads fuel → MembersReads (suc fuel)
unfolding members encode_ordered MembersWithin MembersOrdered member_sizes set_members after
    AllFresh
members_reads fuel inner rest o before k v end t r depth nodes wide here enough (clean, _, first, _)
      (_, ordered, _) (new, _) few =
    let u = encode v ++ b'}' ∷ r in
    let parts = here ∙ append_assoc (encode_string k) (b':' ∷ encode v) (b'}' ∷ r) in
    ap (λ x. members (suc fuel) o before (at x (suc depth) nodes wide)) parts
    ∙ >>=-parsed (member_key o before (at (encode_string k ++ b':' ∷ u) (suc depth) nodes wide)) _
        (k, at u (suc depth) nodes (is_wide o (suc depth) k)) _
        (member_key_reads o before k u (suc depth) nodes wide clean new)
        (>>=-parsed (any_value fuel o (at u (suc depth) nodes (is_wide o (suc depth) k))) _
          (v, at (b'}' ∷ r) (suc depth) (nodes + size v) (wide_after v (is_wide o (suc depth) k))) _
          (inner o v u (b'}' ∷ r) (suc depth) nodes (is_wide o (suc depth) k) refl
            (omega (arith, length_parts t (encode_string k) (b':' ∷ u) parts)) first ordered
            (omega arith))
          (at_state _ r (suc depth - 1) depth (nodes + size v) (nodes + (size v + 0)) false false
            (omega arith) (omega arith) refl))
members_reads fuel inner rest o before k v (member j w ms) t r depth nodes wide here enough
      (clean, single, first, all) (_, ordered, tail) (new, fresh) few =
    let s = encode_ordered (member j w ms) ++ b'}' ∷ r in
    let u = encode v ++ b',' ∷ s in
    let parts =
      here
      ∙ (append_assoc (encode_string k)
            (b':' ∷ (encode v ++ (b',' ∷ encode_ordered (member j w ms)))) (b'}' ∷ r)
          ∙ ap (λ x. encode_string k ++ b':' ∷ x)
              (append_assoc (encode v) (b',' ∷ encode_ordered (member j w ms)) (b'}' ∷ r))) in
    ap (λ x. members (suc fuel) o before (at x (suc depth) nodes wide)) parts
    ∙ >>=-parsed (member_key o before (at (encode_string k ++ b':' ∷ u) (suc depth) nodes wide)) _
        (k, at u (suc depth) nodes (is_wide o (suc depth) k)) _
        (member_key_reads o before k u (suc depth) nodes wide clean new)
        (>>=-parsed (any_value fuel o (at u (suc depth) nodes (is_wide o (suc depth) k))) _
          (v, at (b',' ∷ s) (suc depth) (nodes + size v) (wide_after v (is_wide o (suc depth) k))) _
          (inner o v u (b',' ∷ s) (suc depth) nodes (is_wide o (suc depth) k) refl
            (omega (arith, length_parts t (encode_string k) (b':' ∷ u) parts)) first ordered
            (omega arith))
          (rest o (set before k v) j w ms s r depth (nodes + size v) false refl
              (omega (
                arith,
                length_parts t (encode_string k) (b':' ∷ u) parts,
                length-append (encode v) (b',' ∷ s),
              ))
              all tail (AllFresh-set before (member j w ms) k v fresh single) (omega arith)
            ∙ at_state _ r depth depth _ (nodes + member_sizes (member k v (member j w ms))) false
                false refl (omega arith) refl))

MembersWithin-IsDistinct :
    (o : Options) (depth : ℕ) (ms : Members) → MembersWithin o depth ms → IsDistinct ms
unfolding MembersWithin IsDistinct
MembersWithin-IsDistinct o depth end h = tt
MembersWithin-IsDistinct o depth (member k v ms) (_, new, _, all) =
    (new, MembersWithin-IsDistinct o depth ms all)

members_open :
    (k : Text) (v : Value) (ms : Members) (r : Text)
    → next_is b'}' (encode_ordered (member k v ms) ++ r) ≡ false
unfolding encode_ordered encode_string
members_open k v end r = refl
members_open k v (member j w ms) r = refl

pub object_reads : (fuel : ℕ) → MembersReads fuel → ObjectReads (suc fuel)
unfolding any_object encode IsWithin IsOrdered member_sizes wide_after
object_reads fuel rest o end t r depth nodes wide here enough (deep, all) ordered few =
    ap (λ u. any_object (suc fuel) o (at u depth nodes wide)) here
    ∙ >>=-parsed (enter (at (b'{' ∷ b'}' ∷ r) depth nodes wide)) _
        (at (b'}' ∷ r) (suc depth) nodes wide) _ (enter-at b'{' (b'}' ∷ r) depth nodes wide deep)
        (at_state (obj end) r (suc depth - 1) depth nodes (nodes + 0) wide wide (omega arith)
          (omega arith) refl)
object_reads fuel rest o (member k v ms) t r depth nodes wide here enough (deep, all) ordered few =
    let ls = member k v ms in
    let s = encode_ordered ls ++ b'}' ∷ r in
    let whole =
      here
      ∙ (ap (λ u. u ++ r) (encode-obj ls ordered)
          ∙ ap (λ u. b'{' ∷ u) (append_assoc (encode_ordered ls) (b'}' ∷ []) r)) in
    ap (λ u. any_object (suc fuel) o (at u depth nodes wide)) whole
    ∙ >>=-parsed (enter (at (b'{' ∷ s) depth nodes wide)) _ (at s (suc depth) nodes wide) _
        (enter-at b'{' s depth nodes wide deep)
        (elim-false (next_is b'}' s) _ _ _ (members_open k v ms (b'}' ∷ r)) (
          rest o end k v ms s r depth nodes wide refl (omega (arith, ap length whole)) all ordered
            (AllFresh-end ls) few
          ∙ ap (λ x. parsed (obj x, at r depth (nodes + member_sizes ls) false))
              (set_members_end ls (MembersWithin-IsDistinct o (suc depth) ls all))))
