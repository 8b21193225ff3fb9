-- ===== src/Wire/Parse/Reads.antt =====
-- What it means that the parser of internal/wire/parse.go reads back what internal/wire/encode.go writes,
-- for each of its readers.
pub mod Arrays
pub mod Objects
use corvint_tasks.Base.{
  ℕ, zero, suc, ◌+◌, ◌-◌, ◌*◌, ◌≤◌, ◌≡◌, refl, sym, ap, ◌∙◌, Bool, true, false, not, ◌&&◌, Option,
  none, some, List, [], ◌∷◌, ◌++◌, arith, ltb, leb, ◌==◌, if◌then◌else◌, length, length-append,
  append_assoc, drop, is_some, Bool-cases, inl, inr,
}
use corvint_tasks.Text.{Text, txt, has_prefix}
use corvint_tasks.Wire.Code.{Result, ok, malformed, limit_exceeded}
use corvint_tasks.Wire.Limits.{max_json_depth}
use corvint_tasks.Wire.Utf8.{check_hostile}
use corvint_tasks.Wire.Value.{
  Value, Values, Members, null, bool, arr, obj, nil, cons, end, member, get, set,
}
use corvint_tasks.Wire.Encode.{encode, encode_elements, encode_string}
use corvint_tasks.Wire.Scan.{Options, Parser, next_is, advance, str}
use corvint_tasks.Wire.Parsed.{Parsed, parsed, failed, ◌>>=◌, ◌>>◌, >>=-parsed, expect-true}
use corvint_tasks.Wire.Scan.RoundTrip.{str-encode_string}
use corvint_tasks.Wire.Parse.{
  count, snoc, node, enter, leave, start, literal, after, array_bound, is_wide, member_key,
  any_value, any_object, members, any_array, elements,
}
use corvint_tasks.Wire.Parse.Shape.{
  size, sizes, member_sizes, IsWithin, AllWithin, MembersWithin, count-snoc,
}
use corvint_tasks.Wire.Parse.Canonical.{
  IsOrdered, AllOrdered, MembersOrdered, encode_ordered, encode-obj, encode_opens, extend,
  extend_nil, set_members, set_members_end, AllFresh, AllFresh-set, AllFresh-end, IsDistinct,
}

-- A state of the parser.
abbrev pub at : Text → ℕ → ℕ → Bool → Parser
at t depth nodes wide = record { rest = t; depth = depth; nodes = nodes; wide = wide }

-- The flag `wide` behind a value.
unfoldable pub wide_after : Value → Bool → Bool
wide_after (arr vs) wide = false
wide_after (obj (member k v ms)) wide = false
wide_after (obj end) wide = wide
wide_after null wide = wide
wide_after (bool b) wide = wide
wide_after (Value.str s) wide = wide

abbrev pub ValueReads : ℕ → Type 0
ValueReads fuel =
    (o : Options) (v : Value) (t r : Text) (depth nodes : ℕ) (wide : Bool)
    → t ≡ encode v ++ r
    → 4 * length t + 1 ≤ fuel
    → IsWithin o depth wide v
    → IsOrdered v
    → nodes + size v ≤ o.max_nodes
    → any_value fuel o (at t depth nodes wide)
      ≡ parsed (v, at r depth (nodes + size v) (wide_after v wide))

abbrev pub ObjectReads : ℕ → Type 0
ObjectReads fuel =
    (o : Options) (ms : Members) (t r : Text) (depth nodes : ℕ) (wide : Bool)
    → t ≡ encode (obj ms) ++ r
    → 4 * length t ≤ fuel
    → IsWithin o depth wide (obj ms)
    → IsOrdered (obj ms)
    → nodes + member_sizes ms ≤ o.max_nodes
    → any_object fuel o (at t depth nodes wide)
      ≡ parsed (obj ms, at r depth (nodes + member_sizes ms) (wide_after (obj ms) wide))

abbrev pub MembersReads : ℕ → Type 0
MembersReads fuel =
    (o : Options) (before : Members) (k : Text) (v : Value) (ms : Members) (t r : Text)
    (depth nodes : ℕ) (wide : Bool)
    → t ≡ encode_ordered (member k v ms) ++ b'}' ∷ r
    → 4 * length t + 3 ≤ fuel
    → MembersWithin o (suc depth) (member k v ms)
    → MembersOrdered (member k v ms)
    → AllFresh before (member k v ms)
    → nodes + member_sizes (member k v ms) ≤ o.max_nodes
    → members fuel o before (at t (suc depth) nodes wide)
      ≡ parsed (
        obj (set_members before (member k v ms)),
        at r depth (nodes + member_sizes (member k v ms)) false,
      )

abbrev pub ArrayReads : ℕ → Type 0
ArrayReads fuel =
    (o : Options) (vs : Values) (t r : Text) (depth nodes : ℕ) (wide : Bool)
    → t ≡ encode (arr vs) ++ r
    → 4 * length t ≤ fuel
    → IsWithin o depth wide (arr vs)
    → IsOrdered (arr vs)
    → nodes + sizes vs ≤ o.max_nodes
    → any_array fuel o (at t depth nodes wide)
      ≡ parsed (arr vs, at r depth (nodes + sizes vs) false)

abbrev pub ElementsReads : ℕ → Type 0
ElementsReads fuel =
    (o : Options) (bound : ℕ) (before : Values) (v : Value) (vs : Values) (t r : Text)
    (depth nodes : ℕ)
    → t ≡ encode_elements (cons v vs) ++ b']' ∷ r
    → 4 * length t + 3 ≤ fuel
    → AllWithin o (suc depth) (cons v vs)
    → AllOrdered (cons v vs)
    → count before + count (cons v vs) ≤ bound
    → nodes + sizes (cons v vs) ≤ o.max_nodes
    → elements fuel o bound before (at t (suc depth) nodes false)
      ≡ parsed (arr (extend before (cons v vs)), at r depth (nodes + sizes (cons v vs)) false)

-- The state that is reached, written another way.
pub at_state :
    (v : Value) (r : Text) (d e m n : ℕ) (w x : Bool)
    → d ≡ e
    → m ≡ n
    → w ≡ x
    → ◌≡◌ {A = Parsed (Value × Parser)} (parsed (v, at r d m w)) (parsed (v, at r e n x))
at_state v r d e m n w x p q s = rw (p, q, s) refl

pub wide_after-false : (v : Value) → wide_after v false ≡ false
unfolding wide_after
wide_after-false null = refl
wide_after-false (bool b) = refl
wide_after-false (Value.str s) = refl
wide_after-false (arr vs) = refl
wide_after-false (obj end) = refl
wide_after-false (obj (member k v ms)) = refl

pub not_above :
    (before : Values) (v : Value) (bound m : ℕ)
    → count before + suc m ≤ bound
    → not (ltb bound (count (snoc before v))) ≡ true
not_above before v bound m h = rw (count-snoc before v) (ground arith)

-- The length of a text in two parts.
pub length_parts : (t s u : Text) → t ≡ s ++ u → length t ≡ length s + length u
length_parts t s u e = ap length e ∙ length-append s u

pub enter-at :
    (c : ℕ) (t : Text) (depth nodes : ℕ) (wide : Bool)
    → suc depth ≤ max_json_depth
    → enter (at (c ∷ t) depth nodes wide) ≡ parsed (at t (suc depth) nodes wide)
unfolding enter
enter-at c t depth nodes wide deep = ground arith

-- Not the bracket that closes: the loop is entered.
pub elim-false :
    (b : Bool) (x y z : Parsed (Value × Parser))
    → b ≡ false
    → y ≡ z
    → elim b as (λ _. Parsed (Value × Parser)) [ true ↦ x | false ↦ y ] ≡ z
elim-false b x y z e f = rw e f
