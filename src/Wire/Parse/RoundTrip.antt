-- ===== src/Wire/Parse/RoundTrip.antt =====
-- The parser of internal/wire/parse.go reads back what internal/wire/encode.go writes.
use corvint_tasks.Base.{
  ℕ, zero, suc, ◌+◌, ◌*◌, ◌≤◌, ◌≡◌, refl, ap, ◌∙◌, Bool, true, false, ◌∷◌, ◌++◌, arith, length,
}
use corvint_tasks.Text.{Text, has_prefix}
use corvint_tasks.Wire.Value.{Value, null, bool, arr, obj}
use corvint_tasks.Wire.Encode.{encode, encode_string}
use corvint_tasks.Wire.Scan.{Options, str}
use corvint_tasks.Wire.Parsed.{parsed, >>=-parsed}
use corvint_tasks.Wire.Scan.RoundTrip.{str-encode_string}
use corvint_tasks.Wire.Parse.{node, start, literal, any_value}
use corvint_tasks.Wire.Parse.Shape.{size, sizes, member_sizes, IsWithin}
use corvint_tasks.Wire.Parse.Reads.{
  at, at_state, wide_after, ValueReads, ObjectReads, MembersReads, ArrayReads, ElementsReads,
}
use corvint_tasks.Wire.Parse.Reads.Arrays.{elements_reads, array_reads}
use corvint_tasks.Wire.Parse.Reads.Objects.{members_reads, object_reads}

node-at :
    (o : Options) (t : Text) (depth nodes m : ℕ) (wide : Bool)
    → nodes + suc m ≤ o.max_nodes
    → node o (at t depth nodes wide) ≡ parsed (at t depth (suc nodes) wide)
unfolding node
node-at o t depth nodes m wide few = ground arith

any_value-ValueReads : (fuel : ℕ) → ObjectReads fuel → ArrayReads fuel → ValueReads (suc fuel)
unfolding any_value encode encode_string start literal size wide_after IsWithin has_prefix
any_value-ValueReads fuel objects arrays o null t r depth nodes wide here enough within ordered
      few =
    ap (λ u. any_value (suc fuel) o (at u depth nodes wide)) here
    ∙ >>=-parsed (node o (at (encode null ++ r) depth nodes wide)) _ _ _
        (node-at o (encode null ++ r) depth nodes 0 wide few)
        (at_state null r depth depth (suc nodes) (nodes + 1) wide wide refl (omega arith) refl)
any_value-ValueReads fuel objects arrays o (bool true) t r depth nodes wide here enough within
      ordered few =
    ap (λ u. any_value (suc fuel) o (at u depth nodes wide)) here
    ∙ >>=-parsed (node o (at (encode (bool true) ++ r) depth nodes wide)) _ _ _
        (node-at o (encode (bool true) ++ r) depth nodes 0 wide few)
        (at_state (bool true) r depth depth (suc nodes) (nodes + 1) wide wide refl (omega arith)
          refl)
any_value-ValueReads fuel objects arrays o (bool false) t r depth nodes wide here enough within
      ordered few =
    ap (λ u. any_value (suc fuel) o (at u depth nodes wide)) here
    ∙ >>=-parsed (node o (at (encode (bool false) ++ r) depth nodes wide)) _ _ _
        (node-at o (encode (bool false) ++ r) depth nodes 0 wide few)
        (at_state (bool false) r depth depth (suc nodes) (nodes + 1) wide wide refl (omega arith)
          refl)
any_value-ValueReads fuel objects arrays o (Value.str s) t r depth nodes wide here enough within
      ordered few =
    let u = encode_string s ++ r in
    ap (λ x. any_value (suc fuel) o (at x depth nodes wide)) here
    ∙ >>=-parsed (node o (at u depth nodes wide)) _ _ _ (node-at o u depth nodes 0 wide few) (
        >>=-parsed (str (at u depth (suc nodes) wide)) _ (s, at r depth (suc nodes) wide) _
          (str-encode_string (at u depth (suc nodes) wide) s r refl within)
          (at_state (Value.str s) r depth depth (suc nodes) (nodes + 1) wide wide refl (omega arith)
            refl))
any_value-ValueReads fuel objects arrays o (arr vs) t r depth nodes wide here enough within ordered
      few =
    let u = encode (arr vs) ++ r in
    ap (λ x. any_value (suc fuel) o (at x depth nodes wide)) here
    ∙ >>=-parsed (node o (at u depth nodes wide)) _ _ _
        (node-at o u depth nodes (sizes vs) wide few)
        (arrays o vs u r depth (suc nodes) wide refl (omega (arith, ap length here)) within ordered
            (omega arith)
          ∙ at_state (arr vs) r depth depth (suc nodes + sizes vs) (nodes + suc (sizes vs)) false
              false refl (omega arith) refl)
any_value-ValueReads fuel objects arrays o (obj ms) t r depth nodes wide here enough within ordered
      few =
    let u = encode (obj ms) ++ r in
    ap (λ x. any_value (suc fuel) o (at x depth nodes wide)) here
    ∙ >>=-parsed (node o (at u depth nodes wide)) _ _ _
        (node-at o u depth nodes (member_sizes ms) wide few)
        (objects o ms u r depth (suc nodes) wide refl (omega (arith, ap length here)) within ordered
            (omega arith)
          ∙ at_state (obj ms) r depth depth (suc nodes + member_sizes ms)
              (nodes + suc (member_sizes ms)) _ _ refl (omega arith) refl)

-- All readers, with the same fuel.
abbrev AllRead : ℕ → Type 0
AllRead fuel =
    ValueReads fuel × ObjectReads fuel × ArrayReads fuel × MembersReads fuel × ElementsReads fuel

all_read : (fuel : ℕ) → AllRead fuel
unfolding encode
all_read zero = (
  λ o v t r depth nodes wide here enough within ordered few. absurd (omega arith),
  λ o ms t r depth nodes wide here enough within ordered few.
      absurd (no_bytes_left t _ here enough),
  λ o vs t r depth nodes wide here enough within ordered few.
      absurd (no_bytes_left t _ here enough),
  λ o before k v ms t r depth nodes wide here enough all ordered fresh few. absurd (omega arith),
  λ o bound before v vs t r depth nodes here enough all ordered short few. absurd (omega arith),
)
  where
    no_bytes_left : {c : ℕ} (t s : Text) → t ≡ c ∷ s → 4 * length t ≤ 0 → ⊥
    no_bytes_left t s e h = omega (arith, ap length e)
all_read (suc fuel) =
    let (values, objects, arrays, all_members, all_elements) = all_read fuel in
    (
      any_value-ValueReads fuel objects arrays,
      object_reads fuel all_members,
      array_reads fuel all_elements,
      members_reads fuel values all_members,
      elements_reads fuel values all_elements,
    )

-- Behind the encoding of a value that is within the bounds, has nodes left and whose keys ascend, the
-- parser has read the value, counted its nodes and is in front of the rest.
pub any_value-encode : (fuel : ℕ) → ValueReads fuel
any_value-encode fuel = (all_read fuel).0
