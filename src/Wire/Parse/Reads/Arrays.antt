-- ===== src/Wire/Parse/Reads/Arrays.antt =====
-- Arrays are read back: array and its loop of internal/wire/parse.go.
use corvint_tasks.Base.{
  ℕ, suc, ◌+◌, ◌-◌, ◌≡◌, refl, ap, ◌∙◌, false, not, [], ◌∷◌, ◌++◌, arith, ltb, length, append_assoc,
}
use corvint_tasks.Text.{Text}
use corvint_tasks.Wire.Code.{limit_exceeded}
use corvint_tasks.Wire.Value.{Value, Values, arr, nil, cons}
use corvint_tasks.Wire.Encode.{encode, encode_elements}
use corvint_tasks.Wire.Scan.{next_is}
use corvint_tasks.Wire.Parsed.{parsed, >>=-parsed, expect-true}
use corvint_tasks.Wire.Parse.{
  count, snoc, enter, after, array_bound, any_value, any_array, elements,
}
use corvint_tasks.Wire.Parse.Shape.{size, sizes, IsWithin, AllWithin, count-snoc}
use corvint_tasks.Wire.Parse.Canonical.{IsOrdered, AllOrdered, encode_opens, extend, extend_nil}
use corvint_tasks.Wire.Parse.Reads.{
  at, at_state, not_above, wide_after, wide_after-false, length_parts, enter-at, elim-false,
  ValueReads, ArrayReads, ElementsReads,
}

pub elements_reads : (fuel : ℕ) → ValueReads fuel → ElementsReads fuel → ElementsReads (suc fuel)
unfolding elements encode AllWithin AllOrdered sizes extend count after
elements_reads fuel inner rest o bound before v nil t r depth nodes here enough (first, _)
      (ordered, _) short few =
    >>=-parsed (any_value fuel o (at t (suc depth) nodes false)) _
      (v, at (b']' ∷ r) (suc depth) (nodes + size v) (wide_after v false)) _
      (inner o v t (b']' ∷ r) (suc depth) nodes false here (omega arith) first ordered
        (omega arith))
      (expect-true (not (ltb bound (count (snoc before v)))) limit_exceeded _ _
        (not_above before v bound 0 (omega arith))
        (at_state _ r (suc depth - 1) depth (nodes + size v) (nodes + (size v + 0)) _ false
          (omega arith) (omega arith) (wide_after-false v)))
elements_reads fuel inner rest o bound before v (cons w vs) t r depth nodes here enough (first, all)
      (ordered, tail) short few =
    let s = encode_elements (cons w vs) ++ b']' ∷ r in
    let parts = here ∙ append_assoc (encode v) (b',' ∷ encode_elements (cons w vs)) (b']' ∷ r) in
    >>=-parsed (any_value fuel o (at t (suc depth) nodes false)) _
      (v, at (b',' ∷ s) (suc depth) (nodes + size v) (wide_after v false)) _
      (inner o v t (b',' ∷ s) (suc depth) nodes false parts (omega arith) first ordered
        (omega arith))
      (expect-true (not (ltb bound (count (snoc before v)))) limit_exceeded _ _
        (not_above before v bound (count (cons w vs)) (omega arith))
        (ap (λ x. elements fuel o bound (snoc before v) (at s (suc depth) (nodes + size v) x))
            (wide_after-false v)
          ∙ (rest o bound (snoc before v) w vs s r depth (nodes + size v) refl
                (omega (arith, length_parts t (encode v) (b',' ∷ s) parts)) all tail
                (omega (arith, count-snoc before v)) (omega arith)
              ∙ at_state _ r depth depth _ (nodes + sizes (cons v (cons w vs))) false false refl
                  (omega arith) refl)))

pub array_reads : (fuel : ℕ) → ElementsReads fuel → ArrayReads (suc fuel)
unfolding any_array encode IsWithin IsOrdered sizes
array_reads fuel rest o nil t r depth nodes wide here enough (deep, short, all) ordered few =
    ap (λ u. any_array (suc fuel) o (at u depth nodes wide)) here
    ∙ >>=-parsed (enter (at (b'[' ∷ b']' ∷ r) depth nodes wide)) _
        (at (b']' ∷ r) (suc depth) nodes wide) _ (enter-at b'[' (b']' ∷ r) depth nodes wide deep)
        (at_state (arr nil) r (suc depth - 1) depth nodes (nodes + 0) false false (omega arith)
          (omega arith) refl)
array_reads fuel rest o (cons v vs) t r depth nodes wide here enough (deep, short, all) ordered
      few =
    let s = encode_elements (cons v vs) ++ b']' ∷ r in
    let whole =
      here ∙ ap (λ u. b'[' ∷ u) (append_assoc (encode_elements (cons v vs)) (b']' ∷ []) r) in
    ap (λ u. any_array (suc fuel) o (at u depth nodes wide)) whole
    ∙ >>=-parsed (enter (at (b'[' ∷ s) depth nodes wide)) _ (at s (suc depth) nodes wide) _
        (enter-at b'[' s depth nodes wide deep)
        (elim-false (next_is b']' s) _ _ _ (elements_open v vs r) (
          rest o (array_bound o (suc depth) wide) nil v vs s r depth nodes refl
            (omega (arith, ap length whole)) all ordered (omega (arith, short)) few
          ∙ ap (λ us. parsed (arr us, at r depth (nodes + sizes (cons v vs)) false))
              (extend_nil (cons v vs))))
  where
    elements_open :
        (v : Value) (vs : Values) (r : Text)
        → next_is b']' (encode_elements (cons v vs) ++ b']' ∷ r) ≡ false
    elements_open v nil r = encode_opens v (b']' ∷ r)
    elements_open v (cons w vs) r =
        ap (next_is b']') (append_assoc (encode v) (b',' ∷ encode_elements (cons w vs)) (b']' ∷ r))
        ∙ encode_opens v (b',' ∷ (encode_elements (cons w vs) ++ b']' ∷ r))
