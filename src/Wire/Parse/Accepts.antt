-- ===== src/Wire/Parse/Accepts.antt =====
-- What ParseWith of internal/wire/parse.go accepts.
use corvint_tasks.Base.{◌≤◌, ◌≡◌, ◌≢◌, sym, ap, ◌∙◌, false, not, ◌↔◌, [], ◌∷◌, ◌++◌, arith, length}
use corvint_tasks.Text.{
  Text, text_eq, text_eq→eq, has_prefix, ends_with_byte, drop_last, drop_last-ends_with_byte,
}
use corvint_tasks.Wire.Code.{Code, malformed}
use corvint_tasks.Wire.Utf8.{valid_utf8}
use corvint_tasks.Wire.Value.{Value}
use corvint_tasks.Wire.Encode.{encode, encode_file}
use corvint_tasks.Wire.Scan.{Options}
use corvint_tasks.Wire.Parsed.{
  IsParseCode, Yields-failed, Parsed, parsed, failed, out_of_fuel, Yields, Yields->>=,
  Yields-expect, Yields-out_of_fuel, Yields-parsed,
}
use corvint_tasks.Wire.Parse.{any_value, set_defaults, begin, fuel_for, byte_order_mark, parse_with}
use corvint_tasks.Wire.Parse.Shape.{size, IsWithin}
use corvint_tasks.Wire.Parse.Order.{in_order}
use corvint_tasks.Wire.Parse.Order.Kept.{parse_with-encode_file}
use corvint_tasks.Wire.Parse.Returns.{IsRead}
use corvint_tasks.Wire.Parse.Returns.Whole.{value_reads}

-- What holds of the value of a document that is accepted.
record IsAccepted (text : Text) (o : Options) (v : Value) : Type 0 where
  within : IsWithin o 0 false v
  few : size v ≤ o.max_nodes
  canonical : encode_file v ≡ text

parse_with-Yields :
    (text : Text) (o : Options) → Yields (IsAccepted text (set_defaults o)) (parse_with text o)
unfolding parse_with encode_file
parse_with-Yields text o =
    let s = set_defaults o in
    let body = drop_last text in
    let Q = IsAccepted text s in
    Yields-expect Q (not (text_eq text [])) malformed tt _ (λ _.
      Yields-expect Q (valid_utf8 text) malformed tt _ (λ _.
        Yields-expect Q (not (has_prefix text byte_order_mark)) malformed tt _ (λ _.
          Yields-expect Q (ends_with_byte 10 text) malformed tt _ (λ ends.
            Yields->>= (IsRead s (length body) 0 false 0) Q
              (any_value (fuel_for body) s (begin body)) _
              (value_reads (fuel_for body) s (begin body) (omega arith))
              (λ (v, p) r. Yields-expect Q (text_eq p.rest []) malformed tt _ (λ _.
                Yields-expect Q (text_eq (encode v) body) malformed tt _ (λ same. record {
                  within = r.within;
                  few = omega (arith, r.nodes, r.few);
                  canonical =
                      ap (λ b. b ++ 10 ∷ []) (text_eq→eq (encode v) body same)
                      ∙ drop_last-ends_with_byte 10 text ends;
                })))))))

-- ParseWith always has a result: four units of fuel for each byte, and one more, are enough for the
-- nested loops of the parser on any bytes under any options.
pub parse_with_returns : (text : Text) (o : Options) → parse_with text o ≢ out_of_fuel
parse_with_returns text o =
    Yields-out_of_fuel (IsAccepted text (set_defaults o)) (parse_with text o)
      (parse_with-Yields text o)

-- ParseWith refuses a document with the code MALFORMED or LIMIT_EXCEEDED, and with no other.
pub parse_with_refuses :
    (text : Text) (o : Options) (code : Code) → parse_with text o ≡ failed code → IsParseCode code
parse_with_refuses text o code h =
    Yields-failed (IsAccepted text (set_defaults o)) (parse_with text o) code
      (parse_with-Yields text o) h

same_value : (u v : Value) → ◌≡◌ {A = Parsed Value} (parsed u) (parsed v) → u ≡ v
same_value u v e = cc

-- ParseWith accepts a document as a value exactly if the value has at most the nodes of the options and
-- is within the other bounds that they set (at most 24 nested brackets, arrays of at most 10,000 elements
-- but the one that the wide key names, no key twice in an object, no hostile code point in a text or a
-- key), the keys of its objects ascend, and the bytes are those that EncodeFile writes for it.
pub parse_with_iff :
    (text : Text) (o : Options) (v : Value)
    → (parse_with text o ≡ parsed v) ↔ (
        IsWithin (set_defaults o) 0 false v
        × (size v ≤ (set_defaults o).max_nodes)
        × (in_order v ≡ v)
        × (encode_file v ≡ text))
parse_with_iff text o v = (accepted, accepts)
  where
    accepted :
        parse_with text o ≡ parsed v
        → IsWithin (set_defaults o) 0 false v
          × (size v ≤ (set_defaults o).max_nodes)
          × (in_order v ≡ v)
          × (encode_file v ≡ text)
    accepted done =
        let a =
          Yields-parsed (IsAccepted text (set_defaults o)) (parse_with text o) v
            (parse_with-Yields text o) done in
        let again =
          ap (λ t. parse_with t o) (sym a.canonical) ∙ parse_with-encode_file o v a.within a.few in
        (a.within, a.few, same_value (in_order v) v (sym again ∙ done), a.canonical)

    accepts :
        IsWithin (set_defaults o) 0 false v
          × (size v ≤ (set_defaults o).max_nodes)
          × (in_order v ≡ v)
          × (encode_file v ≡ text)
        → parse_with text o ≡ parsed v
    accepts (within, few, ordered, bytes) =
        ap (λ t. parse_with t o) (sym bytes)
        ∙ (parse_with-encode_file o v within few ∙ ap (λ u. parsed u) ordered)
