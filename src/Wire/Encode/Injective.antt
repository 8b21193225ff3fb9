-- ===== src/Wire/Encode/Injective.antt =====
-- The encoding of a string determines the string, also in front of other text.
use corvint_tasks.Base.{
  ℕ, ◌+◌, ◌-◌, ◌*◌, ◌/◌, ◌%◌, ◌<◌, ◌≡◌, refl, sym, ap, ◌∙◌, true, Option, none, some, [], ◌∷◌, ◌++◌,
  arith, ltb, ◌==◌, if◌then◌else◌, Bool-cases, inl, inr, drop, append_assoc,
}
use corvint_tasks.Text.{Text}
use corvint_tasks.Wire.Encode.{escape_byte, encode_string, hex_digit}
use corvint_tasks.Wire.Encode.Bytewise.{escape_all, encode_string-escape_all}

abbrev unhex : ℕ → ℕ
unhex h = if ltb h 58 then h - 48 else h - 87

-- A reader of escapes: the byte that a text begins with, and the rest; `none` at a quote.
abbrev read_hex : Text → Option (ℕ × Text)
read_hex (a ∷ b ∷ h ∷ l ∷ s) = some (unhex h * 16 + unhex l, s)
read_hex _ = none

abbrev read_escape : Text → Option (ℕ × Text)
read_escape [] = none
read_escape (c ∷ s) =
    if c == 34
    then some (34, s)
    else if c == 92
    then some (92, s)
    else if c == b't'
    then some (9, s)
    else if c == b'n'
    then some (10, s)
    else if c == b'r'
    then some (13, s)
    else read_hex s

abbrev read : Text → Option (ℕ × Text)
read [] = none
read (c ∷ s) = if c == 34 then none else if c == 92 then read_escape s else some (c, s)

unhex-hex_digit : (n : ℕ) → n < 16 → unhex (hex_digit n) ≡ n
unhex-hex_digit n h = ground arith

eq_true : (a b : ℕ) → (a == b) ≡ true → a ≡ b
eq_true a b h = ground arith

read-escape_byte : (c : ℕ) (s : Text) → read (escape_byte c ++ s) ≡ some (c, s)
unfolding escape_byte
read-escape_byte c s = elim (Bool-cases (c == 34)) [
  | inl quote ↦ rw (eq_true c 34 quote) refl
  | inr a ↦ elim (Bool-cases (c == 92)) [
    | inl slash ↦ rw (eq_true c 92 slash) refl
    | inr b ↦ elim (Bool-cases (c == 9)) [
      | inl tab ↦ rw (eq_true c 9 tab) refl
      | inr d ↦ elim (Bool-cases (c == 10)) [
        | inl newline ↦ rw (eq_true c 10 newline) refl
        | inr e ↦ elim (Bool-cases (c == 13)) [
          | inl return ↦ rw (eq_true c 13 return) refl
          | inr f ↦ elim (Bool-cases (ltb c 0x20)) [
            | inl control ↦
                let high = unhex-hex_digit (c / 16) (ground arith) in
                let low = unhex-hex_digit (c % 16) (ground arith) in
                rw (a, b, d, e, f, control, high, low) (ap (λ (k : ℕ). some (k, s)) (omega arith))
            | inr plain ↦ rw (a, b, d, e, f, plain, a, b) refl
          ]
        ]
      ]
    ]
  ]
]

read-escape_all :
    (c : ℕ) (s r : Text) → read (escape_all (c ∷ s) ++ 34 ∷ r) ≡ some (c, escape_all s ++ 34 ∷ r)
unfolding escape_all
read-escape_all c s r =
    rw (append_assoc (escape_byte c) (escape_all s) (34 ∷ r))
      (read-escape_byte c (escape_all s ++ 34 ∷ r))

none-ne-some {ℓ} : {A : Type ℓ} {a : A} → ◌≡◌ {A = Option A} none (some a) → ⊥
none-ne-some e = cc

some_parts :
    {c d : ℕ} {s t : Text}
    → ◌≡◌ {A = Option (ℕ × Text)} (some (c, s)) (some (d, t))
    → (c ≡ d) × (s ≡ t)
some_parts e = (cc, cc)

-- Up to the closing quote, the escapes determine the string and where it ends.
escape_all_ends :
    (s t r q : Text) → escape_all s ++ 34 ∷ r ≡ escape_all t ++ 34 ∷ q → (s ≡ t) × (r ≡ q)
unfolding escape_all
escape_all_ends [] [] r q e = (refl, ap (drop 1) e)
escape_all_ends [] (d ∷ t) r q e = absurd (none-ne-some (ap read e ∙ read-escape_all d t q))
escape_all_ends (c ∷ s) [] r q e = absurd (none-ne-some (ap read (sym e) ∙ read-escape_all c s r))
escape_all_ends (c ∷ s) (d ∷ t) r q e =
    let (head, rest) =
      some_parts (sym (read-escape_all c s r) ∙ (ap read e ∙ read-escape_all d t q)) in
    let (tail, after) = escape_all_ends s t r q rest in (rw (head, tail) refl, after)

-- The encoding of a string is a prefix code: in front of any text, it determines the string and the
-- text behind it.
pub encode_string_injective :
    (s t r q : Text) → encode_string s ++ r ≡ encode_string t ++ q → (s ≡ t) × (r ≡ q)
encode_string_injective s t r q e =
    escape_all_ends s t r q
      (inside (rw (encode_string-escape_all s, encode_string-escape_all t) at e))
  where
    inside :
        34 ∷ (escape_all s ++ 34 ∷ []) ++ r ≡ 34 ∷ (escape_all t ++ 34 ∷ []) ++ q
        → escape_all s ++ 34 ∷ r ≡ escape_all t ++ 34 ∷ q
    inside h =
        sym (append_assoc (escape_all s) (34 ∷ []) r)
        ∙ (ap (drop 1) h ∙ append_assoc (escape_all t) (34 ∷ []) q)
