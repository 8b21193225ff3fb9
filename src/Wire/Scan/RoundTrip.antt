-- ===== src/Wire/Scan/RoundTrip.antt =====
-- The reader of strings undoes their encoding.
use corvint_tasks.Base.{
  ℕ, zero, suc, ◌+◌, ◌*◌, ◌/◌, ◌%◌, ◌≤◌, ◌<◌, ◌≡◌, refl, sym, ap, ◌∙◌, true, false, ◌&&◌, Option,
  none, some, [], ◌∷◌, ◌++◌, arith, ltb, leb, ◌==◌, if◌then◌else◌, length, length-append,
  append_assoc, append_nil, drop, Bool-cases, inl, inr,
}
use corvint_tasks.Text.{Text}
use corvint_tasks.Wire.Code.{ok, malformed}
use corvint_tasks.Wire.Utf8.{append_rune, check_hostile}
use corvint_tasks.Wire.Encode.{escape_byte, encode_string, hex_digit}
use corvint_tasks.Wire.Encode.Bytewise.{escape_all, encode_string-escape_all}
use corvint_tasks.Wire.Scan.{
  close, Parser, hex_val, hex_digits, hex4, Turn, more, refuse, low_surrogate, unicode_escape,
  escape_turn, str_turn, str_loop, str,
}
use corvint_tasks.Wire.Parsed.{Parsed, parsed, failed}

eq_of_test : (a b : ℕ) → (a == b) ≡ true → a ≡ b
eq_of_test a b h = ground arith

hex_val-hex_digit : (n : ℕ) → n < 16 → hex_val (hex_digit n) ≡ some n
unfolding hex_val
hex_val-hex_digit n h = ground arith

hex_digits_step :
    (n r c h : ℕ) (s : Text)
    → hex_val c ≡ some h
    → hex_digits (suc n) r (c ∷ s) ≡ hex_digits n (r * 16 + h) s
unfolding hex_digits
hex_digits_step n r c h s e =
    ap
      (λ (o : Option ℕ). elim o as (λ _. Option (ℕ × Text)) [
        | none ↦ none
        | some i ↦ hex_digits n (r * 16 + i) s
      ])
      e

zero_digit : hex_val b'0' ≡ some 0
unfolding hex_val
zero_digit = refl

hex4-byte :
    (a b h l : ℕ) (s : Text)
    → hex_val a ≡ some h
    → hex_val b ≡ some l
    → hex4 (b'0' ∷ b'0' ∷ a ∷ b ∷ s) ≡ some (h * 16 + l, s)
unfolding hex4
hex4-byte a b h l s p q = rw (long (length s)) (
    hex_digits_step 3 0 b'0' 0 (b'0' ∷ a ∷ b ∷ s) zero_digit
    ∙ (hex_digits_step 2 (0 * 16 + 0) b'0' 0 (a ∷ b ∷ s) zero_digit
        ∙ (hex_digits_step 1 ((0 * 16 + 0) * 16 + 0) a h (b ∷ s) p
            ∙ (hex_digits_step 0 (((0 * 16 + 0) * 16 + 0) * 16 + h) b l s q
                ∙ ap (λ (n : ℕ). some (n, s)) (omega arith)))))
  where
    long : (n : ℕ) → ltb (suc (suc (suc (suc n)))) 4 ≡ false
    long n = ground arith

ascii_turn :
    (c : ℕ) (out t : Text)
    → c < 0x80
    → (if leb 0xD800 c && leb c 0xDBFF
        then low_surrogate c out t
        else if leb 0xDC00 c && leb c 0xDFFF
        then refuse
        else more (append_rune out c) t)
      ≡ more (out ++ c ∷ []) t
unfolding append_rune
ascii_turn c out t h = ground arith

-- An escape of an ASCII code point.
unicode_escape-ascii :
    (c : ℕ) (out s t : Text)
    → c < 0x80
    → hex4 s ≡ some (c, t)
    → unicode_escape out s ≡ more (out ++ c ∷ []) t
unfolding unicode_escape append_rune
unicode_escape-ascii c out s t h e =
    ap
      (λ (o : Option (ℕ × Text)). elim o as (λ _. Turn) [
        | none ↦ refuse
        | some (r, u) ↦
            if leb 0xD800 r && leb r 0xDBFF
            then low_surrogate r out u
            else if leb 0xDC00 r && leb r 0xDFFF
            then refuse
            else more (append_rune out r) u
      ])
      e
    ∙ ascii_turn c out t h

control_turn :
    (c : ℕ) (out s : Text)
    → c < 0x20
    → unicode_escape out (b'0' ∷ b'0' ∷ hex_digit (c / 16) ∷ hex_digit (c % 16) ∷ s)
      ≡ more (out ++ c ∷ []) s
control_turn c out s h =
    let high = hex_val-hex_digit (c / 16) (omega arith) in
    let low = hex_val-hex_digit (c % 16) (omega arith) in
    unicode_escape-ascii c out (b'0' ∷ b'0' ∷ hex_digit (c / 16) ∷ hex_digit (c % 16) ∷ s) s
      (omega arith)
      (hex4-byte (hex_digit (c / 16)) (hex_digit (c % 16)) (c / 16) (c % 16) s high low
        ∙ ap (λ (n : ℕ). some (n, s)) (omega arith))

str_turn-escape_byte :
    (c : ℕ) (out s : Text) → str_turn out (escape_byte c ++ s) ≡ more (out ++ c ∷ []) s
unfolding str_turn escape_byte escape_turn
str_turn-escape_byte c out s = elim (Bool-cases (c == 34)) [
  | inl quote ↦ rw (eq_of_test c 34 quote) refl
  | inr a ↦ elim (Bool-cases (c == 92)) [
    | inl slash ↦ rw (eq_of_test c 92 slash) refl
    | inr b ↦ elim (Bool-cases (c == 9)) [
      | inl tab ↦ rw (eq_of_test c 9 tab) refl
      | inr d ↦ elim (Bool-cases (c == 10)) [
        | inl newline ↦ rw (eq_of_test c 10 newline) refl
        | inr e ↦ elim (Bool-cases (c == 13)) [
          | inl return ↦ rw (eq_of_test c 13 return) refl
          | inr f ↦ elim (Bool-cases (ltb c 0x20)) [
            | inl control ↦ rw (a, b, d, e, f, control) (control_turn c out s (ground arith))
            | inr plain ↦ rw (a, b, d, e, f, plain, a, b, plain) refl
          ]
        ]
      ]
    ]
  ]
]

-- What str_loop does after a turn.
str_loop_more :
    (fuel : ℕ) (out s out' t : Text)
    → str_turn out s ≡ more out' t
    → str_loop (suc fuel) out s ≡ str_loop fuel out' t
unfolding str_loop
str_loop_more fuel out s out' t e =
    ap
      (λ (turn : Turn). elim turn as (λ _. Parsed (Text × Text)) [
        | close u ↦ parsed (out, u)
        | refuse ↦ failed malformed
        | more next u ↦ str_loop fuel next u
      ])
      e

str_loop-escape_all :
    (fuel : ℕ) (out s r : Text)
    → length s < fuel
    → str_loop fuel out (escape_all s ++ 34 ∷ r) ≡ parsed (out ++ s, r)
unfolding str_loop escape_all
str_loop-escape_all zero out s r h = absurd (omega arith)
str_loop-escape_all (suc fuel) out [] r h = ap (λ t. parsed (t, r)) (sym (append_nil out))
str_loop-escape_all (suc fuel) out (c ∷ s) r h =
    ap (str_loop (suc fuel) out) (append_assoc (escape_byte c) (escape_all s) (34 ∷ r))
    ∙ (str_loop_more fuel out (escape_byte c ++ (escape_all s ++ 34 ∷ r)) (out ++ c ∷ [])
          (escape_all s ++ 34 ∷ r) (str_turn-escape_byte c out (escape_all s ++ 34 ∷ r))
        ∙ (str_loop-escape_all fuel (out ++ c ∷ []) s r (omega arith)
            ∙ ap (λ t. parsed (t, r)) (append_assoc out (c ∷ []) s)))

length-escape_byte : (c : ℕ) → 1 ≤ length (escape_byte c)
unfolding escape_byte
length-escape_byte c = ground arith

length-escape_all : (s : Text) → length s ≤ length (escape_all s)
unfolding escape_all
length-escape_all [] = omega arith
length-escape_all (c ∷ s) =
    omega (
      arith,
      length-append (escape_byte c) (escape_all s),
      length-escape_byte c,
      length-escape_all s,
    )

-- Behind the encoding of a text without hostile code points, the reader of strings has read the text
-- and is in front of the rest.
pub str-encode_string :
    (p : Parser) (s r : Text)
    → p.rest ≡ encode_string s ++ r
    → check_hostile s true ≡ ok tt
    → str p ≡ parsed (s, record p { rest = r })
unfolding str
str-encode_string p s r here clean =
    let whole =
      here
      ∙ (ap (λ t. t ++ r) (encode_string-escape_all s)
          ∙ ap (λ t. 34 ∷ t) (append_assoc (escape_all s) (34 ∷ []) r)) in
    let body = ap (drop 1) whole in
    let enough = length-append (escape_all s) (34 ∷ r) in
    let read =
      ap (λ t. str_loop (suc (length t)) [] t) body
      ∙ str_loop-escape_all (suc (length (escape_all s ++ 34 ∷ r))) [] s r
          (omega (arith, enough, length-escape_all s)) in
    rw (read, clean) refl
