-- ===== src/Wire/Encode/Valid.antt =====
-- The escapes of a text without hostile code points are well-formed UTF-8.
use corvint_tasks.Base.{
  ℕ, zero, suc, ◌+◌, ◌-◌, ◌*◌, ◌≤◌, ◌≡◌, refl, sym, ap, ◌∙◌, Bool, true, false, ◌&&◌, [], ◌∷◌, ◌++◌,
  arith, ltb, leb, ◌==◌, if◌then◌else◌, length, Bool-cases, inl, inr, append_assoc,
}
use corvint_tasks.Text.{Text}
use corvint_tasks.Wire.Code.{ok, err, malformed}
use corvint_tasks.Wire.Utf8.{
  rune_error, is_continuation, decode_two, decode_three, decode_four, decode_rune, hostile_rune,
  check_hostile_from, check_hostile, valid_from,
}
use corvint_tasks.Wire.Encode.{escape_byte, escape_from, encode_string}

-- The result of the decoder for bytes that are not well-formed.
abbrev is_bad : ℕ × ℕ → Bool
is_bad (r, size) = (r == rune_error) && leb size 1

-- The first rune of a text is read alike in front of another text, and its bytes stand in the text.
abbrev IsCopied : (Text → ℕ × ℕ) → Text → Text → Type 0
IsCopied decode s t =
    (decode (escape_from ((decode s).1 - 1) s ++ t) ≡ decode s) × ((decode s).1 - 1 ≤ length s)

copied :
    (decode : Text → ℕ × ℕ) (s t : Text) (b : Bool) (r n : ℕ)
    → decode s ≡ (if b then (r, n) else (rune_error, 1))
    → decode (escape_from (n - 1) s ++ t) ≡ (if b then (r, n) else (rune_error, 1))
    → n - 1 ≤ length s
    → is_bad (decode s) ≡ false
    → IsCopied decode s t
copied decode s t true r n p q le good = rw (p, q) (refl, le)
copied decode s t false r n p q le good = absurd (bad (rw p at good))
  where
    bad : true ≡ false → ⊥
    bad e = cc

two-IsCopied : (c : ℕ) (s t : Text) → is_bad (decode_two c s) ≡ false → IsCopied (decode_two c) s t
unfolding decode_two escape_from
two-IsCopied c [] t good = cc
two-IsCopied c (d ∷ s) t good =
    copied (decode_two c) (d ∷ s) t (is_continuation d) _ 2 refl refl (omega arith) good

three-IsCopied :
    (c : ℕ) (s t : Text) → is_bad (decode_three c s) ≡ false → IsCopied (decode_three c) s t
unfolding decode_three escape_from
three-IsCopied c [] t good = cc
three-IsCopied c (d ∷ []) t good = cc
three-IsCopied c (d ∷ e ∷ s) t good =
    copied (decode_three c) (d ∷ e ∷ s) t
      ((leb (if c == 0xE0 then 0xA0 else 0x80) d && leb d (if c == 0xED then 0x9F else 0xBF))
        && is_continuation e)
      ((c - 0xE0) * 4096 + (d - 0x80) * 64 + (e - 0x80)) 3 refl refl (omega arith) good

four-IsCopied :
    (c : ℕ) (s t : Text) → is_bad (decode_four c s) ≡ false → IsCopied (decode_four c) s t
unfolding decode_four escape_from
four-IsCopied c [] t good = cc
four-IsCopied c (d ∷ []) t good = cc
four-IsCopied c (d ∷ e ∷ []) t good = cc
four-IsCopied c (d ∷ e ∷ f ∷ s) t good =
    copied (decode_four c) (d ∷ e ∷ f ∷ s) t
      ((leb (if c == 0xF0 then 0x90 else 0x80) d && leb d (if c == 0xF4 then 0x8F else 0xBF))
        && (is_continuation e && is_continuation f))
      ((c - 0xF0) * 262144 + (d - 0x80) * 4096 + (e - 0x80) * 64 + (f - 0x80)) 4 refl refl
      (omega arith) good

-- The same behind the first byte of a rune.
rune_is_read_alike :
    (c : ℕ) (s t : Text)
    → ltb c 0x80 ≡ false
    → is_bad (decode_rune (c ∷ s)) ≡ false
    → (decode_rune (c ∷ (escape_from ((decode_rune (c ∷ s)).1 - 1) s ++ t)) ≡ decode_rune (c ∷ s))
      × ((decode_rune (c ∷ s)).1 - 1 ≤ length s)
unfolding decode_rune
rune_is_read_alike c s t wide good = elim (Bool-cases (leb 0xC2 c && leb c 0xDF)) [
  | inl two ↦ rw (wide, two) (two-IsCopied c s t (rw (wide, two) at good))
  | inr more ↦ elim (Bool-cases (leb 0xE0 c && leb c 0xEF)) [
    | inl three ↦ rw (wide, more, three) (three-IsCopied c s t (rw (wide, more, three) at good))
    | inr most ↦ elim (Bool-cases (leb 0xF0 c && leb c 0xF4)) [
      | inl four ↦
          rw (wide, more, most, four) (four-IsCopied c s t (rw (wide, more, most, four) at good))
      | inr none_of_these ↦ absurd (bad (rw (wide, more, most, none_of_these) at good))
    ]
  ]
]
  where
    bad : true ≡ false → ⊥
    bad e = cc

-- One step of the check for well-formed text, from a result of the decoder.
valid_step :
    (c : ℕ) (s : Text) (p : ℕ × ℕ)
    → decode_rune (c ∷ s) ≡ p
    → is_bad p ≡ false
    → valid_from 0 (c ∷ s) ≡ valid_from (p.1 - 1) s
unfolding valid_from
valid_step c s p e good =
    ap (λ (q : ℕ × ℕ). if is_bad q then false else valid_from (q.1 - 1) s) e ∙ rw good refl

-- One step of the check for hostile code points.
hostile_step :
    (c : ℕ) (s : Text) (allow : Bool)
    → check_hostile_from 0 (c ∷ s) allow ≡ ok tt
    → (is_bad (decode_rune (c ∷ s)) ≡ false)
      × (check_hostile_from ((decode_rune (c ∷ s)).1 - 1) s allow ≡ ok tt)
unfolding check_hostile_from
hostile_step c s allow clean =
    go (is_bad (decode_rune (c ∷ s))) (hostile_rune (decode_rune (c ∷ s)).0 allow) clean
  where
    go :
        (bad hostile : Bool)
        → (if bad
            then err malformed
            else if hostile
            then err malformed
            else check_hostile_from ((decode_rune (c ∷ s)).1 - 1) s allow)
          ≡ ok tt
        → (bad ≡ false) × (check_hostile_from ((decode_rune (c ∷ s)).1 - 1) s allow ≡ ok tt)
    go true hostile e = cc
    go false true e = cc
    go false false e = (refl, e)

decode_rune_ascii : (c : ℕ) (s : Text) → ltb c 0x80 ≡ true → decode_rune (c ∷ s) ≡ (c, 1)
unfolding decode_rune
decode_rune_ascii c s h = rw h refl

pub valid_ascii : (c : ℕ) (s : Text) → ltb c 0x80 ≡ true → valid_from 0 (c ∷ s) ≡ valid_from 0 s
valid_ascii c s h = valid_step c s (c, 1) (decode_rune_ascii c s h) (ground arith)

-- All bytes are ASCII.
abbrev pub AllAscii : Text → Type 0
AllAscii [] = Unit
AllAscii (c ∷ s) = (ltb c 0x80 ≡ true) × AllAscii s

pub valid_from-AllAscii : (s t : Text) → AllAscii s → valid_from 0 (s ++ t) ≡ valid_from 0 t
valid_from-AllAscii [] t h = refl
valid_from-AllAscii (c ∷ s) t (here, rest) =
    valid_ascii c (s ++ t) here ∙ valid_from-AllAscii s t rest

escape_byte-AllAscii : (c : ℕ) → ltb c 0x80 ≡ true → AllAscii (escape_byte c)
unfolding escape_byte
escape_byte-AllAscii c h = ground arith

escape_ascii :
    (c : ℕ) (s : Text)
    → ltb c 0x80 ≡ true
    → escape_from 0 (c ∷ s) ≡ escape_byte c ++ escape_from 0 s
unfolding escape_from
escape_ascii c s h = rw h refl

escape_wide :
    (c : ℕ) (s : Text)
    → ltb c 0x80 ≡ false
    → escape_from 0 (c ∷ s) ≡ c ∷ escape_from ((decode_rune (c ∷ s)).1 - 1) s
unfolding escape_from
escape_wide c s h = rw h refl

-- Behind the escapes of a text without hostile code points, well-formed text is well-formed.
escape_from_valid :
    (skip : ℕ) (s t : Text) (allow : Bool)
    → check_hostile_from skip s allow ≡ ok tt
    → skip ≤ length s
    → valid_from 0 t ≡ true
    → valid_from skip (escape_from skip s ++ t) ≡ true
unfolding escape_from check_hostile_from valid_from
escape_from_valid zero [] t allow clean le rest = rest
escape_from_valid (suc k) [] t allow clean le rest = absurd (omega arith)
escape_from_valid (suc k) (c ∷ s) t allow clean le rest =
    escape_from_valid k s t allow clean (omega arith) rest
escape_from_valid zero (c ∷ s) t allow clean le rest =
    let (good, later) = hostile_step c s allow clean in
    elim (Bool-cases (ltb c 0x80)) [
      | inl ascii ↦
          let after_byte = sym (
            ap (λ (p : ℕ × ℕ). check_hostile_from (p.1 - 1) s allow)
              (decode_rune_ascii c s ascii)) in
          ap (λ u. valid_from 0 (u ++ t)) (escape_ascii c s ascii)
          ∙ (ap (valid_from 0) (append_assoc (escape_byte c) (escape_from 0 s) t)
              ∙ (valid_from-AllAscii (escape_byte c) (escape_from 0 s ++ t)
                    (escape_byte-AllAscii c ascii)
                  ∙ escape_from_valid 0 s t allow (after_byte ∙ later) (omega arith) rest))
      | inr wide ↦
          let k = (decode_rune (c ∷ s)).1 - 1 in
          let (same, fits) = rune_is_read_alike c s t wide good in
          ap (λ u. valid_from 0 (u ++ t)) (escape_wide c s wide)
          ∙ (valid_step c (escape_from k s ++ t) (decode_rune (c ∷ s)) same good
              ∙ escape_from_valid k s t allow later fits rest)
    ]

-- Behind the encoding of a text without hostile code points, well-formed text is well-formed.
pub encode_string_valid :
    (s t : Text)
    → check_hostile s true ≡ ok tt
    → valid_from 0 t ≡ true
    → valid_from 0 (encode_string s ++ t) ≡ true
unfolding encode_string check_hostile
encode_string_valid s t clean rest =
    valid_ascii 34 ((escape_from 0 s ++ 34 ∷ []) ++ t) refl
    ∙ (ap (valid_from 0) (append_assoc (escape_from 0 s) (34 ∷ []) t)
        ∙ escape_from_valid 0 s (34 ∷ t) true clean (omega arith) (valid_ascii 34 t refl ∙ rest))
