-- ===== src/Wire/Encode/Bytewise.antt =====
-- appendString moves on by whole runes; what it writes is the escape of each byte.
use corvint_tasks.Base.{
  ℕ, zero, suc, ◌-◌, ◌≡◌, refl, false, ◌&&◌, [], ◌∷◌, ◌++◌, arith, ltb, leb, Bool-cases, inl, inr,
}
use corvint_tasks.Text.{Text}
use corvint_tasks.Wire.Utf8.{decode_rune, decode_two, decode_three, decode_four}
use corvint_tasks.Wire.Encode.{escape_byte, escape_from, encode_string}

-- The escapes of the bytes, one after the other.
unfoldable pub escape_all : Text → Text
unfolding escape_byte
escape_all [] = []
escape_all (c ∷ s) = escape_byte c ++ escape_all s

-- The first bytes of a text are not ASCII.
abbrev IsWide : ℕ → Text → Type 0
IsWide zero s = Unit
IsWide (suc k) [] = Unit
IsWide (suc k) (d ∷ s) = (ltb d 0x80 ≡ false) × IsWide k s

decode_two-IsWide : (c : ℕ) (s : Text) → IsWide ((decode_two c s).1 - 1) s
unfolding decode_two
decode_two-IsWide c [] = tt
decode_two-IsWide c (d ∷ s) = elim (Bool-cases (leb 0x80 d && leb d 0xBF)) [
  | inl more ↦ rw more (ground arith, tt)
  | inr less ↦ rw less tt
]

decode_three-IsWide : (c : ℕ) (s : Text) → IsWide ((decode_three c s).1 - 1) s
unfolding decode_three
decode_three-IsWide c [] = tt
decode_three-IsWide c (d ∷ []) = tt
decode_three-IsWide c (d ∷ e ∷ s) = ground arith

decode_four-IsWide : (c : ℕ) (s : Text) → IsWide ((decode_four c s).1 - 1) s
unfolding decode_four
decode_four-IsWide c [] = tt
decode_four-IsWide c (d ∷ []) = tt
decode_four-IsWide c (d ∷ e ∷ []) = tt
decode_four-IsWide c (d ∷ e ∷ f ∷ s) = ground arith

-- Behind the first byte of a rune, its further bytes are not ASCII.
decode_rune-IsWide : (c : ℕ) (s : Text) → IsWide ((decode_rune (c ∷ s)).1 - 1) s
unfolding decode_rune
decode_rune-IsWide c s = elim (Bool-cases (ltb c 0x80)) [
  | inl ascii ↦ rw ascii tt
  | inr wide ↦ elim (Bool-cases (leb 0xC2 c && leb c 0xDF)) [
    | inl two ↦ rw (wide, two) (decode_two-IsWide c s)
    | inr more ↦ elim (Bool-cases (leb 0xE0 c && leb c 0xEF)) [
      | inl three ↦ rw (wide, more, three) (decode_three-IsWide c s)
      | inr most ↦ elim (Bool-cases (leb 0xF0 c && leb c 0xF4)) [
        | inl four ↦ rw (wide, more, most, four) (decode_four-IsWide c s)
        | inr bad ↦ rw (wide, more, most, bad) tt
      ]
    ]
  ]
]

escape_byte_wide : (c : ℕ) → ltb c 0x80 ≡ false → escape_byte c ≡ c ∷ []
unfolding escape_byte
escape_byte_wide c h = ground arith

escape_from-escape_all : (k : ℕ) (s : Text) → IsWide k s → escape_from k s ≡ escape_all s
unfolding escape_from escape_all
escape_from-escape_all k [] w = refl
escape_from-escape_all (suc k) (c ∷ s) (wide, rest) =
    rw (escape_byte_wide c wide, escape_from-escape_all k s rest) refl
escape_from-escape_all zero (c ∷ s) w = elim (Bool-cases (ltb c 0x80)) [
  | inl ascii ↦ rw (ascii, escape_from-escape_all 0 s tt) refl
  | inr wide ↦
      rw
        (
          escape_from-escape_all ((decode_rune (c ∷ s)).1 - 1) s (decode_rune-IsWide c s),
          wide,
          escape_byte_wide c wide,
        )
        refl
]

-- A string is encoded byte by byte: its quotes, and between them the escape of each byte in turn,
-- whether or not the bytes are well-formed UTF-8.
pub encode_string-escape_all : (s : Text) → encode_string s ≡ 34 ∷ (escape_all s ++ 34 ∷ [])
unfolding encode_string
encode_string-escape_all s = rw (escape_from-escape_all 0 s tt) refl
