-- ===== src/Wire/Utf8.antt =====
-- What internal/wire/primitives.go uses of unicode/utf8, and its check for hostile code points.
use corvint_tasks.Base.{
  ℕ, zero, suc, ◌+◌, ◌-◌, ◌*◌, Bool, true, false, not, ◌&&◌, ◌||◌, [], ◌∷◌, ◌++◌, ◌/◌, ◌%◌, ltb,
  leb, ◌==◌, if◌then◌else◌,
}
use corvint_tasks.Text.{Text}
use corvint_tasks.Wire.Code.{Result, ok, err, malformed}

-- utf8.RuneError
abbrev pub rune_error : ℕ
rune_error = 0xFFFD

abbrev pub is_continuation : ℕ → Bool
is_continuation d = leb 0x80 d && leb d 0xBF

unfoldable pub decode_two : ℕ → Text → ℕ × ℕ
decode_two c [] = (rune_error, 1)
decode_two c (d ∷ _) =
    if is_continuation d then ((c - 0xC0) * 64 + (d - 0x80), 2) else (rune_error, 1)

-- Overlong forms and surrogates are refused by the range of the second byte.
unfoldable pub decode_three : ℕ → Text → ℕ × ℕ
decode_three c [] = (rune_error, 1)
decode_three c (d ∷ []) = (rune_error, 1)
decode_three c (d ∷ e ∷ _) =
    if (leb (if c == 0xE0 then 0xA0 else 0x80) d && leb d (if c == 0xED then 0x9F else 0xBF))
      && is_continuation e
    then ((c - 0xE0) * 4096 + (d - 0x80) * 64 + (e - 0x80), 3)
    else (rune_error, 1)

unfoldable pub decode_four : ℕ → Text → ℕ × ℕ
decode_four c [] = (rune_error, 1)
decode_four c (d ∷ []) = (rune_error, 1)
decode_four c (d ∷ e ∷ []) = (rune_error, 1)
decode_four c (d ∷ e ∷ f ∷ _) =
    if (leb (if c == 0xF0 then 0x90 else 0x80) d && leb d (if c == 0xF4 then 0x8F else 0xBF))
      && (is_continuation e && is_continuation f)
    then ((c - 0xF0) * 262144 + (d - 0x80) * 4096 + (e - 0x80) * 64 + (f - 0x80), 4)
    else (rune_error, 1)

-- utf8.DecodeRuneInString: the code point and its width in bytes
unfoldable pub decode_rune : Text → ℕ × ℕ
unfolding decode_two decode_three decode_four
decode_rune [] = (rune_error, 0)
decode_rune (c ∷ s) =
    if ltb c 0x80
    then (c, 1)
    else if leb 0xC2 c && leb c 0xDF
    then decode_two c s
    else if leb 0xE0 c && leb c 0xEF
    then decode_three c s
    else if leb 0xF0 c && leb c 0xF4
    then decode_four c s
    else (rune_error, 1)

-- hostileRune; a decoded rune is never a surrogate nor above 0x10FFFF, the cases stand here as in
-- the source
unfoldable pub hostile_rune : ℕ → Bool → Bool
hostile_rune r allow_tab_lf_cr =
    if r == 0
    then true
    else if r == 9
    then not allow_tab_lf_cr
    else if r == 10
    then not allow_tab_lf_cr
    else if r == 13
    then not allow_tab_lf_cr
    else if ltb r 0x20
    then true
    else if leb 0x80 r && leb r 0x9F
    then true
    else if r == 0xFEFF
    then true
    else if r == 0x061C
    then true
    else if r == 0x200E
    then true
    else if r == 0x200F
    then true
    else if leb 0x202A r && leb r 0x202E
    then true
    else if leb 0x2066 r && leb r 0x2069
    then true
    else if leb 0xD800 r && leb r 0xDFFF
    then true
    else ltb 0x10FFFF r

-- The loop of checkHostile. The index moves on by the width of a rune: `skip` counts the bytes of
-- the current rune that are still to pass.
unfoldable pub check_hostile_from : ℕ → Text → Bool → Result (Unit {0})
unfolding decode_rune hostile_rune
check_hostile_from skip [] allow = ok tt
check_hostile_from (suc skip) (c ∷ s) allow = check_hostile_from skip s allow
check_hostile_from zero (c ∷ s) allow =
    let (r, size) = decode_rune (c ∷ s) in
    if (r == rune_error) && leb size 1
    then err malformed
    else if hostile_rune r allow
    then err malformed
    else check_hostile_from (size - 1) s allow

unfoldable pub check_hostile : Text → Bool → Result (Unit {0})
unfolding check_hostile_from
check_hostile s allow = check_hostile_from 0 s allow

-- utf8.AppendRune, of a code point that is not negative
unfoldable pub append_rune : Text → ℕ → Text
append_rune out r =
    if ltb r 0x80
    then out ++ r ∷ []
    else if ltb r 0x800
    then out ++ (0xC0 + r / 64) ∷ (0x80 + r % 64) ∷ []
    else if (leb 0xD800 r && leb r 0xDFFF) || ltb 0x10FFFF r
    then out ++ 0xEF ∷ 0xBF ∷ 0xBD ∷ []
    else if ltb r 0x10000
    then out ++ (0xE0 + r / 4096) ∷ (0x80 + r / 64 % 64) ∷ (0x80 + r % 64) ∷ []
    else out
      ++ (0xF0 + r / 262144) ∷ (0x80 + r / 4096 % 64) ∷ (0x80 + r / 64 % 64) ∷ (0x80 + r % 64) ∷ []

-- The loop of utf8.Valid; `skip` counts the bytes of the current rune that are still to pass.
unfoldable pub valid_from : ℕ → Text → Bool
unfolding decode_rune
valid_from skip [] = true
valid_from (suc skip) (c ∷ s) = valid_from skip s
valid_from zero (c ∷ s) =
    let (r, size) = decode_rune (c ∷ s) in
    let rest = valid_from (size - 1) s in if (r == rune_error) && leb size 1 then false else rest

-- utf8.Valid
unfoldable pub valid_utf8 : Text → Bool
unfolding valid_from
valid_utf8 s = valid_from 0 s
