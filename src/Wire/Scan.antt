-- ===== src/Wire/Scan.antt =====
-- internal/wire/parse.go: the state of the parser, and its reader of strings.
pub mod Returns
pub mod RoundTrip
use corvint_tasks.Base.{
  ◌≡◌, ◌≢◌, refl, ℕ, zero, suc, ◌+◌, ◌-◌, ◌*◌, Bool, true, false, ◌&&◌, ◌||◌, Option, none, some,
  List, [], ◌∷◌, ◌++◌, ltb, leb, ◌==◌, if◌then◌else◌, length, drop,
}
use corvint_tasks.Text.{Text}
use corvint_tasks.Wire.Code.{Code, Result, ok, err, malformed, limit_exceeded}
use corvint_tasks.Wire.Utf8.{append_rune, check_hostile}
use corvint_tasks.Wire.Parsed.{
  Parsed, out_of_fuel, failed, parsed, ◌>>=◌, ◌>>◌, expect, from_result, IsParseCode, Yields,
  Yields->>=, Yields-out_of_fuel, Yields-parsed, Yields-failed, Yields-mono, Yields-expect,
  >>=-parsed, expect-true,
}

-- ParseOptions
pub record Options : Type 0 where
  pub wide_array_key : Text
  pub wide_array_max : ℕ
  pub max_nodes : ℕ

-- parser: its options do not change and are an argument of its methods. `rest` is what follows
-- `pos` in `data`; `pos` itself is only told in messages.
pub record Parser : Type 0 where
  pub rest : Text
  pub depth : ℕ
  pub nodes : ℕ
  pub wide : Bool

-- Is this the next byte?
abbrev pub next_is : ℕ → Text → Bool
next_is b [] = false
next_is b (c ∷ s) = c == b

-- p.pos += n
abbrev pub advance : ℕ → Parser → Parser
advance n p = record p { rest = drop n p.rest }

-- hexVal
unfoldable pub hex_val : ℕ → Option ℕ
hex_val b =
    if leb b'0' b && leb b b'9'
    then some (b - b'0')
    else if leb b'a' b && leb b b'f'
    then some (b - b'a' + 10)
    else if leb b'A' b && leb b b'F'
    then some (b - b'A' + 10)
    else none

-- The loop of hex4, which reads n digits behind the number r.
unfoldable pub hex_digits : ℕ → ℕ → Text → Option (ℕ × Text)
unfolding hex_val
hex_digits zero r s = some (r, s)
hex_digits (suc n) r [] = none
hex_digits (suc n) r (c ∷ s) = elim (hex_val c) [
  | none ↦ none
  | some h ↦ hex_digits n (r * 16 + h) s
]

-- hex4
unfoldable pub hex4 : Text → Option (ℕ × Text)
unfolding hex_digits
hex4 s = if ltb (length s) 4 then none else hex_digits 4 0 s

-- What one turn of the loop of str does: it ends with the text, fails, or goes on with the text so
-- far and what is left to read.
pub data Turn : Type 0 where
  close : Text → Turn
  refuse : Turn
  more : Text → Text → Turn

-- The low half of a surrogate pair, behind its high half.
unfoldable pub low_surrogate : ℕ → Text → Text → Turn
unfolding hex4 append_rune
low_surrogate high out s =
    if ltb (length s) 6
    then refuse
    else if next_is 92 s && next_is b'u' (drop 1 s)
    then elim (hex4 (drop 2 s)) [
      | none ↦ refuse
      | some (low, t) ↦
          if ltb low 0xDC00 || ltb 0xDFFF low
          then refuse
          else more (append_rune out (0x10000 + (high - 0xD800) * 1024 + (low - 0xDC00))) t
    ]
    else refuse

-- The case 'u' of an escape.
unfoldable pub unicode_escape : Text → Text → Turn
unfolding low_surrogate hex4 append_rune
unicode_escape out s = elim (hex4 s) [
  | none ↦ refuse
  | some (r, t) ↦
      if leb 0xD800 r && leb r 0xDBFF
      then low_surrogate r out t
      else if leb 0xDC00 r && leb r 0xDFFF
      then refuse
      else more (append_rune out r) t
]

-- The switch on the byte behind a backslash.
unfoldable pub escape_turn : Text → Text → Turn
unfolding unicode_escape
escape_turn out [] = refuse
escape_turn out (e ∷ s) =
    if e == 34
    then more (out ++ 34 ∷ []) s
    else if e == 92
    then more (out ++ 92 ∷ []) s
    else if e == b'/'
    then more (out ++ b'/' ∷ []) s
    else if e == b'b'
    then more (out ++ 8 ∷ []) s
    else if e == b'f'
    then more (out ++ 12 ∷ []) s
    else if e == b'n'
    then more (out ++ 10 ∷ []) s
    else if e == b'r'
    then more (out ++ 13 ∷ []) s
    else if e == b't'
    then more (out ++ 9 ∷ []) s
    else if e == b'u'
    then unicode_escape out s
    else refuse

-- The switch on the byte of one turn.
unfoldable pub str_turn : Text → Text → Turn
unfolding escape_turn
str_turn out [] = refuse
str_turn out (c ∷ s) =
    if c == 34
    then close s
    else if c == 92
    then escape_turn out s
    else if ltb c 0x20
    then refuse
    else more (out ++ c ∷ []) s

-- The loop of str: the decoded text and what is left to read.
unfoldable pub str_loop : ℕ → Text → Text → Parsed (Text × Text)
unfolding str_turn
str_loop zero out s = out_of_fuel
str_loop (suc fuel) out s = elim (str_turn out s) [
  | close t ↦ parsed (out, t)
  | refuse ↦ failed malformed
  | more out' t ↦ str_loop fuel out' t
]

-- str
unfoldable pub str : Parser → Parsed (Text × Parser)
unfolding str_loop check_hostile
str p = do
  let s = drop 1 p.rest
  (text, t) ← str_loop (suc (length s)) [] s
  from_result (check_hostile text true)
  parsed (text, record p { rest = t })
