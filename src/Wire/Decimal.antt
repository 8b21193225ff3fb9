-- ===== src/Wire/Decimal.antt =====
-- The decimal strings of internal/wire/primitives.go: Count and Size. A validated Count or Size is
-- modelled by its number; the module Decimal.RoundTrip shows that this loses nothing.
pub mod RoundTrip
use corvint_tasks.Base.{
  ℕ, zero, suc, ◌+◌, ◌-◌, ◌*◌, ◌/◌, ◌%◌, ◌^◌, Bool, true, false, ◌&&◌, List, [], ◌∷◌, ltb, leb,
  ◌==◌, if◌then◌else◌, length, all,
}
use corvint_tasks.Text.{Text}
use corvint_tasks.Wire.Code.{Result, ok, err, malformed, require, refuse_if, ◌>>=◌, ◌>>◌}
use corvint_tasks.Wire.Limits.{max_count_value}

abbrev pub Count : Type 0
Count = ℕ

abbrev pub Size : Type 0
Size = ℕ

abbrev pub is_digit : ℕ → Bool
is_digit c = leb b'0' c && leb c b'9'

-- decimalShape
unfoldable pub decimal_shape : Text → Bool
decimal_shape [] = false
decimal_shape (c ∷ []) = is_digit c
decimal_shape (c ∷ d ∷ s) = (leb b'1' c && leb c b'9') && all is_digit (d ∷ s)

unfoldable pub decimal_from : ℕ → Text → ℕ
decimal_from n [] = n
decimal_from n (c ∷ s) = decimal_from (n * 10 + (c - b'0')) s

-- The number that strconv.ParseUint and ParseInt read off a string of digits.
unfoldable pub decimal_value : Text → ℕ
unfolding decimal_from
decimal_value s = decimal_from 0 s

-- ParseCount, with the Int of its result
unfoldable pub parse_count : Text → Result Count
unfolding decimal_shape decimal_value
parse_count s = do
  require (decimal_shape s) malformed
  refuse_if (ltb 10 (length s)) malformed
  let n = decimal_value s
  refuse_if (ltb max_count_value n) malformed
  ok n

-- ParseSize, with the Uint64 of its result
unfoldable pub parse_size : Text → Result Size
unfolding decimal_shape decimal_value
parse_size s = do
  require (decimal_shape s) malformed
  refuse_if (ltb 20 (length s)) malformed
  let n = decimal_value s
  refuse_if (leb (2 ^ 64) n) malformed
  ok n

-- The digits of a number before those of an accumulator; the fuel is above the number.
unfoldable pub format_from : ℕ → ℕ → Text → Text
format_from zero n acc = acc
format_from (suc fuel) n acc =
    let rest = format_from fuel (n / 10) ((b'0' + n % 10) ∷ acc) in
    if ltb n 10 then (b'0' + n) ∷ acc else rest

-- strconv.FormatInt of a non-negative number, as CountOf, SizeOf, itoa and idx call it
unfoldable pub count_of : ℕ → Text
unfolding format_from
count_of n = format_from (suc n) n []
