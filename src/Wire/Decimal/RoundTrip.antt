-- ===== src/Wire/Decimal/RoundTrip.antt =====
-- ParseCount and ParseSize against CountOf and SizeOf.
use corvint_tasks.Base.{
  ℕ, zero, suc, ◌+◌, ◌-◌, ◌*◌, ◌/◌, ◌%◌, ◌^◌, ◌≤◌, ◌<◌, ◌≡◌, refl, ap, ◌∙◌, true, false, [], ◌∷◌,
  arith, ltb, leb, length, all, Bool-cases, inl, inr,
}
use corvint_tasks.Text.{Text}
use corvint_tasks.Wire.Code.{ok}
use corvint_tasks.Wire.Limits.{max_count_value}
use corvint_tasks.Wire.Decimal.{
  is_digit, decimal_shape, decimal_from, decimal_value, parse_count, parse_size, format_from,
  count_of,
}

-- Reading what was written: the accumulator's digits are read after those of the number.
decimal_from-format_from :
    (fuel n : ℕ) (acc : Text)
    → n < fuel
    → decimal_from 0 (format_from fuel n acc) ≡ decimal_from n acc
unfolding format_from decimal_from
decimal_from-format_from zero n acc h = elim h [ ]
decimal_from-format_from (suc fuel) n acc h = elim (Bool-cases (ltb n 10)) [
  | inl small ↦ rw small (ap (λ (k : ℕ). decimal_from k acc) (omega arith))
  | inr large ↦ rw large (
      decimal_from-format_from fuel (n / 10) ((b'0' + n % 10) ∷ acc) (ground arith)
      ∙ ap (λ (k : ℕ). decimal_from k acc) (omega arith))
]

pub decimal_value-count_of : (n : ℕ) → decimal_value (count_of n) ≡ n
unfolding count_of decimal_value
decimal_value-count_of n =
    decimal_from-format_from (suc n) n [] (omega arith) ∙ (unfold decimal_from in refl)

-- Any digits may follow a leading digit that is not 0.
leading_shape :
    (c : ℕ) (acc : Text)
    → leb b'1' c ≡ true
    → leb c b'9' ≡ true
    → all is_digit acc ≡ true
    → decimal_shape (c ∷ acc) ≡ true
unfolding decimal_shape
leading_shape c [] p q d = ground arith
leading_shape c (e ∷ acc) p q d = ground arith

format_from-shape :
    (fuel n : ℕ) (acc : Text)
    → n < fuel
    → 0 < n
    → all is_digit acc ≡ true
    → decimal_shape (format_from fuel n acc) ≡ true
unfolding format_from
format_from-shape zero n acc h p d = elim h [ ]
format_from-shape (suc fuel) n acc h p d = elim (Bool-cases (ltb n 10)) [
  | inl small ↦ rw small (leading_shape (b'0' + n) acc (ground arith) (ground arith) d)
  | inr large ↦ rw large (
      format_from-shape fuel (n / 10) ((b'0' + n % 10) ∷ acc) (ground arith) (ground arith)
        (ground arith))
]

pub decimal_shape-count_of : (n : ℕ) → decimal_shape (count_of n) ≡ true
decimal_shape-count_of zero = unfold count_of format_from decimal_shape in refl
decimal_shape-count_of (suc n) =
    unfold count_of in format_from-shape (suc (suc n)) (suc n) [] (omega arith) (omega arith) refl

-- A number below 10 ^ k has at most k digits.
length-format_from :
    (k fuel n : ℕ) (acc : Text)
    → n < 10 ^ suc k
    → length (format_from fuel n acc) ≤ suc k + length acc
unfolding format_from
length-format_from k zero n acc h = omega arith
length-format_from zero (suc fuel) n acc h = elim (Bool-cases (ltb n 10)) [
  | inl small ↦ rw small (omega arith)
  | inr large ↦ absurd (ground arith)
]
length-format_from (suc k) (suc fuel) n acc h = elim (Bool-cases (ltb n 10)) [
  | inl small ↦ rw small (omega arith)
  | inr large ↦
      rw large
        (omega (arith, length-format_from k fuel (n / 10) ((b'0' + n % 10) ∷ acc) (omega arith)))
]

pub length-count_of : (k n : ℕ) → n < 10 ^ suc k → length (count_of n) ≤ suc k
unfolding count_of
length-count_of k n h = omega (arith, length-format_from k (suc n) n [] h)

-- Fuel above the number is enough, so its amount does not matter.
format_from_fuel :
    (f g n : ℕ) (acc : Text) → n < f → n < g → format_from f n acc ≡ format_from g n acc
unfolding format_from
format_from_fuel zero g n acc h k = elim h [ ]
format_from_fuel (suc f) zero n acc h k = elim k [ ]
format_from_fuel (suc f) (suc g) n acc h k = elim (Bool-cases (ltb n 10)) [
  | inl small ↦ rw small
  | inr large ↦
      rw large (format_from_fuel f g (n / 10) ((b'0' + n % 10) ∷ acc) (ground arith) (ground arith))
]

-- The last digit comes off by a division.
format_from_large :
    (m n c : ℕ) (acc : Text)
    → ltb m 10 ≡ false
    → m / 10 ≡ n
    → b'0' + m % 10 ≡ c
    → format_from (suc m) m acc ≡ format_from m n (c ∷ acc)
unfolding format_from
format_from_large m n c acc large tens ones = rw (large, tens, ones)

format_from_step :
    (n c : ℕ) (acc : Text)
    → 0 < n
    → is_digit c ≡ true
    → format_from (suc (n * 10 + (c - b'0'))) (n * 10 + (c - b'0')) acc
      ≡ format_from (suc n) n (c ∷ acc)
format_from_step n c acc p d =
    format_from_large (n * 10 + (c - b'0')) n c acc (ground arith) (ground arith) (ground arith)
    ∙ format_from_fuel (n * 10 + (c - b'0')) (suc n) n (c ∷ acc) (ground arith) (omega arith)

format_from-decimal_from :
    (n : ℕ) (s : Text)
    → 0 < n
    → all is_digit s ≡ true
    → format_from (suc (decimal_from n s)) (decimal_from n s) [] ≡ format_from (suc n) n s
unfolding decimal_from
format_from-decimal_from n [] p d = refl
format_from-decimal_from n (c ∷ s) p d =
    format_from-decimal_from (n * 10 + (c - b'0')) s (omega arith) (ground arith)
    ∙ format_from_step n c s p (ground arith)

format_from_digit :
    (fuel c : ℕ) (acc : Text)
    → is_digit c ≡ true
    → format_from (suc fuel) (0 + (c - b'0')) acc ≡ c ∷ acc
unfolding format_from
format_from_digit fuel c acc d =
    let small : ltb (0 + (c - b'0')) 10 ≡ true = ground arith in
    rw small (ap (λ (k : ℕ). k ∷ acc) (ground arith))

-- A Count or Size string is the one canonical form of its number.
pub count_of-decimal_value : (s : Text) → decimal_shape s ≡ true → count_of (decimal_value s) ≡ s
unfolding decimal_shape
count_of-decimal_value [] h = cc
count_of-decimal_value (c ∷ []) h =
    unfold count_of decimal_value decimal_from in format_from_digit (0 + (c - b'0')) c [] h
count_of-decimal_value (c ∷ d ∷ s) h =
    unfold count_of decimal_value in
    format_from-decimal_from (0 + (c - b'0')) (d ∷ s) (ground arith) (ground arith)
    ∙ format_from_digit (0 + (c - b'0')) c (d ∷ s) (ground arith)

-- What CountOf writes, ParseCount reads back.
pub parse_count-count_of : (n : ℕ) → n ≤ max_count_value → parse_count (count_of n) ≡ ok n
unfolding parse_count
parse_count-count_of n h =
    let short : ltb 10 (length (count_of n)) ≡ false = ground (arith, length-count_of 9 n) in
    let fits : ltb max_count_value n ≡ false = ground arith in
    rw (decimal_shape-count_of n, short, decimal_value-count_of n, fits)

-- What SizeOf writes, ParseSize reads back.
pub parse_size-count_of : (n : ℕ) → n < 2 ^ 64 → parse_size (count_of n) ≡ ok n
unfolding parse_size
parse_size-count_of n h =
    let short : ltb 20 (length (count_of n)) ≡ false = ground (arith, length-count_of 19 n) in
    let fits : leb (2 ^ 64) n ≡ false = ground arith in
    rw (decimal_shape-count_of n, short, decimal_value-count_of n, fits)

count_of_accepted : (s : Text) (n : ℕ) → parse_count s ≡ ok n → count_of n ≡ s
unfolding parse_count
count_of_accepted s n h = ground (arith, count_of-decimal_value s)

-- A string that ParseCount accepts is what CountOf writes of its number, and that number is at most
-- 2147483647: equal Counts are equal strings.
pub count_of-parse_count :
    (s : Text) (n : ℕ) → parse_count s ≡ ok n → (count_of n ≡ s) × (n ≤ max_count_value)
unfolding parse_count
count_of-parse_count s n h = (count_of_accepted s n h, ground arith)
