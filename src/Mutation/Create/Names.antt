-- ===== src/Mutation/Create/Names.antt =====
-- The tokens of serials: they differ, also up to case, and they are tokens when the prefix is one.
use corvint_tasks.Base.{
  ℕ, suc, ◌+◌, ◌≤◌, ◌⊎◌, inl, inr, ◌≡◌, refl, ap, ◌∙◌, Bool, true, false, [], ◌∷◌, ◌++◌, arith,
  length, length-append, all, drop,
}
use corvint_tasks.Text.{Text, text_eq, map_lower, lower}
use corvint_tasks.Wire.Code.{ok}
use corvint_tasks.Wire.Limits.{max_count_value, max_local_token_bytes}
use corvint_tasks.Wire.Decimal.{is_digit, decimal_shape, decimal_from, decimal_value, count_of}
use corvint_tasks.Wire.Decimal.RoundTrip.{
  decimal_value-count_of, decimal_shape-count_of, length-count_of,
}
use corvint_tasks.Wire.Primitives.{fold_token, parse_token, is_token_byte}
use corvint_tasks.Mutation.Create.{pad_four, serial_token}

-- The zeros before a number do not count.
decimal_from-pad_four :
    (s : Text) → decimal_from 0 (map_lower (pad_four s)) ≡ decimal_from 0 (map_lower s)
unfolding decimal_from map_lower pad_four lower
decimal_from-pad_four [] = refl
decimal_from-pad_four (a ∷ []) = refl
decimal_from-pad_four (a ∷ b ∷ []) = refl
decimal_from-pad_four (a ∷ b ∷ c ∷ []) = refl
decimal_from-pad_four (a ∷ b ∷ c ∷ d ∷ s) = refl

map_lower-digits : (s : Text) → all is_digit s ≡ true → map_lower s ≡ s
unfolding map_lower lower
map_lower-digits [] h = refl
map_lower-digits (c ∷ s) h =
    let digit : is_digit c ≡ true = ground arith in
    let rest : all is_digit s ≡ true = ground arith in
    let same : lower c ≡ c = ground arith in
    rw (map_lower-digits s rest) (ap (λ (x : ℕ). x ∷ s) same)

shape_digits : (s : Text) → decimal_shape s ≡ true → all is_digit s ≡ true
unfolding decimal_shape
shape_digits [] h = refl
shape_digits (c ∷ []) h = ground arith
shape_digits (c ∷ d ∷ s) h = ground arith

map_lower-append : (s t : Text) → map_lower (s ++ t) ≡ map_lower s ++ map_lower t
unfolding map_lower
map_lower-append [] t = refl
map_lower-append (c ∷ s) t = rw (map_lower-append s t) refl

drop-map_lower : (s t : Text) → drop (length s) (map_lower s ++ t) ≡ t
unfolding map_lower
drop-map_lower [] t = refl
drop-map_lower (c ∷ s) t = drop-map_lower s t

-- The serial behind a prefix.
abbrev pub serial_in : Text → Text → ℕ
serial_in prefix token = decimal_value (drop 1 (drop (length prefix) token))

pub serial_in-fold_token :
    (prefix : Text) (n : ℕ) → serial_in prefix (fold_token (serial_token prefix n)) ≡ n
unfolding fold_token serial_token decimal_value map_lower
serial_in-fold_token prefix n =
    let tail = b'-' ∷ pad_four (count_of n) in
    let digits = shape_digits (count_of n) (decimal_shape-count_of n) in
    let read : decimal_from 0 (map_lower (pad_four (count_of n))) ≡ n =
      decimal_from-pad_four (count_of n)
      ∙ (ap (decimal_from 0) (map_lower-digits (count_of n) digits) ∙ decimal_value-count_of n) in
    rw (map_lower-append prefix tail, drop-map_lower prefix (map_lower tail)) read

pad_four_long : (s : Text) → length (pad_four s) ≤ 10 ⊎ (length (pad_four s) ≡ length s)
unfolding pad_four
pad_four_long [] = inl (omega arith)
pad_four_long (a ∷ []) = inl (omega arith)
pad_four_long (a ∷ b ∷ []) = inl (omega arith)
pad_four_long (a ∷ b ∷ c ∷ []) = inl (omega arith)
pad_four_long (a ∷ b ∷ c ∷ d ∷ s) = inr refl

abbrev inner : Text → Bool
inner s = all (λ c. is_token_byte c false) s

inner-append : (s t : Text) → inner s ≡ true → inner t ≡ true → inner (s ++ t) ≡ true
inner-append [] t h k = k
inner-append (c ∷ s) t h k = ground (arith, inner-append s t)

inner-digits : (s : Text) → all is_digit s ≡ true → inner s ≡ true
unfolding is_token_byte
inner-digits [] h = refl
inner-digits (c ∷ s) h = ground (arith, inner-digits s)

inner-pad_four : (s : Text) → all is_digit s ≡ true → inner (pad_four s) ≡ true
unfolding pad_four is_token_byte
inner-pad_four [] h = refl
inner-pad_four (a ∷ []) h = ground arith
inner-pad_four (a ∷ b ∷ []) h = ground arith
inner-pad_four (a ∷ b ∷ c ∷ []) h = ground arith
inner-pad_four (a ∷ b ∷ c ∷ d ∷ s) h = inner-digits (a ∷ b ∷ c ∷ d ∷ s) h

-- What a token of at most `max` bytes is.
token_parts :
    (c : ℕ) (s : Text) (max : ℕ)
    → parse_token (c ∷ s) max ≡ ok (c ∷ s)
    → (is_token_byte c true ≡ true) × (inner s ≡ true) × (length (c ∷ s) ≤ max)
unfolding parse_token text_eq
token_parts c s max h = ground arith

token_made :
    (c : ℕ) (s : Text) (max : ℕ)
    → is_token_byte c true ≡ true
    → inner s ≡ true
    → length (c ∷ s) ≤ max
    → parse_token (c ∷ s) max ≡ ok (c ∷ s)
unfolding parse_token text_eq
token_made c s max first rest short = ground arith

tail_size : (n : ℕ) → n ≤ max_count_value → length (pad_four (count_of n)) ≤ 10
tail_size n h =
    let short = length-count_of 9 n (omega arith) in
    elim (pad_four_long (count_of n)) [ inl fits ↦ fits | inr same ↦ omega arith ]

-- Behind a prefix that is a token of at most 53 bytes, the token of a serial is a local token.
pub parse_token-serial_token :
    (prefix : Text) (n : ℕ)
    → parse_token prefix 53 ≡ ok prefix
    → n ≤ max_count_value
    → parse_token (serial_token prefix n) max_local_token_bytes ≡ ok (serial_token prefix n)
unfolding serial_token
parse_token-serial_token [] n h bound = unfold parse_token text_eq in cc
parse_token-serial_token (c ∷ s) n h bound =
    let (first, rest, short) = token_parts c s 53 h in
    let digits = pad_four (count_of n) in
    let last = inner-pad_four (count_of n) (shape_digits (count_of n) (decimal_shape-count_of n)) in
    let tail : inner (b'-' ∷ digits) ≡ true = unfold is_token_byte in last in
    let size : length (s ++ b'-' ∷ digits) ≡ length s + suc (length digits) =
      length-append s (b'-' ∷ digits) in
    token_made c (s ++ b'-' ∷ digits) max_local_token_bytes first
      (inner-append s (b'-' ∷ digits) rest tail) (omega (arith, tail_size n bound))
