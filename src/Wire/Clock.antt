-- ===== src/Wire/Clock.antt =====
-- The timestamps and dates of internal/wire/primitives.go. time.Parse and Format are of the standard
-- library: with the test of the length, and the test that the parsed time is formatted as the same
-- string, what they accept is a string of this shape that names a day of the calendar.
use corvint_tasks.Base.{
  ℕ, ◌+◌, ◌-◌, ◌*◌, ◌%◌, Bool, false, not, ◌&&◌, ◌||◌, [], ◌∷◌, ltb, leb, ◌==◌, if◌then◌else◌,
  length, take, drop,
}
use corvint_tasks.Text.{Text}
use corvint_tasks.Wire.Code.{Result, ok, err, malformed}
use corvint_tasks.Wire.Decimal.{is_digit}

abbrev pub Timestamp : Type 0
Timestamp = Text

abbrev two_digits : ℕ → ℕ → ℕ
two_digits a b = (a - b'0') * 10 + (b - b'0')

unfoldable pub is_leap : ℕ → Bool
is_leap year = (year % 4 == 0) && (not (year % 100 == 0) || (year % 400 == 0))

unfoldable pub days_in : ℕ → ℕ → ℕ
unfolding is_leap
days_in month year =
    if month == 2
    then (if is_leap year then 29 else 28)
    else if (month == 4) || (month == 6) || (month == 9) || (month == 11)
    then 30
    else 31

-- `2006-01-02`
unfoldable pub is_date : Text → Bool
unfolding days_in
is_date (y1 ∷ y2 ∷ y3 ∷ y4 ∷ p ∷ m1 ∷ m2 ∷ q ∷ d1 ∷ d2 ∷ []) =
    let year = two_digits y1 y2 * 100 + two_digits y3 y4 in
    let month = two_digits m1 m2 in
    let day = two_digits d1 d2 in
    (is_digit y1 && is_digit y2 && is_digit y3 && is_digit y4 && (p == b'-'))
    && (is_digit m1 && is_digit m2 && (q == b'-') && is_digit d1 && is_digit d2)
    && (leb 1 month && leb month 12 && leb 1 day && leb day (days_in month year))
is_date _ = false

-- `T15:04:05Z`
unfoldable pub is_clock : Text → Bool
is_clock (t ∷ h1 ∷ h2 ∷ p ∷ m1 ∷ m2 ∷ q ∷ s1 ∷ s2 ∷ z ∷ []) =
    (is_digit h1 && is_digit h2 && is_digit m1 && is_digit m2 && is_digit s1 && is_digit s2)
    && ((t == b'T') && (p == b':') && (q == b':') && (z == b'Z'))
    && (ltb (two_digits h1 h2) 24 && ltb (two_digits m1 m2) 60 && ltb (two_digits s1 s2) 60)
is_clock _ = false

-- ParseTimestamp
unfoldable pub parse_timestamp : Text → Result Timestamp
unfolding is_date is_clock
parse_timestamp s =
    if (length s == 20) && (is_date (take 10 s) && is_clock (drop 10 s))
    then ok s
    else err malformed

-- ParseDate
unfoldable pub parse_date : Text → Result Text
unfolding is_date
parse_date s = if (length s == 10) && is_date s then ok s else err malformed
