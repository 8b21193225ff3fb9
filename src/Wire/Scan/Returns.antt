-- ===== src/Wire/Scan/Returns.antt =====
-- The reader of strings always has a result, reads on, and gives texts without hostile code points.
use corvint_tasks.Base.{
  ℕ, zero, suc, ◌+◌, ◌-◌, ◌*◌, ◌≤◌, ◌<◌, ◌≡◌, refl, Bool, true, false, ◌&&◌, ◌||◌, Option, none,
  some, [], ◌∷◌, arith, ltb, leb, ◌==◌, if◌then◌else◌, length, drop, length-drop-le,
}
use corvint_tasks.Text.{Text}
use corvint_tasks.Wire.Code.{Code, Result, ok, err, malformed}
use corvint_tasks.Wire.Utf8.{
  check_hostile, check_hostile_from, decode_rune, hostile_rune, rune_error,
}
use corvint_tasks.Wire.Scan.{
  Parser, hex_val, hex_digits, hex4, Turn, close, refuse, more, low_surrogate, unicode_escape,
  escape_turn, str_turn, str_loop, str, next_is,
}
use corvint_tasks.Wire.Parsed.{
  parsed, failed, ◌>>◌, from_result, IsParseCode, Yields, Yields->>=, Yields-mono,
}

-- What is left after a turn is shorter than a bound.
abbrev Shrinks : ℕ → Turn → Type 0
Shrinks n (close t) = length t < n
Shrinks n refuse = Unit
Shrinks n (more out t) = length t < n

-- What is left behind digits that are read.
abbrev Leaves : ℕ → Option (ℕ × Text) → Type 0
Leaves n none = Unit
Leaves n (some (r, t)) = length t ≤ n

Leaves-mono : (m n : ℕ) (o : Option (ℕ × Text)) → m ≤ n → Leaves m o → Leaves n o
Leaves-mono m n none le l = tt
Leaves-mono m n (some x) le l = omega arith

Leaves-elim :
    (n : ℕ) (o : Option ℕ) (next : ℕ → Option (ℕ × Text))
    → ((h : ℕ) → Leaves n (next h))
    → Leaves n (elim o [ none ↦ none | some h ↦ next h ])
Leaves-elim n none next l = tt
Leaves-elim n (some h) next l = l h

hex_digits-Leaves : (n r : ℕ) (s : Text) → Leaves (length s) (hex_digits n r s)
unfolding hex_digits
hex_digits-Leaves zero r s = omega arith
hex_digits-Leaves (suc n) r [] = tt
hex_digits-Leaves (suc n) r (c ∷ s) =
    Leaves-elim (suc (length s)) (hex_val c) (λ h. hex_digits n (r * 16 + h) s)
      (λ h.
        Leaves-mono (length s) (suc (length s)) _ (omega arith)
          (hex_digits-Leaves n (r * 16 + h) s))

hex4-Leaves : (s : Text) → Leaves (length s) (hex4 s)
unfolding hex4
hex4-Leaves s = ground (arith, hex_digits-Leaves 4 0 s)

Shrinks-elim :
    (m n : ℕ) (o : Option (ℕ × Text)) (next : ℕ → Text → Turn)
    → Leaves m o
    → ((r : ℕ) (t : Text) → length t ≤ m → Shrinks n (next r t))
    → Shrinks n (elim o [ none ↦ refuse | some (r, t) ↦ next r t ])
Shrinks-elim m n none next l k = tt
Shrinks-elim m n (some (r, t)) next l k = k r t l

Shrinks-if :
    (n : ℕ) (b : Bool) (x y : Turn) → Shrinks n x → Shrinks n y → Shrinks n (if b then x else y)
Shrinks-if n true x y h k = h
Shrinks-if n false x y h k = k

low_surrogate-Shrinks :
    (high : ℕ) (out s : Text) (n : ℕ) → length s < n → Shrinks n (low_surrogate high out s)
unfolding low_surrogate
low_surrogate-Shrinks high out s n h = Shrinks-if n (ltb (length s) 6) _ _ tt (
    Shrinks-if n (next_is 92 s && next_is b'u' (drop 1 s)) _ _
      (Shrinks-elim (length (drop 2 s)) n (hex4 (drop 2 s)) _ (hex4-Leaves (drop 2 s)) (λ low t l.
        Shrinks-if n (ltb low 0xDC00 || ltb 0xDFFF low) _ _ tt (omega (arith, length-drop-le 2 s))))
      tt)

unicode_escape-Shrinks : (out s : Text) (n : ℕ) → length s < n → Shrinks n (unicode_escape out s)
unfolding unicode_escape
unicode_escape-Shrinks out s n h =
    Shrinks-elim (length s) n (hex4 s) _ (hex4-Leaves s)
      (λ r t l. ground (arith, low_surrogate-Shrinks r out t n (omega arith)))

escape_turn-Shrinks : (out s : Text) → Shrinks (suc (length s)) (escape_turn out s)
unfolding escape_turn
escape_turn-Shrinks out [] = tt
escape_turn-Shrinks out (e ∷ s) =
    ground (arith, unicode_escape-Shrinks out s (suc (suc (length s))) (omega arith))

str_turn-Shrinks : (out s : Text) → Shrinks (length s) (str_turn out s)
unfolding str_turn
str_turn-Shrinks out [] = tt
str_turn-Shrinks out (c ∷ s) = ground (arith, escape_turn-Shrinks out s)

-- What is left behind a string that is read.
abbrev Within : ℕ → Text × Text → Type 0
Within n (out, t) = length t ≤ n

-- The loop goes on with what a turn leaves.
str_loop_turn :
    (fuel n : ℕ) (out : Text) (turn : Turn)
    → ((out' t : Text) → length t < n → Yields (Within n) (str_loop fuel out' t))
    → Shrinks n turn
    → Yields (Within n) (elim turn [
      | close t ↦ parsed (out, t)
      | refuse ↦ failed malformed
      | more out' t ↦ str_loop fuel out' t
    ])
str_loop_turn fuel n out (close t) k h = omega arith
str_loop_turn fuel n out refuse k h = tt
str_loop_turn fuel n out (more out' t) k h = k out' t h

str_loop_returns :
    (fuel : ℕ) (out s : Text) → length s < fuel → Yields (Within (length s)) (str_loop fuel out s)
unfolding str_loop
str_loop_returns zero out s h = absurd (omega arith)
str_loop_returns (suc fuel) out s h =
    str_loop_turn fuel (length s) out (str_turn out s)
      (λ out' t l.
        Yields-mono (Within (length t)) (Within (length s)) (str_loop fuel out' t)
          (λ read k. omega arith) (str_loop_returns fuel out' t (omega arith)))
      (str_turn-Shrinks out s)

malformed_code :
    (code : Code) → ◌≡◌ {A = Result (Unit {0})} (err malformed) (err code) → IsParseCode code
malformed_code code h = rw (same h) tt
  where
    same : ◌≡◌ {A = Result (Unit {0})} (err malformed) (err code) → code ≡ malformed
    same e = cc

-- The check for hostile code points refuses with one code.
check_hostile_from_code :
    (skip : ℕ) (s : Text) (allow : Bool) (code : Code)
    → check_hostile_from skip s allow ≡ err code
    → IsParseCode code
unfolding check_hostile_from
check_hostile_from_code skip [] allow code e = cc
check_hostile_from_code (suc skip) (c ∷ s) allow code e =
    check_hostile_from_code skip s allow code e
check_hostile_from_code zero (c ∷ s) allow code e =
    go ((decode_rune (c ∷ s)).0 == rune_error && leb (decode_rune (c ∷ s)).1 1)
      (hostile_rune (decode_rune (c ∷ s)).0 allow)
      (check_hostile_from_code ((decode_rune (c ∷ s)).1 - 1) s allow code) e
  where
    go :
        (bad hostile : Bool)
        → (check_hostile_from ((decode_rune (c ∷ s)).1 - 1) s allow ≡ err code → IsParseCode code)
        → (if bad
            then err malformed
            else if hostile
            then err malformed
            else check_hostile_from ((decode_rune (c ∷ s)).1 - 1) s allow)
          ≡ err code
        → IsParseCode code
    go true hostile later h = malformed_code code h
    go false true later h = malformed_code code h
    go false false later h = later h

-- What the reader of a string promises.
pub record IsString (p : Parser) (read : Text × Parser) : Type 0 where
  pub shorter : length read.1.rest ≤ length p.rest
  pub depth : read.1.depth ≡ p.depth
  pub nodes : read.1.nodes ≡ p.nodes
  pub wide : read.1.wide ≡ p.wide
  pub clean : check_hostile read.0 true ≡ ok tt

pub str_returns : (p : Parser) → Yields (IsString p) (str p)
unfolding str check_hostile
str_returns p =
    let s = drop 1 p.rest in
    Yields->>= (Within (length s)) (IsString p) (str_loop (suc (length s)) [] s) _
      (str_loop_returns (suc (length s)) [] s (omega arith))
      (λ (text, t) l. checked text t l (check_hostile text true) refl)
  where
    checked :
        (text t : Text)
        → length t ≤ length (drop 1 p.rest)
        → (r : Result (Unit {0})) → check_hostile text true ≡ r
        → Yields (IsString p) (from_result r >> parsed (text, record p { rest = t }))
    checked text t l (err code) e = check_hostile_from_code 0 text true code e
    checked text t l (ok tt) e = record {
      shorter = omega (arith, length-drop-le 1 p.rest);
      depth = refl;
      nodes = refl;
      wide = refl;
      clean = e;
    }
