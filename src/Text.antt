-- ===== src/Text.antt =====
-- Go strings as lists of bytes, with equality, byte order and the string functions of the standard
-- library that internal/wire uses.
use Prim.Native.Char.{code}
use corvint_tasks.Base.{
  ℕ, ◌+◌, ◌≡◌, refl, ◌↔◌, Bool, true, false, ◌&&◌, List, [], ◌∷◌, ◌++◌, String, arith, ltb, leb,
  ◌==◌, if◌then◌else◌, any, In, or_split, inl, inr, ◌≢◌,
}

abbrev pub Text : Type 0
Text = List ℕ

-- The bytes of an ASCII literal.
abbrev pub txt : String → Text
txt String.[] = []
txt (String.◌∷◌ c s) = code c ∷ txt s

unfoldable pub text_eq : Text → Text → Bool
text_eq [] [] = true
text_eq (c ∷ s) (d ∷ t) = (c == d) && text_eq s t
text_eq _ _ = false

-- Go's `<` on strings: the order of bytes.
unfoldable pub text_ltb : Text → Text → Bool
text_ltb [] [] = false
text_ltb [] (d ∷ t) = true
text_ltb (c ∷ s) [] = false
text_ltb (c ∷ s) (d ∷ t) = if ltb c d then true else if c == d then text_ltb s t else false

pub text_eq_refl : (s : Text) → text_eq s s ≡ true
unfolding text_eq
text_eq_refl [] = refl
text_eq_refl (c ∷ s) = ground (arith, text_eq_refl s)

pub text_eq→eq : (s t : Text) → text_eq s t ≡ true → s ≡ t
unfolding text_eq
text_eq→eq [] [] h = refl
text_eq→eq [] (d ∷ t) h = cc
text_eq→eq (c ∷ s) [] h = cc
text_eq→eq (c ∷ s) (d ∷ t) h = ground (arith, text_eq→eq s t)

pub text_eq_iff : (s t : Text) → (text_eq s t ≡ true) ↔ (s ≡ t)
text_eq_iff s t = (text_eq→eq s t, λ p. rw p (text_eq_refl t))

pub text_ltb_irrefl : (s : Text) → text_ltb s s ≡ false
unfolding text_ltb
text_ltb_irrefl [] = refl
text_ltb_irrefl (c ∷ s) = ground (arith, text_ltb_irrefl s)

pub text_ltb_trans :
    (s t u : Text) → text_ltb s t ≡ true → text_ltb t u ≡ true → text_ltb s u ≡ true
unfolding text_ltb
text_ltb_trans [] [] u h k = cc
text_ltb_trans [] (d ∷ t) [] h k = cc
text_ltb_trans [] (d ∷ t) (e ∷ u) h k = refl
text_ltb_trans (c ∷ s) [] u h k = cc
text_ltb_trans (c ∷ s) (d ∷ t) [] h k = cc
text_ltb_trans (c ∷ s) (d ∷ t) (e ∷ u) h k = ground (arith, text_ltb_trans s t u)

pub text_ltb_asym : (s t : Text) → text_ltb s t ≡ true → text_ltb t s ≡ false
unfolding text_ltb
text_ltb_asym [] [] h = cc
text_ltb_asym [] (d ∷ t) h = refl
text_ltb_asym (c ∷ s) [] h = cc
text_ltb_asym (c ∷ s) (d ∷ t) h = ground (arith, text_ltb_asym s t)

-- strings.HasPrefix
unfoldable pub has_prefix : Text → Text → Bool
has_prefix s [] = true
has_prefix [] (d ∷ p) = false
has_prefix (c ∷ s) (d ∷ p) = (c == d) && has_prefix s p

-- strings.HasSuffix with a suffix of one byte
unfoldable pub ends_with_byte : ℕ → Text → Bool
ends_with_byte b [] = false
ends_with_byte b (c ∷ []) = c == b
ends_with_byte b (c ∷ d ∷ s) = ends_with_byte b (d ∷ s)

-- s[:len(s)-1]
unfoldable pub drop_last : Text → Text
drop_last [] = []
drop_last (c ∷ []) = []
drop_last (c ∷ d ∷ s) = c ∷ drop_last (d ∷ s)

abbrev pub cons_head : ℕ → List Text → List Text
cons_head c [] = (c ∷ []) ∷ []
cons_head c (s ∷ ss) = (c ∷ s) ∷ ss

-- strings.Split at a separator of one byte: never the empty list
unfoldable pub split : ℕ → Text → List Text
split b [] = [] ∷ []
split b (c ∷ s) = let rest = split b s in if c == b then [] ∷ rest else cons_head c rest

-- One byte of strings.ToLower on ASCII text.
unfoldable pub lower : ℕ → ℕ
lower c = if leb 65 c && leb c 90 then c + 32 else c

pub lower_idem : (c : ℕ) → lower (lower c) ≡ lower c
unfolding lower
lower_idem c = ground arith

-- strings.ToLower on ASCII text
unfoldable pub map_lower : Text → Text
unfolding lower
map_lower [] = []
map_lower (c ∷ s) = lower c ∷ map_lower s

-- A search among texts finds what stands there, and nothing else.
pub any_text_eq→in : (s : Text) (ts : List Text) → any (text_eq s) ts ≡ true → In s ts
any_text_eq→in s [] h = absurd (ground arith)
any_text_eq→in s (t ∷ ts) h = elim (or_split (text_eq s t) (any (text_eq s) ts) h) [
  | inl here ↦ inl (text_eq→eq s t here)
  | inr there ↦ inr (any_text_eq→in s ts there)
]

pub in→any_text_eq : (s : Text) (ts : List Text) → In s ts → any (text_eq s) ts ≡ true
in→any_text_eq s [] h = elim h [ ]
in→any_text_eq s (t ∷ ts) (inl e) = ground (arith, text_eq_iff s t)
in→any_text_eq s (t ∷ ts) (inr m) = ground (arith, in→any_text_eq s ts m)

pub text_eq-false : (s t : Text) → text_eq s t ≡ false → s ≢ t
text_eq-false s t h e = ground (arith, text_eq_iff s t)

-- A text that ends with a byte is its beginning in front of that byte.
pub drop_last-ends_with_byte :
    (b : ℕ) (s : Text) → ends_with_byte b s ≡ true → drop_last s ++ b ∷ [] ≡ s
unfolding drop_last ends_with_byte
drop_last-ends_with_byte b [] h = absurd (ground arith)
drop_last-ends_with_byte b (c ∷ []) h = rw (eq_of c b h) refl
  where
    eq_of : (c b : ℕ) → (c == b) ≡ true → c ≡ b
    eq_of c b e = ground arith
drop_last-ends_with_byte b (c ∷ d ∷ s) h = rw (drop_last-ends_with_byte b (d ∷ s) h) refl

pub drop_last-append_byte : (b : ℕ) (s : Text) → drop_last (s ++ b ∷ []) ≡ s
unfolding drop_last
drop_last-append_byte b [] = refl
drop_last-append_byte b (c ∷ []) = refl
drop_last-append_byte b (c ∷ d ∷ s) = rw (drop_last-append_byte b (d ∷ s)) refl

pub ends_with_byte-append : (b : ℕ) (s : Text) → ends_with_byte b (s ++ b ∷ []) ≡ true
unfolding ends_with_byte
ends_with_byte-append b [] = ground arith
ends_with_byte-append b (c ∷ []) = ground arith
ends_with_byte-append b (c ∷ d ∷ s) = ends_with_byte-append b (d ∷ s)
