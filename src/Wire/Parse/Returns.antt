-- ===== src/Wire/Parse/Returns.antt =====
-- What the readers of internal/wire/parse.go promise: with four units of fuel for each byte they have a
-- result, and what they read is within the decode bounds.
pub mod Loops
pub mod Whole
use corvint_tasks.Base.{
  ℕ, zero, suc, ◌+◌, ◌-◌, ◌*◌, ◌≤◌, ◌≡◌, refl, sym, ◌∙◌, Bool, true, false, not, ◌&&◌, Option, none,
  some, List, [], ◌∷◌, arith, not_ltb→le, ltb, leb, ◌==◌, if◌then◌else◌, length, drop,
  length-drop-le, is_some, Bool-cases, inl, inr,
}
use corvint_tasks.Text.{Text, txt, has_prefix}
use corvint_tasks.Wire.Code.{Code, Result, ok, malformed, limit_exceeded}
use corvint_tasks.Wire.Limits.{max_json_depth}
use corvint_tasks.Wire.Utf8.{check_hostile}
use corvint_tasks.Wire.Value.{Value, Values, Members, nil, cons, end, member, get, set}
use corvint_tasks.Wire.Scan.{Options, Parser, next_is, advance, str}
use corvint_tasks.Wire.Parsed.{
  Parsed, out_of_fuel, failed, parsed, ◌>>=◌, ◌>>◌, expect, Yields, Yields->>=, Yields-mono,
  Yields-expect,
}
use corvint_tasks.Wire.Scan.Returns.{IsString, str_returns}
use corvint_tasks.Wire.Parse.{
  count, snoc, node, enter, leave, Start, start, literal, After, after, array_bound, is_wide,
  member_key, any_value, any_object, members, any_array, elements, object_start, array_start,
  string_start, true_start, false_start, null_start, no_start, comma, closing, unexpected,
}
use corvint_tasks.Wire.Parse.Shape.{
  size, sizes, member_sizes, IsWithin, AllWithin, MembersWithin, count-snoc, sizes-snoc,
  AllWithin-snoc, member_sizes-set, MembersWithin-set,
}

-- What the reader of a value promises: `len` bytes were left before it, at `depth` brackets, behind
-- `before` nodes.
pub record IsRead (o : Options) (len depth : ℕ) (wide : Bool) (before : ℕ) (read : Value × Parser)
    : Type 0 where
  pub shorter : length read.1.rest ≤ len
  pub same_depth : read.1.depth ≡ depth
  pub narrow : wide ≡ false → read.1.wide ≡ false
  pub nodes : read.1.nodes ≡ before + size read.0
  pub few : read.1.nodes ≤ o.max_nodes
  pub within : IsWithin o depth wide read.0

-- What the reader of a member's key promises.
pub record IsKey (o : Options) (ms : Members) (p : Parser) (read : Text × Parser) : Type 0 where
  pub shorter : length read.1.rest ≤ length p.rest
  pub same_depth : read.1.depth ≡ p.depth
  pub nodes : read.1.nodes ≡ p.nodes
  pub wide : read.1.wide ≡ is_wide o p.depth read.0
  pub clean : check_hostile read.0 true ≡ ok tt
  pub fresh : get ms read.0 ≡ none

absent : (o : Option Value) → not (is_some o) ≡ true → o ≡ none
absent none h = refl
absent (some v) h = cc

pub member_key_returns :
    (o : Options) (ms : Members) (p : Parser) → Yields (IsKey o ms p) (member_key o ms p)
unfolding member_key
member_key_returns o ms p =
    Yields-expect (IsKey o ms p) (next_is 34 p.rest) malformed tt _ (λ quote.
      Yields->>= (IsString p) (IsKey o ms p) (str p) _ (str_returns p) (λ (key, q) read.
        Yields-expect (IsKey o ms p) (not (is_some (get ms key))) malformed tt _ (λ new.
          Yields-expect (IsKey o ms p) (next_is b':' q.rest) malformed tt _ (λ colon. record {
            shorter = omega (arith, length-drop-le 1 q.rest, read.shorter);
            same_depth = read.depth;
            nodes = read.nodes;
            wide = rw read.depth refl;
            clean = read.clean;
            fresh = absent (get ms key) new;
          }))))

abbrev pub ValueReturns : ℕ → Type 0
ValueReturns fuel =
    (o : Options) (p : Parser)
    → 4 * length p.rest + 1 ≤ fuel
    → Yields (IsRead o (length p.rest) p.depth p.wide p.nodes) (any_value fuel o p)

-- The reader of a value that starts with a bracket, behind `before` other nodes.
abbrev pub BracketReturns : ℕ → (ℕ → Options → Parser → Parsed (Value × Parser)) → Type 0
BracketReturns fuel reader =
    (o : Options) (p : Parser) (before : ℕ)
    → p.nodes ≡ suc before
    → p.nodes ≤ o.max_nodes
    → 1 ≤ length p.rest
    → 4 * length p.rest ≤ fuel
    → Yields (IsRead o (length p.rest) p.depth p.wide before) (reader fuel o p)

abbrev pub MembersReturns : ℕ → Type 0
MembersReturns fuel =
    (o : Options) (ms : Members) (p : Parser) (depth before : ℕ) (wide : Bool)
    → p.nodes ≡ suc (before + member_sizes ms)
    → p.nodes ≤ o.max_nodes
    → p.depth ≡ suc depth
    → suc depth ≤ max_json_depth
    → MembersWithin o (suc depth) ms
    → 4 * length p.rest + 3 ≤ fuel
    → Yields (IsRead o (length p.rest) depth wide before) (members fuel o ms p)

abbrev pub ElementsReturns : ℕ → Type 0
ElementsReturns fuel =
    (o : Options) (vs : Values) (p : Parser) (depth before : ℕ) (wide : Bool)
    → p.nodes ≡ suc (before + sizes vs)
    → p.nodes ≤ o.max_nodes
    → p.depth ≡ suc depth
    → suc depth ≤ max_json_depth
    → p.wide ≡ false
    → AllWithin o (suc depth) vs
    → 4 * length p.rest + 3 ≤ fuel
    → Yields (IsRead o (length p.rest) depth wide before)
        (elements fuel o (array_bound o (suc depth) wide) vs p)

pub Yields-elim :
    (Q : Value × Parser → Type 0) (b : Bool) (x y : Parsed (Value × Parser))
    → Yields Q x
    → Yields Q y
    → Yields Q (elim b [ true ↦ x | false ↦ y ])
Yields-elim Q true x y h k = h
Yields-elim Q false x y h k = k

pub Yields-after :
    (Q : Value × Parser → Type 0) (bracket : ℕ) (s : Text) (x y : Parsed (Value × Parser))
    → (1 ≤ length s → Yields Q x)
    → Yields Q y
    → Yields Q (elim (after bracket s) [ comma ↦ x | closing ↦ y | unexpected ↦ failed malformed ])
unfolding after
Yields-after Q bracket [] x y h k = tt
Yields-after Q bracket (c ∷ s) x y h k = elim (Bool-cases (c == b',')) [
  | inl here ↦ rw here (h (omega arith))
  | inr other ↦ elim (Bool-cases (c == bracket)) [
    | inl here ↦ rw (other, here) k
    | inr neither ↦ rw (other, neither) tt
  ]
]

pub length-drop_one : (s : Text) → 1 ≤ length s → suc (length (drop 1 s)) ≡ length s
length-drop_one [] h = omega arith
length-drop_one (c ∷ s) h = refl

-- More bytes were left before.
pub weaken :
    (o : Options) (m n depth : ℕ) (wide : Bool) (before : ℕ) (x : Parsed (Value × Parser))
    → m ≤ n
    → Yields (IsRead o m depth wide before) x
    → Yields (IsRead o n depth wide before) x
weaken o m n depth wide before x le =
    Yields-mono (IsRead o m depth wide before) (IsRead o n depth wide before) x (λ a r. record {
      shorter = omega (arith, r.shorter);
      same_depth = r.same_depth;
      narrow = r.narrow;
      nodes = r.nodes;
      few = r.few;
      within = r.within;
    })

pub IsWithin-at :
    (o : Options) (d e : ℕ) (w x : Bool) (v : Value)
    → d ≡ e
    → w ≡ x
    → IsWithin o d w v
    → IsWithin o e x v
IsWithin-at o d e w x v p q h = rw (sym p, sym q) h
