-- ===== src/Wire/Parse/Returns/Whole.antt =====
-- value of internal/wire/parse.go keeps its promise, and with it the whole recursion.
use corvint_tasks.Base.{
  ℕ, zero, suc, ◌≤◌, ◌≡◌, refl, ◌∙◌, true, false, [], ◌∷◌, arith, not_ltb→le, ltb, length,
  length-drop-le, Bool-cases, inl, inr,
}
use corvint_tasks.Text.{Text, txt, has_prefix}
use corvint_tasks.Wire.Code.{malformed}
use corvint_tasks.Wire.Value.{Value}
use corvint_tasks.Wire.Scan.{Options, Parser, str}
use corvint_tasks.Wire.Parsed.{Parsed, failed, Yields, Yields->>=, Yields-expect}
use corvint_tasks.Wire.Scan.Returns.{IsString, str_returns}
use corvint_tasks.Wire.Parse.{
  node, Start, start, literal, any_value, any_object, any_array, object_start, array_start,
  string_start, true_start, false_start, null_start, no_start,
}
use corvint_tasks.Wire.Parse.Shape.{size, IsWithin}
use corvint_tasks.Wire.Parse.Returns.{
  IsRead, ValueReturns, BracketReturns, MembersReturns, ElementsReturns,
}
use corvint_tasks.Wire.Parse.Returns.Loops.{
  object_returns, members_returns, array_returns, elements_returns,
}

literal_returns :
    (o : Options) (p : Parser) (lit : Text) (v : Value) (before : ℕ)
    → size v ≡ 1
    → IsWithin o p.depth p.wide v
    → p.nodes ≡ suc before
    → p.nodes ≤ o.max_nodes
    → Yields (IsRead o (length p.rest) p.depth p.wide before) (literal lit v p)
unfolding literal
literal_returns o p lit v before one here nodes few =
    Yields-expect (IsRead o (length p.rest) p.depth p.wide before) (has_prefix p.rest lit) malformed
      tt _
      (λ is. record {
        shorter = length-drop-le (length lit) p.rest;
        same_depth = refl;
        narrow = λ h. h;
        nodes = omega (arith, one);
        few = few;
        within = here;
      })

-- A text that starts a value is not empty.
Yields-start :
    (Q : Value × Parser → Type 0) (s : Text) (a b c d e f : Parsed (Value × Parser))
    → (1 ≤ length s → Yields Q a × Yields Q b × Yields Q c × Yields Q d × Yields Q e × Yields Q f)
    → Yields Q (elim (start s) [
      | object_start ↦ a
      | array_start ↦ b
      | string_start ↦ c
      | true_start ↦ d
      | false_start ↦ e
      | null_start ↦ f
      | no_start ↦ failed malformed
    ])
unfolding start
Yields-start Q [] a b c d e f k = tt
Yields-start Q (x ∷ s) a b c d e f k = cases (start (x ∷ s)) (k (omega arith))
  where
    cases :
        (i : Start)
        → Yields Q a × Yields Q b × Yields Q c × Yields Q d × Yields Q e × Yields Q f
        → Yields Q (elim i [
          | object_start ↦ a
          | array_start ↦ b
          | string_start ↦ c
          | true_start ↦ d
          | false_start ↦ e
          | null_start ↦ f
          | no_start ↦ failed malformed
        ])
    cases object_start (h, _, _, _, _, _) = h
    cases array_start (_, h, _, _, _, _) = h
    cases string_start (_, _, h, _, _, _) = h
    cases true_start (_, _, _, h, _, _) = h
    cases false_start (_, _, _, _, h, _) = h
    cases null_start (_, _, _, _, _, h) = h
    cases no_start _ = tt

value_returns :
    (fuel : ℕ)
    → BracketReturns fuel any_object
    → BracketReturns fuel any_array
    → ValueReturns (suc fuel)
unfolding any_value node size IsWithin
value_returns fuel objects arrays o p enough = elim (Bool-cases (ltb o.max_nodes (suc p.nodes))) [
  | inl many ↦ rw many tt
  | inr few ↦ rw few (
      Yields-start (IsRead o (length p.rest) p.depth p.wide p.nodes) p.rest _ _ _ _ _ _
        (λ some_left.
          let le = not_ltb→le o.max_nodes (suc p.nodes) few in
          (
            objects o _ p.nodes refl le some_left (omega arith),
            arrays o _ p.nodes refl le some_left (omega arith),
            Yields->>= (IsString q) (IsRead o (length p.rest) p.depth p.wide p.nodes) (str q) _
                (str_returns q)
                (λ (s, q') r. record {
                  shorter = r.shorter;
                  same_depth = r.depth;
                  narrow = λ h. r.wide ∙ h;
                  nodes = omega (arith, r.nodes);
                  few = omega (arith, r.nodes, le);
                  within = r.clean;
                }),
            literal_returns o q (txt "true") (Value.bool true) p.nodes refl tt refl le,
            literal_returns o q (txt "false") (Value.bool false) p.nodes refl tt refl le,
            literal_returns o q (txt "null") Value.null p.nodes refl tt refl le,
          )))
]
  where
    q : Parser
    q = record p { nodes = suc p.nodes }

-- All readers, with the same fuel.
abbrev AllReturn : ℕ → Type 0
AllReturn fuel =
    ValueReturns fuel
    × BracketReturns fuel any_object
    × BracketReturns fuel any_array
    × MembersReturns fuel
    × ElementsReturns fuel

all_return : (fuel : ℕ) → AllReturn fuel
all_return zero = (
  λ o p enough. absurd (omega arith),
  λ o p before nodes few some_left enough. absurd (omega arith),
  λ o p before nodes few some_left enough. absurd (omega arith),
  λ o ms p depth before wide nodes few deep shallow all enough. absurd (omega arith),
  λ o vs p depth before wide nodes few deep shallow narrow all enough. absurd (omega arith),
)
all_return (suc fuel) =
    let (any_value', any_object', any_array', members', elements') = all_return fuel in
    (
      value_returns fuel any_object' any_array',
      object_returns fuel members',
      array_returns fuel elements',
      members_returns fuel any_value' members',
      elements_returns fuel any_value' elements',
    )

pub value_reads : (fuel : ℕ) → ValueReturns fuel
value_reads fuel = (all_return fuel).0
