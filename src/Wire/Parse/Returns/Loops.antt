-- ===== src/Wire/Parse/Returns/Loops.antt =====
-- object and array of internal/wire/parse.go, and their loops, keep their promise.
use corvint_tasks.Base.{
  ℕ, suc, refl, sym, false, not, arith, ltb, length, drop, length-drop-le, Bool-cases, inl, inr,
}
use corvint_tasks.Wire.Code.{limit_exceeded}
use corvint_tasks.Wire.Limits.{max_json_depth}
use corvint_tasks.Wire.Value.{nil, end, set}
use corvint_tasks.Wire.Scan.{next_is}
use corvint_tasks.Wire.Parsed.{Yields->>=, Yields-expect}
use corvint_tasks.Wire.Parse.{
  count, snoc, enter, array_bound, is_wide, member_key, any_value, any_object, members, any_array,
  elements,
}
use corvint_tasks.Wire.Parse.Shape.{
  size, sizes, member_sizes, IsWithin, AllWithin, MembersWithin, sizes-snoc, AllWithin-snoc,
  member_sizes-set, MembersWithin-set,
}
use corvint_tasks.Wire.Parse.Returns.{
  IsRead, IsKey, member_key_returns, ValueReturns, BracketReturns, MembersReturns, ElementsReturns,
  Yields-elim, Yields-after, length-drop_one, weaken, IsWithin-at,
}

pub object_returns : (fuel : ℕ) → MembersReturns fuel → BracketReturns (suc fuel) any_object
unfolding any_object enter size IsWithin member_sizes MembersWithin
object_returns fuel rest o p before nodes few some_left enough =
    elim (Bool-cases (ltb max_json_depth (suc p.depth))) [
      | inl deep ↦ rw deep tt
      | inr shallow ↦ rw shallow (
          Yields-elim (IsRead o (length p.rest) p.depth p.wide before)
            (next_is b'}' (drop 1 p.rest)) _ _
            record {
              shorter = omega (arith, length-drop-le 1 p.rest, length-drop-le 1 (drop 1 p.rest));
              same_depth = omega arith;
              narrow = λ h. h;
              nodes = omega arith;
              few = few;
              within = (ground arith, tt);
            }
            (weaken o (length (drop 1 p.rest)) (length p.rest) p.depth p.wide before _
              (length-drop-le 1 p.rest)
              (rest o end _ p.depth before p.wide (omega arith) few refl (ground arith) tt
                (omega (arith, length-drop_one p.rest some_left)))))
    ]

pub members_returns :
    (fuel : ℕ) → ValueReturns fuel → MembersReturns fuel → MembersReturns (suc fuel)
unfolding members size IsWithin
members_returns fuel inner rest o ms p depth before wide nodes few deep shallow all enough =
    let Q = IsRead o (length p.rest) depth wide before in
    Yields->>= (IsKey o ms p) Q (member_key o ms p) _ (member_key_returns o ms p) (λ (key, q) k.
      Yields->>= (IsRead o (length q.rest) q.depth q.wide q.nodes) Q (any_value fuel o q) _
        (inner o q (omega (arith, k.shorter)))
        (λ (v, q') r.
          let here =
            IsWithin-at o q.depth (suc depth) q.wide (is_wide o (suc depth) key) v
              (omega (arith, k.same_depth)) (rw (sym deep) k.wide) r.within in
          let grown = MembersWithin-set o (suc depth) ms key v k.fresh all k.clean here in
          let more = member_sizes-set ms key v k.fresh in
          Yields-after Q b'}' q'.rest _ _
            (λ some_left.
              weaken o (length (drop 1 q'.rest)) (length p.rest) depth wide before _
                (omega (arith, length-drop-le 1 q'.rest, r.shorter, k.shorter))
                (rest o (set ms key v) _ depth before wide
                  (omega (arith, nodes, r.nodes, k.nodes, more)) r.few
                  (omega (arith, r.same_depth, k.same_depth)) shallow grown
                  (omega (arith, length-drop_one q'.rest some_left, r.shorter, k.shorter))))
            record {
              shorter = omega (arith, length-drop-le 1 q'.rest, r.shorter, k.shorter);
              same_depth = omega (arith, r.same_depth, k.same_depth);
              narrow = λ h. refl;
              nodes = omega (arith, nodes, r.nodes, k.nodes, more);
              few = r.few;
              within = (shallow, grown);
            }))

pub array_returns : (fuel : ℕ) → ElementsReturns fuel → BracketReturns (suc fuel) any_array
unfolding any_array enter size IsWithin sizes AllWithin count
array_returns fuel rest o p before nodes few some_left enough =
    elim (Bool-cases (ltb max_json_depth (suc p.depth))) [
      | inl deep ↦ rw deep tt
      | inr shallow ↦ rw shallow (
          Yields-elim (IsRead o (length p.rest) p.depth p.wide before)
            (next_is b']' (drop 1 p.rest)) _ _
            record {
              shorter = omega (arith, length-drop-le 1 p.rest, length-drop-le 1 (drop 1 p.rest));
              same_depth = omega arith;
              narrow = λ h. refl;
              nodes = omega arith;
              few = few;
              within = (ground arith, omega arith, tt);
            }
            (weaken o (length (drop 1 p.rest)) (length p.rest) p.depth p.wide before _
              (length-drop-le 1 p.rest)
              (rest o nil _ p.depth before p.wide (omega arith) few refl (ground arith) refl tt
                (omega (arith, length-drop_one p.rest some_left)))))
    ]

pub elements_returns :
    (fuel : ℕ) → ValueReturns fuel → ElementsReturns fuel → ElementsReturns (suc fuel)
unfolding elements size IsWithin
elements_returns fuel inner rest o vs p depth before wide nodes few deep shallow narrow all enough =
    let Q = IsRead o (length p.rest) depth wide before in
    let bound = array_bound o (suc depth) wide in
    Yields->>= (IsRead o (length p.rest) p.depth p.wide p.nodes) Q (any_value fuel o p) _
      (inner o p (omega arith))
      (λ (v, q) r.
        Yields-expect Q (not (ltb bound (count (snoc vs v)))) limit_exceeded tt _ (λ short.
          let here = IsWithin-at o p.depth (suc depth) p.wide false v deep narrow r.within in
          let grown = AllWithin-snoc o (suc depth) vs v all here in
          let more = sizes-snoc vs v in
          Yields-after Q b']' q.rest _ _
            (λ some_left.
              weaken o (length (drop 1 q.rest)) (length p.rest) depth wide before _
                (omega (arith, length-drop-le 1 q.rest, r.shorter))
                (rest o (snoc vs v) _ depth before wide (omega (arith, nodes, r.nodes, more)) r.few
                  (omega (arith, r.same_depth)) shallow (r.narrow narrow) grown
                  (omega (arith, length-drop_one q.rest some_left, r.shorter))))
            record {
              shorter = omega (arith, length-drop-le 1 q.rest, r.shorter);
              same_depth = omega (arith, r.same_depth);
              narrow = λ h. r.narrow narrow;
              nodes = omega (arith, nodes, r.nodes, more);
              few = r.few;
              within = (shallow, ground arith, grown);
            }))
