-- ===== src/Ticket/Inventory/Fuel.antt =====
-- The fuel of the search of CheckDependencies is enough: every edge is pushed once at most.
use corvint_tasks.Base.{
  ℕ, zero, suc, ◌+◌, ◌≤◌, ◌<◌, ◌≡◌, ◌≢◌, refl, inl, inr, false, Option, none, some, List, [], ◌∷◌,
  arith, length, any, if◌then◌else◌, Bool-cases, length-map,
}
use corvint_tasks.Text.{Text, text_eq, text_eq→eq}
use corvint_tasks.Wire.Code.{Result}
use corvint_tasks.Ticket.Record.{Record}
use corvint_tasks.Ticket.Inventory.{
  find, edges_of, targets, push_all, search_back, search_fuel, edge_count,
}
use corvint_tasks.Ticket.Inventory.Search.{length-push_all}

-- The edges of the records that are not visited yet.
open_edges : List Record → List Text → ℕ
open_edges [] visited = 0
open_edges (r ∷ rs) visited =
    (if any (text_eq r.ticket_id.raw) visited then 0 else length r.dependencies)
    + open_edges rs visited

open_edges-visit_le :
    (rs : List Record) (v : Text) (visited : List Text)
    → open_edges rs (v ∷ visited) ≤ open_edges rs visited
unfolding open_edges
open_edges-visit_le [] v visited = omega arith
open_edges-visit_le (r ∷ rs) v visited = ground (arith, open_edges-visit_le rs v visited)

pub edges_of-cons :
    (r : Record) (rs : List Record) (v : Text)
    → edges_of (r ∷ rs) v
      ≡ (if text_eq r.ticket_id.raw v then targets r.dependencies else edges_of rs v)
unfolding edges_of find
edges_of-cons r rs v = ground arith

open_edges-visit :
    (rs : List Record) (v : Text) (visited : List Text)
    → any (text_eq v) visited ≡ false
    → length (edges_of rs v) + open_edges rs (v ∷ visited) ≤ open_edges rs visited
unfolding open_edges
open_edges-visit [] v visited new = unfold edges_of in omega arith
open_edges-visit (r ∷ rs) v visited new = elim (Bool-cases (text_eq r.ticket_id.raw v)) [
  | inl hit ↦
      let same : r.ticket_id.raw ≡ v = text_eq→eq r.ticket_id.raw v hit in
      let fresh : any (text_eq r.ticket_id.raw) visited ≡ false = rw same new in
      rw (edges_of-cons r rs v, hit, fresh)
        (omega (
          arith,
          length-map (λ d. d.ticket_id.raw) r.dependencies,
          open_edges-visit_le rs v visited,
        ))
  | inr miss ↦ rw (edges_of-cons r rs v, miss) (ground (arith, open_edges-visit rs v visited))
]

open_edges-edge_count : (rs : List Record) → open_edges rs [] ≡ edge_count rs
unfolding open_edges edge_count
open_edges-edge_count [] = refl
open_edges-edge_count (r ∷ rs) = omega (arith, open_edges-edge_count rs)

search_back-ends :
    (fuel : ℕ) (rs : List Record) (target : Text) (visited stack : List Text)
    → length stack + open_edges rs visited < fuel
    → search_back fuel rs target visited stack ≢ none
unfolding search_back
search_back-ends zero rs target visited stack h e = elim h [ ]
search_back-ends (suc fuel) rs target visited [] h e = cc
search_back-ends (suc fuel) rs target visited (v ∷ stack) h e =
    elim (Bool-cases (text_eq v target)) [
      | inl hit ↦ absurd (some_is_none (rw (hit, search_back) at e))
      | inr miss ↦ elim (Bool-cases (any (text_eq v) visited)) [
        | inl old ↦
            search_back-ends fuel rs target visited stack (omega arith)
              (rw (miss, old, search_back) at e)
        | inr new ↦
            search_back-ends fuel rs target (v ∷ visited) (push_all (edges_of rs v) stack)
              (omega
                (arith, open_edges-visit rs v visited new, length-push_all (edges_of rs v) stack))
              (rw (miss, new, search_back) at e)
      ]
    ]
  where
    some_is_none : {r : Result (Unit {0})} → ◌≡◌ {A = Option (Result (Unit {0}))} (some r) none → ⊥
    some_is_none h = cc

-- The search of CheckDependencies always comes to its end.
pub search_back-decides :
    (rs : List Record) (target : Text) (proposed : List Text)
    → (r : Result (Unit {0})) × (search_back
          (search_fuel rs proposed)
          rs
          target
          []
          (push_all proposed [])
        ≡ some r)
unfolding search_fuel
search_back-decides rs target proposed = ended _ (
    search_back-ends (suc (length proposed + edge_count rs)) rs target [] (push_all proposed [])
      (omega (arith, length-push_all proposed [], open_edges-edge_count rs)))
  where
    ended : (o : Option (Result (Unit {0}))) → o ≢ none → (r : Result (Unit {0})) × (o ≡ some r)
    ended none ne = absurd (ne refl)
    ended (some r) ne = (r, refl)
