-- ===== src/Ticket/Inventory/Acyclic.antt =====
-- CheckDependencies keeps the dependency graph free of cycles.
use corvint_tasks.Base.{
  ◌≡◌, ◌≢◌, refl, sym, ◌⊎◌, inl, inr, ◌↔◌, false, some, List, [], ◌∷◌, arith, In, All, Bool-cases,
  Option-cases,
}
use corvint_tasks.Text.{Text, text_eq, text_eq→eq, text_eq_iff, text_eq-false}
use corvint_tasks.Wire.Code.{>>=-eq-ok, Code, Result, ok, err}
use corvint_tasks.Ticket.Record.{Record}
use corvint_tasks.Ticket.Inventory.{
  Inventory, find, edges_of, targets, push_all, search_back, search_fuel, check_present,
  check_dependencies,
}
use corvint_tasks.Ticket.Inventory.Search.{
  Leads, here, via, In-push_left, In-push_cases, search_back_sound, search_back_complete, IsClosed,
}
use corvint_tasks.Ticket.Inventory.Fuel.{search_back-decides, edges_of-cons}

-- A proposed dependency is another ticket of the inventory.
abbrev pub IsPresent : List Record → Text → Text → Type 0
IsPresent rs target d = (d ≢ target) × ((r : Record) × (find d rs ≡ some r))

err-ne-ok : {e : Code} → ◌≡◌ {A = Result (Unit {0})} (err e) (ok tt) → ⊥
err-ne-ok h = cc

check_present_sound :
    (rs : List Record) (target : Text) (ds : List Text)
    → check_present rs target ds ≡ ok tt
    → All (IsPresent rs target) ds
unfolding check_present
check_present_sound rs target [] h = tt
check_present_sound rs target (d ∷ ds) h = elim (Bool-cases (text_eq d target)) [
  | inl own ↦ absurd (err-ne-ok (rw (own, check_present) at h))
  | inr other ↦ elim (Option-cases (find d rs)) [
    | inl missing ↦ absurd (err-ne-ok (rw (other, missing, check_present) at h))
    | inr (r, found) ↦ (
      (text_eq-false d target other, (r, found)),
      check_present_sound rs target ds (rw (other, found, check_present) at h),
    )
  ]
]

check_present_complete :
    (rs : List Record) (target : Text) (ds : List Text)
    → All (IsPresent rs target) ds
    → check_present rs target ds ≡ ok tt
unfolding check_present
check_present_complete rs target [] h = refl
check_present_complete rs target (d ∷ ds) ((ne, (r, found)), rest) =
    let other : text_eq d target ≡ false = ground (arith, text_eq_iff d target) in
    rw (other, found) (check_present_complete rs target ds rest)

empty-IsClosed :
    (rs : List Record) (target : Text) (stack : List Text) → IsClosed rs target [] stack
empty-IsClosed rs target stack v m = elim m [ ]

-- The search answers for the paths from the proposed dependencies.
search_verdict :
    (rs : List Record) (target : Text) (next : List Text) (r : Result (Unit {0}))
    → search_back (search_fuel rs next) rs target [] (push_all next []) ≡ some r
    → (r ≡ ok tt) ↔ ((d : Text) → In d next → Leads rs d target → ⊥)
search_verdict rs target next (ok tt) e = (
  λ _ d m path.
      search_back_sound rs target (search_fuel rs next) [] (push_all next [])
        (empty-IsClosed rs target (push_all next [])) e d (inr (In-push_left d next [] m)) path,
  λ _. refl,
)
search_verdict rs target next (err c) e = (
  λ h. absurd (err-ne-ok h),
  λ clear.
      let (v, m, path) =
        search_back_complete rs target (search_fuel rs next) [] (push_all next []) c e in
      elim (In-push_cases v next [] m) [
        | inl edge ↦ absurd (clear v edge path)
        | inr none_left ↦ elim none_left [ ]
      ],
)

-- The check accepts a proposal exactly when its dependencies are other tickets of the inventory and
-- none of them leads back to the ticket.
pub check_dependencies_lem :
    (inv : Inventory) (p : Record)
    → (check_dependencies inv p ≡ ok tt) ↔ (
        All (IsPresent inv.records p.ticket_id.raw) (targets p.dependencies)
        × ((d : Text) → In d (targets p.dependencies) → Leads inv.records d p.ticket_id.raw → ⊥))
unfolding check_dependencies
check_dependencies_lem inv p =
    let rs = inv.records in
    let target = p.ticket_id.raw in
    let next = targets p.dependencies in
    let (r, e) = search_back-decides rs target next in
    let verdict = search_verdict rs target next r e in
    (
      λ h.
          let (u, present, clear) = >>=-eq-ok (check_present rs target next) _ h in
          (check_present_sound rs target next present, verdict.0 (rw e at clear)),
      λ h. rw (check_present_complete rs target next h.0, e) (verdict.1 h.1),
    )

-- No ticket leads back to itself over an edge.
abbrev pub IsAcyclic : List Record → Type 0
IsAcyclic rs = (v w : Text) → In w (edges_of rs v) → Leads rs w v → ⊥

Leads-trans : (rs : List Record) {a b c : Text} → Leads rs a b → Leads rs b c → Leads rs a c
Leads-trans rs here q = q
Leads-trans rs (via m p) q = via m (Leads-trans rs p q)

module _ (rs : List Record) (p : Record) where
  -- An edge of the new graph is a proposed dependency, or an old edge of another ticket.
  edge_cases :
      (v w : Text)
      → In w (edges_of (p ∷ rs) v)
      → ((v ≡ p.ticket_id.raw) × In w (targets p.dependencies))
        ⊎ ((v ≢ p.ticket_id.raw) × In w (edges_of rs v))
  edge_cases v w m = elim (Bool-cases (text_eq p.ticket_id.raw v)) [
    | inl own ↦ inl (sym (text_eq→eq p.ticket_id.raw v own), (rw (edges_of-cons p rs v, own) at m))
    | inr other ↦ inr (
      λ e. text_eq-false p.ticket_id.raw v other (sym e),
      (rw (edges_of-cons p rs v, other) at m),
    )
  ]

  -- A new path is an old one, or an old path leads from its start to the ticket.
  first_part : {a u : Text} → Leads (p ∷ rs) a u → Leads rs a u ⊎ Leads rs a p.ticket_id.raw
  first_part here = inl here
  first_part (via {v = v} {w = w} m path) = elim (edge_cases v w m) [
    | inl (own, _) ↦ inr (rw own here)
    | inr (_, edge) ↦ elim (first_part path) [
      | inl old ↦ inl (via edge old)
      | inr reach ↦ inr (via edge reach)
    ]
  ]

  -- A new path is an old one, or an old path leads from a proposed dependency to its end.
  last_part :
      {a u : Text}
      → Leads (p ∷ rs) a u
      → Leads rs a u ⊎ ((d : Text) × In d (targets p.dependencies) × Leads rs d u)
  last_part here = inl here
  last_part (via {v = v} {w = w} m path) = elim (last_part path) [
    | inl old ↦ elim (edge_cases v w m) [
      | inl (_, edge) ↦ inr (w, edge, old)
      | inr (_, edge) ↦ inl (via edge old)
    ]
    | inr found ↦ inr found
  ]

-- When the check accepts a record, the inventory in which this record takes the place of the ticket's
-- old one has no dependency cycle, if the old inventory had none.
pub check_dependencies-IsAcyclic :
    (inv : Inventory) (p : Record)
    → IsAcyclic inv.records
    → check_dependencies inv p ≡ ok tt
    → IsAcyclic (p ∷ inv.records)
check_dependencies-IsAcyclic inv p old h v w m path =
    let rs = inv.records in
    let clear = ((check_dependencies_lem inv p).0 h).1 in
    elim (edge_cases rs p v w m) [
      | inl (own, edge) ↦ elim (last_part rs p path) [
        | inl back ↦ clear w edge (rw own at back)
        | inr (d, from, back) ↦ clear d from (rw own at back)
      ]
      | inr (_, edge) ↦ elim (first_part rs p path) [
        | inl back ↦ old v w edge back
        | inr reach ↦ elim (last_part rs p path) [
          | inl back ↦ old v w edge back
          | inr (d, from, back) ↦ clear d from (Leads-trans rs back (via edge reach))
        ]
      ]
    ]
