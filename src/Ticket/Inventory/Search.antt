-- ===== src/Ticket/Inventory/Search.antt =====
-- The search of CheckDependencies against the paths of the dependency graph.
use corvint_tasks.Base.{
  ℕ, zero, suc, ◌+◌, ◌≡◌, ◌≢◌, refl, ◌⊎◌, inl, inr, Option, some, List, [], ◌∷◌, arith, length, any,
  In, Bool-cases,
}
use corvint_tasks.Text.{Text, text_eq, text_eq→eq, text_eq-false, any_text_eq→in}
use corvint_tasks.Wire.Code.{Code, Result, ok, err}
use corvint_tasks.Ticket.Record.{Record}
use corvint_tasks.Ticket.Inventory.{edges_of, push_all, search_back}

-- The second ticket is reached from the first along dependency edges.
pub data Leads (rs : List Record) : Text → Text → Type 0 where
  here : {v : Text} → Leads rs v v
  via : {v w u : Text} → In w (edges_of rs v) → Leads rs w u → Leads rs v u

In-push_right : (w : Text) (vs stack : List Text) → In w stack → In w (push_all vs stack)
unfolding push_all
In-push_right w [] stack m = m
In-push_right w (v ∷ vs) stack m = In-push_right w vs (v ∷ stack) (inr m)

pub In-push_left : (w : Text) (vs stack : List Text) → In w vs → In w (push_all vs stack)
unfolding push_all
In-push_left w [] stack m = elim m [ ]
In-push_left w (v ∷ vs) stack (inl e) = In-push_right w vs (v ∷ stack) (inl e)
In-push_left w (v ∷ vs) stack (inr m) = In-push_left w vs (v ∷ stack) m

pub In-push_cases :
    (w : Text) (vs stack : List Text) → In w (push_all vs stack) → In w vs ⊎ In w stack
unfolding push_all
In-push_cases w [] stack m = inr m
In-push_cases w (v ∷ vs) stack m = elim (In-push_cases w vs (v ∷ stack) m) [
  | inl l ↦ inl (inr l)
  | inr (inl e) ↦ inl (inl e)
  | inr (inr r) ↦ inr r
]

pub length-push_all : (vs stack : List Text) → length (push_all vs stack) ≡ length vs + length stack
unfolding push_all
length-push_all [] stack = omega arith
length-push_all (v ∷ vs) stack = omega (arith, length-push_all vs (v ∷ stack))

pub none_is_err :
    {e : Code} → ◌≡◌ {A = Option (Result (Unit {0}))} (some (err e)) (some (ok tt)) → ⊥
none_is_err h = cc

module _ (rs : List Record) (target : Text) where
  -- What the search keeps: no visited ticket is the target, and the edges of a visited ticket lead to
  -- tickets that are visited or on the stack.
  abbrev pub IsClosed : List Text → List Text → Type 0
  IsClosed visited stack =
      (v : Text)
      → In v visited
      → (v ≢ target) × ((w : Text) → In w (edges_of rs v) → In w visited ⊎ In w stack)

  closed_avoids :
      (visited : List Text)
      → IsClosed visited []
      → {v u : Text} → Leads rs v u
      → In v visited
      → u ≢ target
  closed_avoids visited c (here {v = v}) m e = (c v m).0 e
  closed_avoids visited c (via {v = v} {w = w} edge rest) m e = elim ((c v m).1 w edge) [
    | inl seen ↦ closed_avoids visited c rest seen e
    | inr none_left ↦ elim none_left [ ]
  ]

  -- A ticket that was visited already leaves the stack.
  IsClosed-pop :
      (visited : List Text) (v : Text) (stack : List Text)
      → In v visited
      → IsClosed visited (v ∷ stack)
      → IsClosed visited stack
  IsClosed-pop visited v stack m c u mu = (
    (c u mu).0,
    λ w edge. elim ((c u mu).1 w edge) [
      | inl seen ↦ inl seen
      | inr (inl e) ↦ inl (rw e m)
      | inr (inr s) ↦ inr s
    ],
  )

  -- A new ticket is visited, and its edges are pushed.
  IsClosed-visit :
      (visited : List Text) (v : Text) (stack : List Text)
      → v ≢ target
      → IsClosed visited (v ∷ stack)
      → IsClosed (v ∷ visited) (push_all (edges_of rs v) stack)
  IsClosed-visit visited v stack ne c u (inl e) =
      (rw e ne, λ w edge. inr (In-push_left w (edges_of rs v) stack (rw e at edge)))
  IsClosed-visit visited v stack ne c u (inr mu) = (
    (c u mu).0,
    λ w edge. elim ((c u mu).1 w edge) [
      | inl seen ↦ inl (inr seen)
      | inr (inl e) ↦ inl (inl e)
      | inr (inr s) ↦ inr (In-push_right w (edges_of rs v) stack s)
    ],
  )

  pop_member :
      (v x : Text) (visited stack : List Text)
      → In x visited
      → In v visited ⊎ In v (x ∷ stack)
      → In v visited ⊎ In v stack
  pop_member v x visited stack seen (inl m) = inl m
  pop_member v x visited stack seen (inr (inl e)) = inl (rw e seen)
  pop_member v x visited stack seen (inr (inr m)) = inr m

  visit_member :
      (v x : Text) (visited stack : List Text)
      → In v visited ⊎ In v (x ∷ stack)
      → In v (x ∷ visited) ⊎ In v (push_all (edges_of rs x) stack)
  visit_member v x visited stack (inl m) = inl (inr m)
  visit_member v x visited stack (inr (inl e)) = inl (inl e)
  visit_member v x visited stack (inr (inr m)) = inr (In-push_right v (edges_of rs x) stack m)

  -- A search that ends without a cycle leaves no path to the target from what it started with.
  pub search_back_sound :
      (fuel : ℕ) (visited stack : List Text)
      → IsClosed visited stack
      → search_back fuel rs target visited stack ≡ some (ok tt)
      → (v : Text) → In v visited ⊎ In v stack
      → Leads rs v target
      → ⊥
  unfolding search_back
  search_back_sound zero visited stack c h v m p = cc
  search_back_sound (suc fuel) visited [] c h v (inl m) p = closed_avoids visited c p m refl
  search_back_sound (suc fuel) visited [] c h v (inr m) p = elim m [ ]
  search_back_sound (suc fuel) visited (x ∷ stack) c h v m p =
      elim (Bool-cases (text_eq x target)) [
        | inl hit ↦ absurd (none_is_err (rw (hit, search_back) at h))
        | inr miss ↦ elim (Bool-cases (any (text_eq x) visited)) [
          | inl old ↦
              let seen : In x visited = any_text_eq→in x visited old in
              search_back_sound fuel visited stack (IsClosed-pop visited x stack seen c)
                (rw (miss, old, search_back) at h) v (pop_member v x visited stack seen m) p
          | inr new ↦
              search_back_sound fuel (x ∷ visited) (push_all (edges_of rs x) stack)
                (IsClosed-visit visited x stack (text_eq-false x target miss) c)
                (rw (miss, new, search_back) at h) v (visit_member v x visited stack m) p
        ]
      ]

  -- A search that reports a cycle has found a path to the target from the stack.
  pub search_back_complete :
      (fuel : ℕ) (visited stack : List Text) (e : Code)
      → search_back fuel rs target visited stack ≡ some (err e)
      → (v : Text) × In v stack × Leads rs v target
  unfolding search_back
  search_back_complete zero visited stack e h = cc
  search_back_complete (suc fuel) visited [] e h = cc
  search_back_complete (suc fuel) visited (x ∷ stack) e h = elim (Bool-cases (text_eq x target)) [
    | inl hit ↦ (x, inl refl, rw (text_eq→eq x target hit) here)
    | inr miss ↦ elim (Bool-cases (any (text_eq x) visited)) [
      | inl old ↦
          let (v, m, p) =
            search_back_complete fuel visited stack e (rw (miss, old, search_back) at h) in
          (v, inr m, p)
      | inr new ↦
          let (v, m, p) =
            search_back_complete fuel (x ∷ visited) (push_all (edges_of rs x) stack) e
              (rw (miss, new, search_back) at h) in
          elim (In-push_cases v (edges_of rs x) stack m) [
            | inl edge ↦ (x, inl refl, via edge p)
            | inr below ↦ (v, inr below, p)
          ]
    ]
  ]
