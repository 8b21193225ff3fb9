-- ===== src/Ticket/Inventory/Planning.antt =====
-- IDs and Sorted of internal/ticket/graph.go: the byte order of the ids and the planning order.
-- sort.Strings and sort.SliceStable are of the standard library: each is the stable sort by its test.
use corvint_tasks.Base.{
  ℕ, ◌<◌, suc, ◌≡◌, refl, sym, ap, ◌∙◌, ◌↔◌, ◌⊎◌, inl, inr, Bool, true, false, not, List, [], ◌∷◌,
  map, arith, ltb, ◌==◌, if◌then◌else◌, Bool-cases, In, All, length,
}
use mathlib.Core.Path.{subst}
use corvint_tasks.Text.{Text, text_eq, text_ltb, text_ltb_trans, text_ltb_asym, text_eq→eq}
use corvint_tasks.Wire.Parse.Order.{text_ltb_other}
use corvint_tasks.Ticket.Names.{Priority, p0, p1, p2, p3, priority_name}
use corvint_tasks.Ticket.Record.{Record}
use corvint_tasks.Ticket.Inventory.{Inventory}

-- One insertion of a stable sort: in front of the first element that is not before.
unfoldable pub insert_by {ℓ} : {A : Type ℓ} → (A → A → Bool) → A → List A → List A
insert_by before x [] = x ∷ []
insert_by before x (y ∷ ys) = if before y x then y ∷ insert_by before x ys else x ∷ y ∷ ys

unfoldable pub sort_by {ℓ} : {A : Type ℓ} → (A → A → Bool) → List A → List A
unfolding insert_by
sort_by before [] = []
sort_by before (x ∷ xs) = insert_by before x (sort_by before xs)

abbrev pub id_before : Record → Record → Bool
id_before a b = text_ltb a.ticket_id.raw b.ticket_id.raw

-- The comparison of Sorted: priority, order, id
unfoldable pub planned_before : Record → Record → Bool
planned_before a b =
    if not (text_eq (priority_name a.priority) (priority_name b.priority))
    then text_ltb (priority_name a.priority) (priority_name b.priority)
    else if not (a.order == b.order)
    then ltb a.order b.order
    else text_ltb a.ticket_id.raw b.ticket_id.raw

-- The records in the order of IDs, and IDs
abbrev by_id : Inventory → List Record
by_id inv = sort_by id_before inv.records

abbrev pub sorted_ids : Inventory → List Text
sorted_ids inv = map (λ r. r.ticket_id.raw) (by_id inv)

-- The records in the order of Sorted, and Sorted
abbrev pub by_plan : Inventory → List Record
by_plan inv = sort_by planned_before (by_id inv)

abbrev pub sorted : Inventory → List Text
sorted inv = map (λ r. r.ticket_id.raw) (by_plan inv)

module _ {A : Type 0} (before : A → A → Bool) where
  In-insert_by : (x y : A) (ys : List A) → In x (insert_by before y ys) ↔ In x (y ∷ ys)
  unfolding insert_by
  In-insert_by x y [] = (λ m. m, λ m. m)
  In-insert_by x y (z ∷ zs) = elim (Bool-cases (before z y)) [
    | inl below ↦
        let rest = In-insert_by x y zs in
        rw below (
          λ m. elim m [
            | inl e ↦ inr (inl e)
            | inr there ↦ elim (rest.0 there) [ inl e ↦ inl e | inr later ↦ inr (inr later) ]
          ],
          λ m. elim m [
            | inl e ↦ inr (rest.1 (inl e))
            | inr there ↦ elim there [ inl e ↦ inl e | inr later ↦ inr (rest.1 (inr later)) ]
          ],
        )
    | inr above ↦ rw above (λ m. m, λ m. m)
  ]

  pub In-sort_by : (x : A) (xs : List A) → In x (sort_by before xs) ↔ In x xs
  unfolding sort_by
  In-sort_by x [] = (λ m. m, λ m. m)
  In-sort_by x (y ∷ ys) =
      let step = In-insert_by x y (sort_by before ys) in
      let rest = In-sort_by x ys in
      (
        λ m. elim (step.0 m) [ inl e ↦ inl e | inr there ↦ inr (rest.0 there) ],
        λ m. step.1 (elim m [ inl e ↦ inl e | inr there ↦ inr (rest.1 there) ]),
      )

-- Each element has the relation to all the later ones.
abbrev pub IsPairwise {ℓ} : {A : Type 0} → (A → A → Type ℓ) → List A → Type ℓ
IsPairwise R [] = Unit
IsPairwise R (x ∷ xs) = All (R x) xs × IsPairwise R xs

All-weaken {ℓ κ} :
    {A : Type 0} {P : A → Type ℓ} {Q : A → Type κ} (xs : List A)
    → ((x : A) → P x → Q x)
    → All P xs
    → All Q xs
All-weaken [] f all = tt
All-weaken (x ∷ xs) f (here, all) = (f x here, All-weaken xs f all)

module _ {A : Type 0} (before : A → A → Bool) (R : A → A → Type 0)
    (first : (x y : A) → before x y ≡ true → R x y) (other : (x y : A) → before x y ≡ false → R y x)
    (chain : (x y z : A) → R x y → R y z → R x z) where
  All-insert_by :
      (P : A → Type 0) (x : A) (ys : List A) → P x → All P ys → All P (insert_by before x ys)
  unfolding insert_by
  All-insert_by P x [] here all = (here, tt)
  All-insert_by P x (y ∷ ys) here (there, all) = elim (Bool-cases (before y x)) [
    | inl below ↦ rw below (there, All-insert_by P x ys here all)
    | inr above ↦ rw above (here, (there, all))
  ]

  insert_by-IsPairwise :
      (x : A) (ys : List A) → IsPairwise R ys → IsPairwise R (insert_by before x ys)
  unfolding insert_by
  insert_by-IsPairwise x [] all = (tt, tt)
  insert_by-IsPairwise x (y ∷ ys) (later, rest) = elim (Bool-cases (before y x)) [
    | inl below ↦
        rw below (All-insert_by (R y) x ys (first y x below) later, insert_by-IsPairwise x ys rest)
    | inr above ↦
        let next = other y x above in
        rw above ((next, All-weaken ys (λ z r. chain x y z next r) later), (later, rest))
  ]

  pub sort_by-IsPairwise : (xs : List A) → IsPairwise R (sort_by before xs)
  unfolding sort_by
  sort_by-IsPairwise [] = tt
  sort_by-IsPairwise (x ∷ xs) = insert_by-IsPairwise x (sort_by before xs) (sort_by-IsPairwise xs)

-- The urgency of a priority: P0 comes first.
abbrev pub rank : Priority → ℕ
rank p0 = 0
rank p1 = 1
rank p2 = 2
rank p3 = 3

-- A ticket comes no later than another: it is more urgent; or it is as urgent and of a lower
-- order; or both are the same and its id is not above the other's.
abbrev pub Precedes : Record → Record → Type 0
Precedes a b =
    (rank a.priority < rank b.priority)
    ⊎ ((rank a.priority ≡ rank b.priority)
        × ((a.order < b.order)
            ⊎ ((a.order ≡ b.order) × (text_ltb b.ticket_id.raw a.ticket_id.raw ≡ false))))

priority_ltb :
    (a b : Priority) → text_ltb (priority_name a) (priority_name b) ≡ ltb (rank a) (rank b)
unfolding text_ltb
priority_ltb p0 p0 = refl
priority_ltb p0 p1 = refl
priority_ltb p0 p2 = refl
priority_ltb p0 p3 = refl
priority_ltb p1 p0 = refl
priority_ltb p1 p1 = refl
priority_ltb p1 p2 = refl
priority_ltb p1 p3 = refl
priority_ltb p2 p0 = refl
priority_ltb p2 p1 = refl
priority_ltb p2 p2 = refl
priority_ltb p2 p3 = refl
priority_ltb p3 p0 = refl
priority_ltb p3 p1 = refl
priority_ltb p3 p2 = refl
priority_ltb p3 p3 = refl

priority_eq : (a b : Priority) → text_eq (priority_name a) (priority_name b) ≡ (rank a == rank b)
unfolding text_eq
priority_eq p0 p0 = refl
priority_eq p0 p1 = refl
priority_eq p0 p2 = refl
priority_eq p0 p3 = refl
priority_eq p1 p0 = refl
priority_eq p1 p1 = refl
priority_eq p1 p2 = refl
priority_eq p1 p3 = refl
priority_eq p2 p0 = refl
priority_eq p2 p1 = refl
priority_eq p2 p2 = refl
priority_eq p2 p3 = refl
priority_eq p3 p0 = refl
priority_eq p3 p1 = refl
priority_eq p3 p2 = refl
priority_eq p3 p3 = refl

text_ltb_total : (s t : Text) → text_ltb s t ≡ false → (text_ltb t s ≡ true) ⊎ (t ≡ s)
text_ltb_total s t h = elim (Bool-cases (text_eq s t)) [
  | inl same ↦ inr (sym (text_eq→eq s t same))
  | inr differ ↦ inl (text_ltb_other s t h differ)
]

text_chain : (s t u : Text) → text_ltb t s ≡ false → text_ltb u t ≡ false → text_ltb u s ≡ false
text_chain s t u h k = elim (text_ltb_total t s h) [
  | inr same ↦ subst (λ x. text_ltb u x ≡ false) (sym same) k
  | inl low ↦ elim (text_ltb_total u t k) [
    | inr same ↦ subst (λ x. text_ltb x s ≡ false) same h
    | inl high ↦ text_ltb_asym s u (text_ltb_trans s t u low high)
  ]
]

planned_before-Precedes : (a b : Record) → planned_before a b ≡ true → Precedes a b
unfolding planned_before
planned_before-Precedes a b h = ground (
  arith,
  priority_ltb a.priority b.priority,
  priority_eq a.priority b.priority,
  text_ltb_asym a.ticket_id.raw b.ticket_id.raw,
)

not_planned_before-Precedes : (a b : Record) → planned_before a b ≡ false → Precedes b a
unfolding planned_before
not_planned_before-Precedes a b h =
    ground (arith, priority_ltb a.priority b.priority, priority_eq a.priority b.priority)

Precedes-trans : (a b c : Record) → Precedes a b → Precedes b c → Precedes a c
Precedes-trans a b c h k =
    ground (arith, text_chain a.ticket_id.raw b.ticket_id.raw c.ticket_id.raw)

length-insert_by :
    {A : Type 0} (before : A → A → Bool) (x : A) (ys : List A)
    → length (insert_by before x ys) ≡ suc (length ys)
unfolding insert_by
length-insert_by before x [] = refl
length-insert_by before x (y ∷ ys) = elim (Bool-cases (before y x)) [
  | inl below ↦ rw below (ap suc (length-insert_by before x ys))
  | inr above ↦ rw above refl
]

length-sort_by :
    {A : Type 0} (before : A → A → Bool) (xs : List A) → length (sort_by before xs) ≡ length xs
unfolding sort_by
length-sort_by before [] = refl
length-sort_by before (x ∷ xs) =
    length-insert_by before x (sort_by before xs) ∙ ap suc (length-sort_by before xs)

-- The planning order of an inventory lists each of its tickets and no other, as many as there
-- are. A ticket precedes all those behind it: it is more urgent, P0 first and P3 last; or as
-- urgent and of a lower order; or of the same order and of an id that is not above.
pub by_plan-IsPlanned :
    (inv : Inventory)
    → IsPairwise Precedes (by_plan inv)
      × ((r : Record) → In r (by_plan inv) ↔ In r inv.records)
      × (length (by_plan inv) ≡ length inv.records)
by_plan-IsPlanned inv = (
  sort_by-IsPairwise planned_before Precedes planned_before-Precedes not_planned_before-Precedes
      Precedes-trans (by_id inv),
  λ r.
      let outer = In-sort_by planned_before r (by_id inv) in
      let inner = In-sort_by id_before r inv.records in
      (λ m. inner.0 (outer.0 m), λ m. outer.1 (inner.1 m)),
  length-sort_by planned_before (by_id inv) ∙ length-sort_by id_before inv.records,
)
