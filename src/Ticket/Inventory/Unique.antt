-- ===== src/Ticket/Inventory/Unique.antt =====
-- NewInventory: the records of one queue, whose ids and folded local tokens differ.
use mathlib.Core.Path.{subst}
use corvint_tasks.Base.{
  ◌+◌, ◌≡◌, ◌≤◌, refl, sym, ap, ◌∙◌, ◌⊎◌, inl, inr, Bool, true, false, none, some, List, [], ◌∷◌,
  map, arith, ltb, length, any, In, All, Bool-cases, Option-cases,
}
use corvint_tasks.Text.{Text, text_eq, text_eq→eq, text_eq_refl, in→any_text_eq, text_eq-false}
use corvint_tasks.Wire.Code.{
  Code, ok, >>=-eq-ok, require, refuse_if, malformed, duplicate_id, limit_exceeded,
}
use corvint_tasks.Wire.Limits.{max_tickets_per_queue}
use corvint_tasks.Wire.Primitives.{fold_token}
use corvint_tasks.Wire.Ids.{QueueId, queue_id}
use corvint_tasks.Ticket.Record.{Record}
use corvint_tasks.Ticket.Inventory.{Inventory, find, get, folded_locals, admit, new_inventory}

abbrev pub ids : List Record → List Text
ids rs = map (λ r. r.ticket_id.raw) rs

abbrev pub IsDistinct : List Text → Type 0
IsDistinct [] = Unit
IsDistinct (t ∷ ts) = (In t ts → ⊥) × IsDistinct ts

-- The records belong to the queue, and neither their ids nor their local tokens up to case are shared.
pub record IsInventory (queue : Text) (rs : List Record) : Type 0 where
  pub owned : All (λ r. queue_id r.ticket_id ≡ queue) rs
  pub distinct : IsDistinct (ids rs)
  pub locals : IsDistinct (folded_locals rs)

In-ids : (r : Record) (rs : List Record) → In r rs → In r.ticket_id.raw (ids rs)
In-ids r [] m = elim m [ ]
In-ids r (s ∷ rs) (inl e) = inl (ap (λ (x : Record). x.ticket_id.raw) e)
In-ids r (s ∷ rs) (inr m) = inr (In-ids r rs m)

-- In an inventory, each record is found under its id.
find-In :
    (r : Record) (rs : List Record)
    → IsDistinct (ids rs)
    → In r rs
    → find r.ticket_id.raw rs ≡ some r
unfolding find
find-In r [] d m = elim m [ ]
find-In r (s ∷ rs) (new, rest) (inl e) = rw (e, text_eq_refl s.ticket_id.raw) refl
find-In r (s ∷ rs) (new, rest) (inr m) =
    elim (Bool-cases (text_eq s.ticket_id.raw r.ticket_id.raw)) [
      | inl same ↦ absurd (new (rw (text_eq→eq _ _ same) (In-ids r rs m)))
      | inr other ↦ rw other (find-In r rs rest m)
    ]

-- An id that is not found stands at no record.
find-none : (id : Text) (rs : List Record) → find id rs ≡ none → In id (ids rs) → ⊥
unfolding find
find-none id [] h m = elim m [ ]
find-none id (s ∷ rs) h m = elim (Bool-cases (text_eq s.ticket_id.raw id)) [
  | inl same ↦ absurd (some-ne-none (rw (same, find) at h))
  | inr other ↦ elim m [
    | inl e ↦ text_eq-false s.ticket_id.raw id other (sym e)
    | inr m ↦ find-none id rs (rw (other, find) at h) m
  ]
]
  where
    some-ne-none : {a : Record} → ◌≡◌ (some a) none → ⊥
    some-ne-none e = cc

abbrev is_known : Text → List Record → Bool
is_known id rs = elim (find id rs) [ none ↦ false | some s ↦ true ]

is_known-none : (id : Text) (rs : List Record) → is_known id rs ≡ false → find id rs ≡ none
is_known-none id rs h = elim (Option-cases (find id rs)) [
  | inl missing ↦ missing
  | inr (s, found) ↦ absurd (true-ne-false (rw (found, is_known) at h))
]
  where
    true-ne-false : true ≡ false → ⊥
    true-ne-false e = cc

refuse_if-false : (b : Bool) (e : Code) → refuse_if b e ≡ ok tt → b ≡ false
refuse_if-false false e h = refl
refuse_if-false true e h = cc

require-true : (b : Bool) (e : Code) → require b e ≡ ok tt → b ≡ true
require-true true e h = refl
require-true false e h = cc

-- One round of the loop keeps the records that were taken in well formed.
admit_round :
    (queue : Text) (seen : List Record) (r : Record) (rs out : List Record)
    → IsInventory queue seen
    → admit queue seen (r ∷ rs) ≡ ok out
    → IsInventory queue (r ∷ seen) × (admit queue (r ∷ seen) rs ≡ ok out)
unfolding admit folded_locals
admit_round queue seen r rs out v h =
    let (a, owned, h1) = >>=-eq-ok (require (text_eq (queue_id r.ticket_id) queue) malformed) _ h in
    let (b, fresh, h2) = >>=-eq-ok (refuse_if (is_known r.ticket_id.raw seen) duplicate_id) _ h1 in
    let (c, local, h3) =
      >>=-eq-ok
        (refuse_if (any (text_eq (fold_token r.ticket_id.local)) (folded_locals seen)) duplicate_id)
        _ h2 in
    let new = is_known-none r.ticket_id.raw seen (refuse_if-false _ _ fresh) in
    let free = refuse_if-false _ _ local in
    (
      record {
        owned = (text_eq→eq _ _ (require-true _ _ owned), v.owned);
        distinct = (find-none r.ticket_id.raw seen new, v.distinct);
        locals = (λ m. true-ne-false (sym (in→any_text_eq _ _ m) ∙ free), v.locals);
      },
      h3,
    )
  where
    true-ne-false : true ≡ false → ⊥
    true-ne-false e = cc

-- The loop takes in every record.
admit-IsInventory :
    (queue : Text) (seen rs out : List Record)
    → IsInventory queue seen
    → admit queue seen rs ≡ ok out
    → IsInventory queue out
      × (length out ≡ length seen + length rs)
      × ((r : Record) → (In r seen ⊎ In r rs) → In r out)
unfolding admit
admit-IsInventory queue seen [] out v h =
    let done : seen ≡ out = cc in
    (
      subst (IsInventory queue) done v,
      rw done (omega arith),
      λ r m. elim m [ inl there ↦ rw done at there | inr none_left ↦ elim none_left [ ] ],
    )
admit-IsInventory queue seen (x ∷ rs) out v h =
    let (next, h1) = admit_round queue seen x rs out v h in
    let (ends, size, holds) = admit-IsInventory queue (x ∷ seen) rs out next h1 in
    (
      ends,
      omega (arith, size),
      λ r m. elim m [
        | inl there ↦ holds r (inl (inr there))
        | inr there ↦ elim there [
          | inl here ↦ holds r (inl (inl here))
          | inr later ↦ holds r (inr later)
        ]
      ],
    )

-- An inventory that NewInventory makes holds as many records as it was given, at most the bound of a
-- queue, all of its queue, with distinct ids and with local tokens that differ up to case; and Get
-- finds each of the given records under its id.
pub new_inventory-IsInventory :
    (queue : QueueId) (rs : List Record) (inv : Inventory)
    → new_inventory queue rs ≡ ok inv
    → IsInventory queue.raw inv.records
      × (length inv.records ≡ length rs)
      × (length rs ≤ max_tickets_per_queue)
      × ((r : Record) → In r rs → get inv r.ticket_id.raw ≡ some r)
unfolding new_inventory get
new_inventory-IsInventory queue rs inv h =
    let (a, bound, h1) =
      >>=-eq-ok (refuse_if (ltb max_tickets_per_queue (length rs)) limit_exceeded) _ h in
    let (out, taken, h2) = >>=-eq-ok (admit queue.raw [] rs) _ h1 in
    let made : inv.records ≡ out = cc in
    let empty : IsInventory queue.raw [] = record {
      owned = tt;
      distinct = tt;
      locals = unfold folded_locals in tt;
    } in
    let (v, size, holds) = admit-IsInventory queue.raw [] rs out empty taken in
    let fits = refuse_if-false _ _ bound in
    (
      rw made v,
      rw made (omega (arith, size)),
      ground arith,
      λ r m. rw made (find-In r out v.distinct (holds r (inr m))),
    )
