-- ===== src/Mutation/Create/Tries.antt =====
-- allocateSerial never runs out of its tries: with one more try than there are tickets, one of the
-- serials is free.
use mathlib.Core.Path.{subst}
use corvint_tasks.Base.{
  ℕ, zero, suc, ◌+◌, ◌≤◌, ◌<◌, ◌≡◌, ◌≢◌, refl, sym, ap, ◌∙◌, false, List, [], ◌∷◌, arith, ltb, any,
  length, In, Bool-cases, ◌⊎◌, inl, inr, length-map,
}
use corvint_tasks.Text.{Text, text_eq, any_text_eq→in}
use corvint_tasks.Wire.Code.{ok}
use corvint_tasks.Wire.Limits.{max_count_value}
use corvint_tasks.Wire.Decimal.{Count}
use corvint_tasks.Wire.Primitives.{parse_token, fold_token}
use corvint_tasks.Ticket.Inventory.{Inventory, len, folded_locals}
use corvint_tasks.Queue.{Queue}
use corvint_tasks.Mutation.Context.{pass}
use corvint_tasks.Mutation.Create.{serial_token, find_serial, allocate_serial}
use corvint_tasks.Mutation.Create.Names.{serial_in, serial_in-fold_token, parse_token-serial_token}

-- The list without one of its members.
record IsWithout (t : Text) (ts : List Text) : Type 0 where
  rest : List Text
  shorter : length ts ≡ suc (length rest)
  others : (s : Text) → In s ts → s ≢ t → In s rest

without : (t : Text) (ts : List Text) → In t ts → IsWithout t ts
without t [] m = elim m [ ]
without t (s ∷ ts) (inl e) = record {
  rest = ts;
  shorter = refl;
  others = λ u m ne. elim m [ inl same ↦ absurd (ne (same ∙ sym e)) | inr there ↦ there ];
}
without t (s ∷ ts) (inr m) =
    let found = without t ts m in
    record {
      rest = s ∷ found.rest;
      shorter = omega (arith, found.shorter);
      others = λ u m ne. elim m [ inl same ↦ inl same | inr there ↦ inr (found.others u there ne) ];
    }

folded : Text → ℕ → Text
folded prefix n = fold_token (serial_token prefix n)

folded_injective : (prefix : Text) (m n : ℕ) → folded prefix m ≡ folded prefix n → m ≡ n
unfolding folded
folded_injective prefix m n e =
    sym (serial_in-fold_token prefix m) ∙ (ap (serial_in prefix) e ∙ serial_in-fold_token prefix n)

-- As many serials in a row as there are tokens, all of them taken, are all the tokens.
pigeonhole :
    (prefix : Text) (tries n : ℕ) (taken : List Text)
    → ((m : ℕ) → n ≤ m → m < n + tries → In (folded prefix m) taken)
    → tries ≤ length taken
pigeonhole prefix zero n taken all = omega arith
pigeonhole prefix (suc tries) n taken all =
    let here = without (folded prefix n) taken (all n (omega arith) (omega arith)) in
    let fewer = pigeonhole prefix tries (n + 1) here.rest (λ m lo hi.
      here.others (folded prefix m) (all m (omega arith) (omega arith))
        (λ e. absurd (omega (arith, folded_injective prefix m n e)))) in
    omega (arith, here.shorter, fewer)

abbrev Found : ℕ → Text → List Text → ℕ → Type 0
Found tries prefix occupied n =
    (token : Text) × (next : Count) × (find_serial tries prefix occupied n ≡ pass (token, next))

-- The loop finds a serial, or all that it tried are taken.
find_serial_cases :
    (prefix : Text) (occupied : List Text) (tries n : ℕ)
    → parse_token prefix 53 ≡ ok prefix
    → n + tries ≤ max_count_value
    → Found tries prefix occupied n
      ⊎ ((m : ℕ) → n ≤ m → m < n + tries → In (folded prefix m) occupied)
unfolding find_serial folded
find_serial_cases prefix occupied zero n named room = inr (λ m lo hi. absurd (omega arith))
find_serial_cases prefix occupied (suc tries) n named room =
    let fits : ltb max_count_value (n + 1) ≡ false = ground arith in
    elim (Bool-cases (any (text_eq (folded prefix n)) occupied)) [
      | inr free ↦ inl (
        serial_token prefix n,
        n + 1,
        rw (fits, free, parse_token-serial_token prefix n named (omega arith)) refl,
      )
      | inl taken ↦ elim (find_serial_cases prefix occupied tries (n + 1) named (omega arith)) [
        | inl (token, next, found) ↦ inl (token, next, rw (fits, taken) found)
        | inr all ↦ inr (λ m lo hi. elim (Bool-cases (ltb n m)) [
          | inl later ↦ all m (ground arith) (omega arith)
          | inr here ↦
              let same : n ≡ m = ground arith in
              subst (λ k. In (folded prefix k) occupied) same
                (any_text_eq→in (folded prefix n) occupied taken)
        ])
      ]
    ]

-- allocateSerial gives out a token whenever the prefix of the queue is a token of at most 53 bytes and
-- the serials that it may try are within the Count maximum: the tries never run out.
pub allocate_serial-ends :
    (inv : Inventory) (q : Queue)
    → parse_token q.prefix 53 ≡ ok q.prefix
    → q.next_serial + suc (len inv) ≤ max_count_value
    → (token : Text) × (next : Count) × (allocate_serial inv q ≡ pass (token, next))
unfolding allocate_serial
allocate_serial-ends inv q named room =
    let occupied = folded_locals inv.records in
    elim (find_serial_cases q.prefix occupied (suc (len inv)) q.next_serial named room) [
      | inl found ↦ found
      | inr all ↦
          let size : length occupied ≡ len inv = unfold folded_locals in length-map _ inv.records in
          absurd
            (omega (arith, pigeonhole q.prefix (suc (len inv)) q.next_serial occupied all, size))
    ]
