-- ===== src/Mutation/Create/Serial.antt =====
-- allocateSerial of internal/mutation/apply.go: the token that it allocates.
use corvint_tasks.Base.{
  ℕ, zero, suc, ◌+◌, ◌≤◌, ◌<◌, ◌≡◌, Bool, true, false, List, arith, ltb, any, Bool-cases, ◌⊎◌, inl,
  inr,
}
use corvint_tasks.Text.{Text, text_eq}
use corvint_tasks.Wire.Limits.{max_count_value, max_local_token_bytes}
use corvint_tasks.Wire.Decimal.{Count}
use corvint_tasks.Wire.Primitives.{parse_token, fold_token}
use corvint_tasks.Ticket.Inventory.{Inventory, len, folded_locals}
use corvint_tasks.Queue.{Queue}
use corvint_tasks.Mutation.Context.{Checked, Refusal, pass, refuse, >>=-eq-pass, checked}
use corvint_tasks.Mutation.Create.{serial_token, find_serial, allocate_serial}

-- Is the token of a serial taken?
unfoldable pub is_occupied : Text → List Text → ℕ → Bool
is_occupied prefix occupied n = any (text_eq (fold_token (serial_token prefix n))) occupied

-- The allocated token is that of the first free serial, from the serial of the manifest on, and the manifest
-- goes on behind it.
pub record IsAllocated (prefix : Text) (occupied : List Text) (start : ℕ) (token : Text)
    (next : Count) : Type 0 where
  pub serial : ℕ
  pub token_eq : token ≡ serial_token prefix serial
  pub next_eq : next ≡ serial + 1
  pub from_start : start ≤ serial
  pub in_range : next ≤ max_count_value
  pub free : is_occupied prefix occupied serial ≡ false
  pub first : (m : ℕ) → start ≤ m → m < serial → is_occupied prefix occupied m ≡ true

refuse-ne-pass {ℓ} :
    {A : Type ℓ} {r : Refusal} {a : A} → ◌≡◌ {A = Checked A} (refuse r) (pass a) → ⊥
refuse-ne-pass e = cc

from_cases : (n m : ℕ) → n ≤ m → (m ≡ n) ⊎ (n + 1 ≤ m)
from_cases n m h = elim (Bool-cases (ltb n m)) [
  | inl later ↦ inr (ground arith)
  | inr here ↦ inl (ground arith)
]

module _ (prefix : Text) (occupied : List Text) where
  find_serial-IsAllocated :
      (tries n : ℕ) (token : Text) (next : Count)
      → find_serial tries prefix occupied n ≡ pass (token, next)
      → IsAllocated prefix occupied n token next
  unfolding is_occupied find_serial
  find_serial-IsAllocated zero n token next h = cc
  find_serial-IsAllocated (suc tries) n token next h =
      elim (Bool-cases (ltb max_count_value (n + 1))) [
        | inl over ↦ absurd (refuse-ne-pass (rw (over, find_serial) at h))
        | inr fits ↦ elim (Bool-cases (is_occupied prefix occupied n)) [
          | inl taken ↦
              let found =
                find_serial-IsAllocated tries (n + 1) token next
                  (rw (fits, taken, find_serial) at h) in
              record {
                serial = found.serial;
                token_eq = found.token_eq;
                next_eq = found.next_eq;
                from_start = omega (arith, found.from_start);
                in_range = found.in_range;
                free = found.free;
                first = λ m lo hi. elim (from_cases n m lo) [
                  | inl here ↦ rw here taken
                  | inr later ↦ found.first m later hi
                ];
              }
          | inr free ↦
              let (u, parsed, made) =
                >>=-eq-pass (checked (parse_token (serial_token prefix n) max_local_token_bytes)) _
                  (rw (fits, free, find_serial) at h) in
              let after : next ≡ n + 1 = cc in
              record {
                serial = n;
                token_eq = cc;
                next_eq = after;
                from_start = omega arith;
                in_range = rw after (ground arith);
                free = free;
                first = λ m lo hi. absurd (omega arith);
              }
        ]
      ]

-- A token that allocateSerial gives out is free, it is the one of the first free serial from nextSerial on,
-- and the manifest's next serial is the one behind it, within the Count maximum.
pub allocate_serial-IsAllocated :
    (inv : Inventory) (q : Queue) (token : Text) (next : Count)
    → allocate_serial inv q ≡ pass (token, next)
    → IsAllocated q.prefix (folded_locals inv.records) q.next_serial token next
unfolding allocate_serial
allocate_serial-IsAllocated inv q token next h =
    find_serial-IsAllocated q.prefix (folded_locals inv.records) (suc (len inv)) q.next_serial token
      next h
