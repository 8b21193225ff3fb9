-- ===== src/Wire/Code.antt =====
-- internal/wire/codes.go: the closed detail codes that the modelled parts return, and the results of
-- functions that may fail with one. Only the code of an error is kept: its place and its message
-- are for people.
use corvint_tasks.Base.{◌≡◌, refl, Bool, true, false}

pub data Code : Type 0 where
  adopt_unsupported_field approval_missing approval_revoked attempt_live coverage_unknown : Code
  cutover_missing cycle dependency_missing dependency_unsatisfied duplicate_id : Code
  external_unbounded gate_unknown intent_branch_mismatch intent_diverged invalid_priority
        journal_forked :
      Code
  limit_exceeded malformed paused request_id_conflict stale_policy stale_ticket : Code
  ticket_held ticket_state uninitialized unsupported unsupported_version : Code

-- A call that may fail, its error reduced to the code.
pub data Result {ℓ} (Value : Type ℓ) : Type ℓ where
  err : Code → Result Value
  ok : Value → Result Value

-- An early return of an error, if the test holds.
abbrev pub refuse_if : Bool → Code → Result (Unit {0})
refuse_if false code = ok tt
refuse_if true code = err code

-- An early return of an error, unless the test holds.
abbrev pub require : Bool → Code → Result (Unit {0})
require true code = ok tt
require false code = err code

infixl 5 ◌>>=◌
abbrev pub ◌>>=◌ {ℓ κ} : {A : Type ℓ} {B : Type κ} (m : Result A) (next : A → Result B) → Result B
err code >>= next = err code
ok value >>= next = next value

infixl 5 ◌>>◌
abbrev pub ◌>>◌ {ℓ κ} : {A : Type ℓ} {B : Type κ} (m : Result A) (next : Result B) → Result B
m >> next = m >>= λ value. next

-- The parts of a bind that succeeded.
pub >>=-eq-ok {ℓ κ} :
    {A : Type ℓ} {B : Type κ} {last : B} (m : Result A) (next : A → Result B)
    → (m >>= next) ≡ ok last
    → (value : A) × (m ≡ ok value) × (next value ≡ ok last)
>>=-eq-ok (err code) next done = cc
>>=-eq-ok (ok value) next done = (value, refl, done)

-- A check that was passed.
pub refuse_if-passed : (b : Bool) (code : Code) → refuse_if b code ≡ ok tt → b ≡ false
refuse_if-passed true code h = cc
refuse_if-passed false code h = refl

pub require-passed : (b : Bool) (code : Code) → require b code ≡ ok tt → b ≡ true
require-passed true code h = refl
require-passed false code h = cc

pub unit_step {ℓ} :
    {B : Type ℓ} {last : B} (m : Result (Unit {0})) (next : Result B)
    → (m >> next) ≡ ok last
    → (m ≡ ok tt) × (next ≡ ok last)
unit_step (err code) next h = cc
unit_step (ok tt) next h = (refl, h)
