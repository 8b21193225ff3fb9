-- ===== src/Wire/Parsed.antt =====
-- The results of the parser of internal/wire/parse.go.
use corvint_tasks.Base.{◌≡◌, ◌≢◌, refl, Bool, true, false}
use corvint_tasks.Wire.Code.{Code, Result, ok, err, malformed, limit_exceeded}

-- What a reader gives: a value, or the code of an error. `out_of_fuel` stands for no result of the
-- source.
pub data Parsed {ℓ} (A : Type ℓ) : Type ℓ where
  out_of_fuel : Parsed A
  failed : Code → Parsed A
  parsed : A → Parsed A

infixl 5 ◌>>=◌
abbrev pub ◌>>=◌ {ℓ κ} : {A : Type ℓ} {B : Type κ} (m : Parsed A) (next : A → Parsed B) → Parsed B
out_of_fuel >>= next = out_of_fuel
failed code >>= next = failed code
parsed value >>= next = next value

infixl 5 ◌>>◌
abbrev pub ◌>>◌ {ℓ κ} : {A : Type ℓ} {B : Type κ} (m : Parsed A) (next : Parsed B) → Parsed B
m >> next = m >>= λ value. next

abbrev pub expect : Bool → Code → Parsed (Unit {0})
expect true code = parsed tt
expect false code = failed code

abbrev pub from_result {ℓ} : {A : Type ℓ} → Result A → Parsed A
from_result (ok a) = parsed a
from_result (err code) = failed code

-- MALFORMED and LIMIT_EXCEEDED, but no other code.
abbrev pub IsParseCode : Code → Type 0
IsParseCode malformed = Unit
IsParseCode limit_exceeded = Unit
IsParseCode _ = ⊥

-- A reader has a result: a value that satisfies a predicate, or a refusal.
abbrev pub Yields {ℓ} : {A : Type ℓ} → (A → Type 0) → Parsed A → Type 0
Yields P out_of_fuel = ⊥
Yields P (failed code) = IsParseCode code
Yields P (parsed a) = P a

pub Yields->>= {ℓ κ} :
    {A : Type ℓ} {B : Type κ} (P : A → Type 0) (Q : B → Type 0) (m : Parsed A) (next : A → Parsed B)
    → Yields P m
    → ((a : A) → P a → Yields Q (next a))
    → Yields Q (m >>= next)
Yields->>= P Q out_of_fuel next h k = elim h [ ]
Yields->>= P Q (failed code) next h k = h
Yields->>= P Q (parsed a) next h k = k a h

pub Yields-out_of_fuel {ℓ} :
    {A : Type ℓ} (P : A → Type 0) (m : Parsed A) → Yields P m → m ≢ out_of_fuel
Yields-out_of_fuel P out_of_fuel h e = h
Yields-out_of_fuel P (failed code) h e = cc
Yields-out_of_fuel P (parsed a) h e = cc

pub Yields-parsed {ℓ} :
    {A : Type ℓ} (P : A → Type 0) (m : Parsed A) (a : A) → Yields P m → m ≡ parsed a → P a
Yields-parsed P m a h e = rw e at h

pub Yields-failed {ℓ} :
    {A : Type ℓ} (P : A → Type 0) (m : Parsed A) (code : Code)
    → Yields P m
    → m ≡ failed code
    → IsParseCode code
Yields-failed P m code h e = rw e at h

pub Yields-mono {ℓ} :
    {A : Type ℓ} (P Q : A → Type 0) (m : Parsed A) → ((a : A) → P a → Q a) → Yields P m → Yields Q m
Yields-mono P Q out_of_fuel k h = h
Yields-mono P Q (failed code) k h = h
Yields-mono P Q (parsed a) k h = k a h

pub Yields-expect {ℓ} :
    {A : Type ℓ} (Q : A → Type 0) (b : Bool) (code : Code)
    → IsParseCode code
    → (next : Parsed A) → (b ≡ true → Yields Q next)
    → Yields Q (expect b code >> next)
Yields-expect Q true code is next k = k refl
Yields-expect Q false code is next k = is

-- The steps of a reader whose parts are known.
pub >>=-parsed {ℓ κ} :
    {A : Type ℓ} {B : Type κ} (m : Parsed A) (next : A → Parsed B) (a : A) (x : Parsed B)
    → m ≡ parsed a
    → next a ≡ x
    → (m >>= next) ≡ x
>>=-parsed m next a x e f = rw e f

pub expect-true {ℓ} :
    {A : Type ℓ} (b : Bool) (code : Code) (next x : Parsed A)
    → b ≡ true
    → next ≡ x
    → (expect b code >> next) ≡ x
expect-true b code next x e f = rw e f
