-- ===== src/Ticket/Validate/Checks.antt =====
-- Sequences of checks, and the check for keys that are seen once, of Record.validate.
use corvint_tasks.Base.{
  ◌≡◌, ◌≢◌, refl, sym, ◌∙◌, ◌↔◌, inl, inr, Bool, true, false, not, List, [], ◌∷◌, arith, any, In,
  All, Bool-cases,
}
use corvint_tasks.Text.{
  Text, text_eq, text_eq→eq, text_eq_iff, in→any_text_eq, any_text_eq→in, text_eq-false,
}
use corvint_tasks.Wire.Code.{Code, ok, err, Result, ◌>>◌, refuse_if, duplicate_id}
use corvint_tasks.Ticket.Validate.{check_unique, xor}
use corvint_tasks.Ticket.Inventory.Unique.{IsDistinct}

true-ne-false : true ≡ false → ⊥
true-ne-false e = cc

-- The checks in turn succeed when each does.
pub both : (a b : Result (Unit {0})) → ((a >> b) ≡ ok tt) ↔ ((a ≡ ok tt) × (b ≡ ok tt))
both (ok tt) b = (λ h. (refl, h), λ h. h.1)
both (err e) b = (λ h. cc, λ h. cc)

pub both_iff {ℓ κ} :
    {A : Type ℓ} {B : Type κ} {a b : Result (Unit {0})}
    → (a ≡ ok tt) ↔ A
    → (b ≡ ok tt) ↔ B
    → ((a >> b) ≡ ok tt) ↔ (A × B)
both_iff {a = a} {b = b} p q =
    (λ h. let (x, y) = (both a b).0 h in (p.0 x, q.0 y), λ h. (both a b).1 (p.1 h.0, q.1 h.1))

pub refuse_if_iff : (b : Bool) (e : Code) → (refuse_if b e ≡ ok tt) ↔ (b ≡ false)
refuse_if_iff true e = (λ h. cc, λ h. cc)
refuse_if_iff false e = (λ h. refl, λ h. refl)

any-not-In : (k : Text) (seen : List Text) → any (text_eq k) seen ≡ false → In k seen → ⊥
any-not-In k seen h m = true-ne-false (sym (in→any_text_eq k seen m) ∙ h)

not-In-any : (k : Text) (seen : List Text) → (In k seen → ⊥) → any (text_eq k) seen ≡ false
not-In-any k seen out = elim (Bool-cases (any (text_eq k) seen)) [
  | inl there ↦ absurd (out (any_text_eq→in k seen there))
  | inr missing ↦ missing
]

All-at : (k : Text) (seen ks : List Text) → All (λ j. In j seen → ⊥) ks → In k ks → In k seen → ⊥
All-at k seen [] v m there = elim m [ ]
All-at k seen (j ∷ ks) v (inl e) there = v.0 (rw e at there)
All-at k seen (j ∷ ks) v (inr m) there = All-at k seen ks v.1 m there

All-weaken :
    (k : Text) (seen ks : List Text)
    → All (λ j. In j (k ∷ seen) → ⊥) ks
    → All (λ j. In j seen → ⊥) ks
All-weaken k seen [] v = tt
All-weaken k seen (j ∷ ks) v = (λ m. v.0 (inr m), All-weaken k seen ks v.1)

All-extend :
    (k : Text) (seen ks : List Text)
    → (In k ks → ⊥)
    → All (λ j. In j seen → ⊥) ks
    → All (λ j. In j (k ∷ seen) → ⊥) ks
All-extend k seen [] out v = tt
All-extend k seen (j ∷ ks) out v = (
  λ m. elim m [ inl e ↦ out (inl (sym e)) | inr there ↦ v.0 there ],
  All-extend k seen ks (λ m. out (inr m)) v.1,
)

-- Each key is seen once.
pub check_unique_lem :
    (seen ks : List Text)
    → (check_unique seen ks ≡ ok tt) ↔ (IsDistinct ks × All (λ k. In k seen → ⊥) ks)
unfolding check_unique
check_unique_lem seen [] = (λ h. (tt, tt), λ h. refl)
check_unique_lem seen (k ∷ ks) =
    let split = both (refuse_if (any (text_eq k) seen) duplicate_id) (check_unique (k ∷ seen) ks) in
    let rest = check_unique_lem (k ∷ seen) ks in
    (
      λ h.
          let (new, later) = split.0 h in
          let (distinct, apart) = rest.0 later in
          (
            (λ m. All-at k (k ∷ seen) ks apart m (inl refl), distinct),
            (any-not-In k seen ((refuse_if_iff _ _).0 new), All-weaken k seen ks apart),
          ),
      λ h. split.1 (
        (refuse_if_iff _ _).1 (not-In-any k seen h.1.0),
        rest.1 (h.0.1, All-extend k seen ks h.0.0 h.1.1),
      ),
    )

nothing_seen : (ks : List Text) → All (λ k. In k [] → ⊥) ks
nothing_seen [] = tt
nothing_seen (k ∷ ks) = (λ m. m, nothing_seen ks)

pub check_unique_iff : (ks : List Text) → (check_unique [] ks ≡ ok tt) ↔ IsDistinct ks
check_unique_iff ks =
    (λ h. ((check_unique_lem [] ks).0 h).0, λ d. (check_unique_lem [] ks).1 (d, nothing_seen ks))

pub xor_iff : (a b : Bool) (e : Code) → (refuse_if (xor a b) e ≡ ok tt) ↔ (a ≡ b)
xor_iff a b e = (λ h. ground arith, λ h. ground arith)

pub outside_iff : (s t : Text) (e : Code) → (refuse_if (not (text_eq s t)) e ≡ ok tt) ↔ (s ≡ t)
outside_iff s t e = (λ h. ground (arith, text_eq_iff s t), λ h. ground (arith, text_eq_iff s t))

pub own_iff : (s t : Text) (e : Code) → (refuse_if (text_eq s t) e ≡ ok tt) ↔ (s ≢ t)
own_iff s t e = (
  λ h. text_eq-false s t ((refuse_if_iff _ e).0 h),
  λ h. elim (Bool-cases (text_eq s t)) [
    | inl same ↦ absurd (h (text_eq→eq s t same))
    | inr other ↦ (refuse_if_iff _ e).1 other
  ],
)
