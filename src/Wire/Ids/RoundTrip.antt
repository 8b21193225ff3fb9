-- ===== src/Wire/Ids/RoundTrip.antt =====
-- Identifiers are read off their parts, and the parts spell the identifier.
use mathlib.Core.Path.{subst}
use corvint_tasks.Base.{
  ◌≡◌, ◌≢◌, refl, sym, ap, ◌∙◌, Bool, true, false, List, [], ◌∷◌, ◌++◌, arith, Bool-cases, inl, inr,
  ℕ, ◌==◌,
}
use corvint_tasks.Text.{Text, txt, text_eq, text_eq→eq, split, cons_head}
use corvint_tasks.Wire.Code.{ok, malformed, require, >>=-eq-ok}
use corvint_tasks.Wire.Limits.{max_identifier_bytes, max_local_token_bytes}
use corvint_tasks.Wire.Primitives.{parse_token}
use corvint_tasks.Wire.Ids.{TicketId, ticket_parts, check_id_length, parse_ticket_id}

-- The parts with the separator between them.
join : ℕ → List Text → Text
join b [] = []
join b (s ∷ []) = s
join b (s ∷ t ∷ ss) = s ++ (b ∷ join b (t ∷ ss))

split_some : (b : ℕ) (s : Text) → split b s ≢ []
unfolding split
split_some b [] e = cc
split_some b (c ∷ s) e = elim (Bool-cases (c == b)) [
  | inl sep ↦ nonempty (rw (sep, split) at e)
  | inr other ↦ head_some c (split b s) (rw (other, split) at e)
]
  where
    nonempty : {t : Text} {ts : List Text} → ◌≡◌ {A = List Text} (t ∷ ts) [] → ⊥
    nonempty e = cc

    head_some : (c : ℕ) (ts : List Text) → cons_head c ts ≡ [] → ⊥
    head_some c [] e = cc
    head_some c (t ∷ ts) e = cc

join-cons_head : (b c : ℕ) (ts : List Text) → join b (cons_head c ts) ≡ c ∷ join b ts
unfolding join
join-cons_head b c [] = refl
join-cons_head b c (t ∷ []) = refl
join-cons_head b c (t ∷ u ∷ ts) = refl

join-empty : (b : ℕ) (ts : List Text) → ts ≢ [] → join b ([] ∷ ts) ≡ b ∷ join b ts
unfolding join
join-empty b [] ne = absurd (ne refl)
join-empty b (t ∷ ts) ne = refl

join-split : (b : ℕ) (s : Text) → join b (split b s) ≡ s
unfolding split
join-split b [] = unfold join in refl
join-split b (c ∷ s) = elim (Bool-cases (c == b)) [
  | inl sep ↦
      let same : b ≡ c = ground arith in
      rw sep (
        join-empty b (split b s) (split_some b s)
        ∙ rw (join-split b s) (ap (λ (x : ℕ). x ∷ s) same))
  | inr other ↦ rw other (join-cons_head b c (split b s) ∙ rw (join-split b s) refl)
]

require-true : (b : Bool) → require b malformed ≡ ok tt → b ≡ true
require-true true h = refl
require-true false h = cc

-- The parts that a ticket identifier was read from.
pub record IsTicketId (s : Text) (id : TicketId) : Type 0 where
  pub raw : id.raw ≡ s
  pub spelled : s ≡ txt "ticket:" ++ (id.authority ++ (b':' ∷ (id.queue ++ (b':' ∷ id.local))))
  pub authority : parse_token id.authority max_identifier_bytes ≡ ok id.authority
  pub queue : parse_token id.queue max_identifier_bytes ≡ ok id.queue
  pub local : parse_token id.local max_local_token_bytes ≡ ok id.local

parse_token-eq : (s out : Text) (max : ℕ) → parse_token s max ≡ ok out → parse_token s max ≡ ok s
unfolding parse_token
parse_token-eq s out max h = ground arith

from_parts :
    (s : Text) (parts : List Text) (id : TicketId)
    → ticket_parts s parts ≡ ok id
    → join b':' parts ≡ s
    → IsTicketId s id
unfolding ticket_parts join
from_parts s (kind ∷ authority ∷ queue ∷ local ∷ []) id h e =
    let (u, named, h1) = >>=-eq-ok (require (text_eq kind (txt "ticket")) malformed) _ h in
    let (a, owner, h2) = >>=-eq-ok (parse_token authority max_identifier_bytes) _ h1 in
    let (q, line, h3) = >>=-eq-ok (parse_token queue max_identifier_bytes) _ h2 in
    let (l, own, h4) = >>=-eq-ok (parse_token local max_local_token_bytes) _ h3 in
    let made : record { raw = s; authority = authority; queue = queue; local = local } ≡ id = cc in
    let ticket = text_eq→eq kind (txt "ticket") (require-true _ named) in
    subst (IsTicketId s) made (record {
      raw = refl;
      spelled =
          sym e
          ∙ ap (λ (k : Text). k ++ (b':' ∷ (authority ++ (b':' ∷ (queue ++ (b':' ∷ local))))))
              ticket;
      authority = parse_token-eq authority a max_identifier_bytes owner;
      queue = parse_token-eq queue q max_identifier_bytes line;
      local = parse_token-eq local l max_local_token_bytes own;
    })
from_parts s [] id h e = cc
from_parts s (a ∷ []) id h e = cc
from_parts s (a ∷ b ∷ []) id h e = cc
from_parts s (a ∷ b ∷ c ∷ []) id h e = cc
from_parts s (a ∷ b ∷ c ∷ d ∷ x ∷ rest) id h e = cc

-- A string that ParseTicketID accepts is spelled by the parts of the identifier, each of which is a
-- token, and it is kept as the raw form.
pub parse_ticket_id-IsTicketId :
    (s : Text) (id : TicketId) → parse_ticket_id s ≡ ok id → IsTicketId s id
unfolding parse_ticket_id
parse_ticket_id-IsTicketId s id h =
    let (u, short, h1) = >>=-eq-ok (check_id_length s) _ h in
    from_parts s (split b':' s) id h1 (join-split b':' s)
