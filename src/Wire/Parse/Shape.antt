-- ===== src/Wire/Parse/Shape.antt =====
-- The decode bounds that internal/wire/parse.go enforces, said of the value alone.
use corvint_tasks.Base.{
  ℕ, suc, ◌+◌, ◌≤◌, ◌≡◌, refl, Bool, true, false, none, arith, Bool-cases, inl, inr,
}
use corvint_tasks.Text.{Text, text_eq, text_eq_iff}
use corvint_tasks.Wire.Code.{ok}
use corvint_tasks.Wire.Limits.{max_json_depth}
use corvint_tasks.Wire.Utf8.{check_hostile}
use corvint_tasks.Wire.Value.{
  Value, Values, Members, null, bool, str, arr, obj, nil, cons, end, member, get, set,
}
use corvint_tasks.Wire.Scan.{Options}
use corvint_tasks.Wire.Parse.{count, snoc, array_bound, is_wide}

-- The nodes of a value: each value in it, but not the keys.
unfoldable mutual
  pub size : Value → ℕ
  size (arr vs) = suc (sizes vs)
  size (obj ms) = suc (member_sizes ms)
  size null = 1
  size (bool b) = 1
  size (str s) = 1

  pub sizes : Values → ℕ
  sizes nil = 0
  sizes (cons v vs) = size v + sizes vs

  pub member_sizes : Members → ℕ
  member_sizes end = 0
  member_sizes (member k v ms) = size v + member_sizes ms

-- A value inside `depth` brackets is within the bounds of depth and of elements, its texts have no
-- hostile code point, and its objects no key twice. `wide` says whether it is the value of the wide
-- key of the outermost object.
unfoldable mutual
  pub IsWithin : Options → ℕ → Bool → Value → Type 0
  IsWithin o depth wide null = Unit
  IsWithin o depth wide (bool b) = Unit
  IsWithin o depth wide (str s) = check_hostile s true ≡ ok tt
  IsWithin o depth wide (arr vs) =
      (suc depth ≤ max_json_depth)
      × (count vs ≤ array_bound o (suc depth) wide)
      × AllWithin o (suc depth) vs
  IsWithin o depth wide (obj ms) = (suc depth ≤ max_json_depth) × MembersWithin o (suc depth) ms

  pub AllWithin : Options → ℕ → Values → Type 0
  AllWithin o depth nil = Unit
  AllWithin o depth (cons v vs) = IsWithin o depth false v × AllWithin o depth vs

  pub MembersWithin : Options → ℕ → Members → Type 0
  MembersWithin o depth end = Unit
  MembersWithin o depth (member k v ms) =
      (check_hostile k true ≡ ok tt)
      × (get ms k ≡ none)
      × IsWithin o depth (is_wide o depth k) v
      × MembersWithin o depth ms

pub count-snoc : (vs : Values) (v : Value) → count (snoc vs v) ≡ suc (count vs)
unfolding count snoc
count-snoc nil v = refl
count-snoc (cons w vs) v = omega (arith, count-snoc vs v)

pub sizes-snoc : (vs : Values) (v : Value) → sizes (snoc vs v) ≡ sizes vs + size v
unfolding sizes snoc
sizes-snoc nil v = omega arith
sizes-snoc (cons w vs) v = omega (arith, sizes-snoc vs v)

pub AllWithin-snoc :
    (o : Options) (depth : ℕ) (vs : Values) (v : Value)
    → AllWithin o depth vs
    → IsWithin o depth false v
    → AllWithin o depth (snoc vs v)
unfolding AllWithin snoc
AllWithin-snoc o depth nil v all here = (here, tt)
AllWithin-snoc o depth (cons w vs) v (first, all) here =
    (first, AllWithin-snoc o depth vs v all here)

-- The key of the first member is another, and the other members have no member of that key.
pub get_tail :
    (j k : Text) (w : Value) (ms : Members)
    → get (member j w ms) k ≡ none
    → (text_eq j k ≡ false) × (get ms k ≡ none)
unfolding get
get_tail j k w ms h = elim (Bool-cases (text_eq j k)) [
  | inl same ↦ absurd (ground arith)
  | inr other ↦ (other, rw (other) at h)
]

pub member_sizes-set :
    (ms : Members) (k : Text) (v : Value)
    → get ms k ≡ none
    → member_sizes (set ms k v) ≡ member_sizes ms + size v
unfolding member_sizes set
member_sizes-set end k v h = omega arith
member_sizes-set (member j w ms) k v h =
    let (other, rest) = get_tail j k w ms h in
    rw other (omega (arith, member_sizes-set ms k v rest))

-- A member of another key is set without effect on a key that is not there.
pub get-set_other :
    (ms : Members) (j k : Text) (v : Value)
    → text_eq k j ≡ false
    → get ms j ≡ none
    → get (set ms k v) j ≡ none
unfolding get set
get-set_other end j k v other h = rw other refl
get-set_other (member i w ms) j k v other h =
    let (differ, rest) = get_tail i j w ms h in
    elim (Bool-cases (text_eq i k)) [
      | inl same ↦ rw (same, differ) rest
      | inr new ↦ rw (new, differ) (get-set_other ms j k v other rest)
    ]

pub text_eq_swap : (s t : Text) → text_eq s t ≡ false → text_eq t s ≡ false
text_eq_swap s t h = ground (arith, text_eq_iff s t, text_eq_iff t s)

pub MembersWithin-set :
    (o : Options) (depth : ℕ) (ms : Members) (k : Text) (v : Value)
    → get ms k ≡ none
    → MembersWithin o depth ms
    → check_hostile k true ≡ ok tt
    → IsWithin o depth (is_wide o depth k) v
    → MembersWithin o depth (set ms k v)
unfolding MembersWithin set get
MembersWithin-set o depth end k v new all clean here = (clean, refl, here, tt)
MembersWithin-set o depth (member j w ms) k v new (clean', fresh, first, all) clean here =
    let (other, rest) = get_tail j k w ms new in
    rw other (
      clean',
      get-set_other ms j k v (text_eq_swap j k other) fresh,
      first,
      MembersWithin-set o depth ms k v rest all clean here,
    )
