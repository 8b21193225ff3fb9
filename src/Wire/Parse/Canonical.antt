-- ===== src/Wire/Parse/Canonical.antt =====
-- Values whose objects hold their members in the order of internal/wire/encode.go, and the encoding of
-- such values.
use corvint_tasks.Base.{◌≡◌, refl, sym, ap, ◌∙◌, true, false, none, [], ◌∷◌, ◌++◌}
use corvint_tasks.Text.{Text, text_ltb, text_ltb_asym}
use corvint_tasks.Wire.Value.{
  Value, Values, Members, null, bool, str, arr, obj, nil, cons, end, member, get, set,
}
use corvint_tasks.Wire.Encode.{
  encode, encode_members, encode_string, insert_key, sort_keys, join_members,
}
use corvint_tasks.Wire.Scan.{next_is}
use corvint_tasks.Wire.Parse.{snoc}
use corvint_tasks.Wire.Parse.Shape.{get_tail, text_eq_swap, get-set_other}

-- A key is below the first key of an object.
abbrev pub IsBelow : Text → Members → Type 0
IsBelow k end = Unit
IsBelow k (member j w ms) = text_ltb k j ≡ true

-- The keys of every object of a value ascend.
unfoldable mutual
  pub IsOrdered : Value → Type 0
  IsOrdered null = Unit
  IsOrdered (bool b) = Unit
  IsOrdered (str s) = Unit
  IsOrdered (arr vs) = AllOrdered vs
  IsOrdered (obj ms) = MembersOrdered ms

  pub AllOrdered : Values → Type 0
  AllOrdered nil = Unit
  AllOrdered (cons v vs) = IsOrdered v × AllOrdered vs

  pub MembersOrdered : Members → Type 0
  MembersOrdered end = Unit
  MembersOrdered (member k v ms) = IsBelow k ms × IsOrdered v × MembersOrdered ms

pub sort_keys-encode_members :
    (ms : Members) → MembersOrdered ms → sort_keys (encode_members ms) ≡ encode_members ms
unfolding sort_keys encode_members MembersOrdered insert_key
sort_keys-encode_members end h = refl
sort_keys-encode_members (member k v ms) (below, _, rest) =
    rw (sort_keys-encode_members ms rest) (first ms below)
  where
    first :
        (ms : Members)
        → IsBelow k ms
        → insert_key (k, encode v) (encode_members ms) ≡ (k, encode v) ∷ encode_members ms
    first end b = refl
    first (member j w ms) b = rw (text_ltb_asym k j b) refl

-- The members of an object whose keys ascend, as they are written.
unfoldable pub encode_ordered : Members → Text
unfolding encode_string encode
encode_ordered end = []
encode_ordered (member k v end) = encode_string k ++ (b':' ∷ encode v)
encode_ordered (member k v (member j w ms)) =
    encode_string k ++ (b':' ∷ (encode v ++ (b',' ∷ encode_ordered (member j w ms))))

join_members-encode_ordered : (ms : Members) → join_members (encode_members ms) ≡ encode_ordered ms
unfolding join_members encode_members encode_ordered
join_members-encode_ordered end = refl
join_members-encode_ordered (member k v end) = refl
join_members-encode_ordered (member k v (member j w ms)) =
    ap (λ t. encode_string k ++ (b':' ∷ (encode v ++ (b',' ∷ t))))
      (join_members-encode_ordered (member j w ms))

pub encode-obj :
    (ms : Members) → MembersOrdered ms → encode (obj ms) ≡ b'{' ∷ (encode_ordered ms ++ b'}' ∷ [])
unfolding encode
encode-obj ms h =
    ap (λ t. b'{' ∷ (t ++ b'}' ∷ []))
      (ap join_members (sort_keys-encode_members ms h) ∙ join_members-encode_ordered ms)

-- No value starts with the bracket that closes an array.
pub encode_opens : (v : Value) (r : Text) → next_is b']' (encode v ++ r) ≡ false
unfolding encode encode_string
encode_opens null r = refl
encode_opens (bool true) r = refl
encode_opens (bool false) r = refl
encode_opens (str s) r = refl
encode_opens (arr vs) r = refl
encode_opens (obj ms) r = refl

-- The elements of an array that is read, behind those that were read before.
unfoldable pub extend : Values → Values → Values
unfolding snoc
extend before nil = before
extend before (cons v vs) = extend (snoc before v) vs

glue : Values → Values → Values
glue nil vs = vs
glue (cons v us) vs = cons v (glue us vs)

glue-snoc : (us : Values) (v : Value) (vs : Values) → glue (snoc us v) vs ≡ glue us (cons v vs)
unfolding glue snoc
glue-snoc nil v vs = refl
glue-snoc (cons u us) v vs = ap (cons u) (glue-snoc us v vs)

glue_nil : (us : Values) → glue us nil ≡ us
unfolding glue
glue_nil nil = refl
glue_nil (cons u us) = ap (cons u) (glue_nil us)

extend-glue : (us vs : Values) → extend us vs ≡ glue us vs
unfolding extend glue
extend-glue us nil = sym (glue_nil us)
extend-glue us (cons v vs) = extend-glue (snoc us v) vs ∙ glue-snoc us v vs

pub extend_nil : (vs : Values) → extend nil vs ≡ vs
unfolding glue
extend_nil vs = extend-glue nil vs

-- The members of an object that is read, behind those that were read before.
unfoldable pub set_members : Members → Members → Members
unfolding set
set_members before end = before
set_members before (member k v ms) = set_members (set before k v) ms

-- No key is among those of other members.
unfoldable pub AllFresh : Members → Members → Type 0
AllFresh before end = Unit
AllFresh before (member k v ms) = (get before k ≡ none) × AllFresh before ms

pub AllFresh-set :
    (before ms : Members) (k : Text) (v : Value)
    → AllFresh before ms
    → get ms k ≡ none
    → AllFresh (set before k v) ms
unfolding AllFresh
AllFresh-set before end k v all new = tt
AllFresh-set before (member j w ms) k v (here, all) new =
    let (other, rest) = get_tail j k w ms new in
    (get-set_other before j k v (text_eq_swap j k other) here, AllFresh-set before ms k v all rest)

-- No key stands twice.
unfoldable pub IsDistinct : Members → Type 0
IsDistinct end = Unit
IsDistinct (member k v ms) = (get ms k ≡ none) × IsDistinct ms

link : Members → Members → Members
link end ms = ms
link (member k v ls) ms = member k v (link ls ms)

link_end : (ls : Members) → link ls end ≡ ls
unfolding link
link_end end = refl
link_end (member k v ls) = ap (member k v) (link_end ls)

link-set :
    (ls : Members) (k : Text) (v : Value) (ms : Members)
    → get ls k ≡ none
    → link (set ls k v) ms ≡ link ls (member k v ms)
unfolding link set
link-set end k v ms new = refl
link-set (member j w ls) k v ms new =
    let (other, rest) = get_tail j k w ls new in
    rw other (ap (member j w) (link-set ls k v ms rest))

set_members-link :
    (ls ms : Members) → AllFresh ls ms → IsDistinct ms → set_members ls ms ≡ link ls ms
unfolding set_members AllFresh IsDistinct link
set_members-link ls end fresh distinct = sym (link_end ls)
set_members-link ls (member k v ms) (here, fresh) (new, distinct) =
    set_members-link (set ls k v) ms (AllFresh-set ls ms k v fresh new) distinct
    ∙ link-set ls k v ms here

pub AllFresh-end : (ms : Members) → AllFresh end ms
unfolding AllFresh get
AllFresh-end end = tt
AllFresh-end (member k v ms) = (refl, AllFresh-end ms)

pub set_members_end : (ms : Members) → IsDistinct ms → set_members end ms ≡ ms
unfolding link
set_members_end ms distinct = set_members-link end ms (AllFresh-end ms) distinct
