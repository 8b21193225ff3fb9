-- ===== src/Wire/Parse.antt =====
-- internal/wire/parse.go: the decoding of a document. The recursion of the source is on fuel: four
-- units for each byte that is left are enough.
pub mod Shape
pub mod Returns
pub mod Accepts
pub mod Canonical
pub mod Reads
pub mod RoundTrip
pub mod WellFormed
pub mod Order
use corvint_tasks.Base.{
  ℕ, zero, suc, ◌+◌, ◌-◌, ◌*◌, Bool, true, false, not, ◌&&◌, ◌||◌, List, [], ◌∷◌, ltb, leb, ◌==◌,
  if◌then◌else◌, length, is_some, none, some,
}
use corvint_tasks.Text.{Text, txt, text_eq, text_ltb, has_prefix, ends_with_byte, drop_last}
use corvint_tasks.Wire.Code.{Code, malformed, limit_exceeded}
use corvint_tasks.Wire.Limits.{max_json_depth, max_json_array_elements, max_json_nodes}
use corvint_tasks.Wire.Utf8.{valid_utf8}
use corvint_tasks.Wire.Value.{Value, Values, Members, nil, cons, end, get, set}
use corvint_tasks.Wire.Encode.{encode}
use corvint_tasks.Wire.Scan.{Options, Parser, next_is, advance, str}
use corvint_tasks.Wire.Parsed.{Parsed, out_of_fuel, failed, parsed, ◌>>=◌, ◌>>◌, expect}

-- The number of the elements of an array.
unfoldable pub count : Values → ℕ
count nil = 0
count (cons v vs) = suc (count vs)

-- append
unfoldable pub snoc : Values → Value → Values
snoc nil v = cons v nil
snoc (cons w vs) v = cons w (snoc vs v)

-- node
unfoldable pub node : Options → Parser → Parsed Parser
node o p =
    if ltb o.max_nodes (suc p.nodes)
    then failed limit_exceeded
    else parsed (record p { nodes = suc p.nodes })

-- enter, and the step over the opening bracket
unfoldable pub enter : Parser → Parsed Parser
enter p =
    if ltb max_json_depth (suc p.depth)
    then failed limit_exceeded
    else parsed (record (advance 1 p) { depth = suc p.depth })

-- The step over a closing bracket.
abbrev pub leave : Parser → Parser
leave p = record (advance 1 p) { depth = p.depth - 1 }

-- The switch of value on the next byte.
pub data Start : Type 0 where
  object_start array_start string_start true_start false_start null_start no_start : Start

unfoldable pub start : Text → Start
start [] = no_start
start (c ∷ s) =
    if c == b'{'
    then object_start
    else if c == b'['
    then array_start
    else if c == 34
    then string_start
    else if c == b't'
    then true_start
    else if c == b'f'
    then false_start
    else if c == b'n'
    then null_start
    else no_start

-- literal
unfoldable pub literal : Text → Value → Parser → Parsed (Value × Parser)
literal lit v p = do expect (has_prefix p.rest lit) malformed; parsed (v, advance (length lit) p)

-- The switch behind an element or a member.
pub data After : Type 0 where
  comma closing unexpected : After

unfoldable pub after : ℕ → Text → After
after bracket [] = unexpected
after bracket (c ∷ s) = if c == b',' then comma else if c == bracket then closing else unexpected

-- The bound of the array that starts, at the depth inside it.
unfoldable pub array_bound : Options → ℕ → Bool → ℕ
array_bound o depth wide = if wide && depth == 2 then o.wide_array_max else max_json_array_elements

-- Does the value of this member, at the depth of its object, take the wide bound?
unfoldable pub is_wide : Options → ℕ → Text → Bool
is_wide o depth key =
    depth == 1 && (not (text_eq o.wide_array_key []) && text_eq key o.wide_array_key)

-- The part of a member up to its value.
unfoldable pub member_key : Options → Members → Parser → Parsed (Text × Parser)
unfolding is_wide str get
member_key o ms p = do
  expect (next_is 34 p.rest) malformed
  (key, q) ← str p
  expect (not (is_some (get ms key))) malformed
  expect (next_is b':' q.rest) malformed
  parsed (key, record (advance 1 q) { wide = is_wide o q.depth key })

unfoldable mutual
  unfolding node enter start literal after array_bound member_key str count snoc set

  pub any_value : ℕ → Options → Parser → Parsed (Value × Parser)
  any_value zero o p = out_of_fuel
  any_value (suc fuel) o p = do
    q ← node o p
    elim (start q.rest) [
      | object_start ↦ any_object fuel o q
      | array_start ↦ any_array fuel o q
      | string_start ↦ str q >>= λ (s, q'). parsed (Value.str s, q')
      | true_start ↦ literal (txt "true") (Value.bool true) q
      | false_start ↦ literal (txt "false") (Value.bool false) q
      | null_start ↦ literal (txt "null") Value.null q
      | no_start ↦ failed malformed
    ]

  pub any_object : ℕ → Options → Parser → Parsed (Value × Parser)
  any_object zero o p = out_of_fuel
  any_object (suc fuel) o p = do
    q ← enter p
    elim (next_is b'}' q.rest) [
      | true ↦ parsed (Value.obj end, leave q)
      | false ↦ members fuel o end q
    ]

  -- The loop of object.
  pub members : ℕ → Options → Members → Parser → Parsed (Value × Parser)
  members zero o ms p = out_of_fuel
  members (suc fuel) o ms p = do
    (key, q) ← member_key o ms p
    (v, q') ← any_value fuel o q
    let next = record q' { wide = false }
    elim (after b'}' next.rest) [
      | comma ↦ members fuel o (set ms key v) (advance 1 next)
      | closing ↦ parsed (Value.obj (set ms key v), leave next)
      | unexpected ↦ failed malformed
    ]

  pub any_array : ℕ → Options → Parser → Parsed (Value × Parser)
  any_array zero o p = out_of_fuel
  any_array (suc fuel) o p = do
    q ← enter p
    let bound = array_bound o q.depth q.wide
    let inside = record q { wide = false }
    elim (next_is b']' inside.rest) [
      | true ↦ parsed (Value.arr nil, leave inside)
      | false ↦ elements fuel o bound nil inside
    ]

  -- The loop of array.
  pub elements : ℕ → Options → ℕ → Values → Parser → Parsed (Value × Parser)
  elements zero o bound vs p = out_of_fuel
  elements (suc fuel) o bound vs p = do
    (v, q) ← any_value fuel o p
    expect (not (ltb bound (count (snoc vs v)))) limit_exceeded
    elim (after b']' q.rest) [
      | comma ↦ elements fuel o bound (snoc vs v) (advance 1 q)
      | closing ↦ parsed (Value.arr (snoc vs v), leave q)
      | unexpected ↦ failed malformed
    ]

-- The defaults that ParseWith sets.
unfoldable pub set_defaults : Options → Options
set_defaults o =
    let wide =
      if o.wide_array_max == 0
      then record o { wide_array_key = []; wide_array_max = max_json_array_elements }
      else o in
    if wide.max_nodes == 0 then record wide { max_nodes = max_json_nodes } else wide

abbrev pub byte_order_mark : Text
byte_order_mark = 0xEF ∷ 0xBB ∷ 0xBF ∷ []

-- &parser{data: body, opts: opts}
abbrev pub begin : Text → Parser
begin body = record { rest = body; depth = 0; nodes = 0; wide = false }

-- Fuel that is enough for a text.
abbrev pub fuel_for : Text → ℕ
fuel_for s = 4 * length s + 1

-- ParseWith; the options are numbers that are not negative, zero for the default
unfoldable pub parse_with : Text → Options → Parsed Value
unfolding set_defaults valid_utf8 any_value encode text_eq text_ltb has_prefix ends_with_byte
    drop_last
parse_with text o = do
  let options = set_defaults o
  expect (not (text_eq text [])) malformed
  expect (valid_utf8 text) malformed
  expect (not (has_prefix text byte_order_mark)) malformed
  expect (ends_with_byte 10 text) malformed
  let body = drop_last text
  (v, p) ← any_value (fuel_for body) options (begin body)
  expect (text_eq p.rest []) malformed
  expect (text_eq (encode v) body) malformed
  parsed v

-- Parse
unfoldable pub parse : Text → Parsed Value
unfolding parse_with
parse text = parse_with text (record { wide_array_key = []; wide_array_max = 0; max_nodes = 0 })
