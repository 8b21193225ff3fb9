-- ===== src/Wire/Value.antt =====
-- internal/wire/value.go: the JSON values of taskman documents.
use corvint_tasks.Base.{Bool, Option, none, some, List, [], ◌∷◌, if◌then◌else◌}
use corvint_tasks.Text.{Text, text_eq}

-- An object keeps its members in the order in which they were first set.
mutual
  pub data Value : Type 0 where
    null : Value
    bool : Bool → Value
    str : Text → Value
    arr : Values → Value
    obj : Members → Value

  pub data Values : Type 0 where
    nil : Values
    cons : Value → Values → Values

  pub data Members : Type 0 where
    end : Members
    member : Text → Value → Members → Members

-- Object.Set: a member that is there keeps its place
unfoldable pub set : Members → Text → Value → Members
set end k v = member k v end
set (member j w ms) k v = if text_eq j k then member j v ms else member j w (set ms k v)

-- Object.Get
unfoldable pub get : Members → Text → Option Value
get end k = none
get (member j w ms) k = if text_eq j k then some w else get ms k

-- Array
unfoldable pub array : List Value → Value
array vs = arr (values vs)
  where
    values : List Value → Values
    values [] = nil
    values (v ∷ vs) = cons v (values vs)

-- StringOrNull
abbrev pub string_or_null : Option Text → Value
string_or_null none = null
string_or_null (some s) = str s

-- An object built by a chain of Set.
set_all : Members → List (Text × Value) → Members
unfolding set
set_all ms [] = ms
set_all ms ((k, v) ∷ rest) = set_all (set ms k v) rest

unfoldable pub object : List (Text × Value) → Value
unfolding set_all
object fields = obj (set_all end fields)
