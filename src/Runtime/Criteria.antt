-- ===== src/Runtime/Criteria.antt =====
-- runtime/core/src/query.js and query/{criteria,options}.js, and their translation for MongoDB in
-- connectors/storages.mongodb/src/translate.js and translate/{criteria,options,rename}.js.
-- The parser of RSQL and the coercion of a value (`Number.parseFloat` and the like) are parameters.
pub mod Meaning
pub mod Keys
use kookaburra.Prelude.{
  ℕ, String, Bool, true, false, not, ◌&&◌, ◌||◌, Option, none, some, List, [], ◌∷◌, ◌++◌, ◌==◌,
  if◌then◌else◌, includes, or_else, map, is_some,
}
use kookaburra.Result.{Result, ok, err, ◌>>=◌, exception, fault}
use kookaburra.Text.{◌+++◌, split_on}
use kookaburra.Dict.{lookup, insert}

-- The value of a comparison, of any type `A` of atoms
pub data Value (A : Type 0) : Type 0 where
  atom : A → Value A
  atoms : List A → Value A

-- A node of the syntax tree
pub data Node (A : Type 0) : Type 0 where
  logic : String → Node A → Node A → Node A
  comparison : String → Node A → Node A → Node A
  selector : String → Node A
  literal : Value A → Node A

abbrev pub query_syntax : ℕ
query_syntax = 221

-- The properties of an entity by name, with the types of values
abbrev pub Properties : Type 0
Properties = List (String × String)

abbrev pub refused : {B : Type 0} → String → Result B
refused message = err (exception query_syntax message)

module _ {A : Type 0} (coerce_value : String → Value A → Value A) where
  -- A comparison of a selector and a value, in `coerce`
  unfoldable pub coerce_literal : Properties → String → Value A → Result (Value A)
  coerce_literal properties name value = elim (lookup name properties) [
    | none ↦ refused ("Criteria selector '" +++ name +++ "' is not defined")
    | some kind ↦ ok (coerce_value kind value)
  ]

  -- `coerce`
  unfoldable pub coerce : Properties → Node A → Result (Node A)
  unfolding coerce_literal
  coerce properties (comparison operator (selector name) (literal value)) = do
    coerced ← coerce_literal properties name value
    ok (comparison operator (selector name) (literal coerced))
  coerce properties (logic operator left right) = do
    l ← coerce properties left
    r ← coerce properties right
    ok (logic operator l r)
  coerce properties (comparison operator left right) = do
    l ← coerce properties left
    r ← coerce properties right
    ok (comparison operator l r)
  coerce properties node = ok node

  -- `criteria` of criteria.js, given the parser
  unfoldable pub parse_criteria : (String → Result (Node A)) → Properties → String → Result (Node A)
  unfolding coerce
  parse_criteria parse properties text = do node ← parse text; coerce properties node

-- `sort` of options.js: `property:direction`, the direction `asc` if it is missing or empty
unfoldable pub sorting_of : String → String × String
unfolding split_on
sorting_of text = elim (split_on b':' text) [
  | [] ↦ (text, "asc")
  | property ∷ [] ↦ (property, "asc")
  | property ∷ direction ∷ _ ↦ (property, if direction == "" then "asc" else direction)
]

unfoldable pub parse_sort : Properties → List String → Result (List (String × String))
unfolding sorting_of
parse_sort properties [] = ok []
parse_sort properties (text ∷ texts) = elim (lookup (sorting_of text).0 properties) [
  | none ↦ refused ("Sort property '" +++ (sorting_of text).0 +++ "' is not defined")
  | some kind ↦ do rest ← parse_sort properties texts; ok (sorting_of text ∷ rest)
]

-- The loop of `projection` that adds what is always there
unfoldable pub add_missing : List String → List String → List String
add_missing projection [] = projection
add_missing projection (property ∷ rest) =
    add_missing (if includes projection property then projection else projection ++ property ∷ [])
      rest

unfoldable pub check_projection : Properties → List String → Result (List String)
check_projection properties [] = ok []
check_projection properties (property ∷ rest) = elim (lookup property properties) [
  | none ↦ refused ("Projection property '" +++ property +++ "' is not defined")
  | some kind ↦ do others ← check_projection properties rest; ok (property ∷ others)
]

abbrev pub system_properties : List String
system_properties = "_version" ∷ "_created" ∷ "_updated" ∷ "_deleted" ∷ []

-- `projection` of options.js
unfoldable pub parse_projection : Properties → List String → Result (List String)
unfolding check_projection add_missing
parse_projection properties projection = do
  checked ← check_projection properties projection
  ok (add_missing checked system_properties)

-- `rename`
unfoldable pub rename : String → String
rename name = if name == "id" then "_id" else name

-- `OPERATORS.LOGIC`, a key of the filter that is not known being `undefined`
unfoldable pub logic_key : String → String
logic_key operator =
    if includes ("and" ∷ ";" ∷ []) operator
    then "$and"
    else if includes ("or" ∷ "," ∷ []) operator
    then "$or"
    else "undefined"

-- `OPERATORS.COMPARISON`
abbrev pub comparisons : List (String × String)
comparisons =
    ("==", "$eq")
    ∷ (">", "$gt")
    ∷ (">=", "$gte")
    ∷ ("=in=", "$in")
    ∷ ("<", "$lt")
    ∷ ("<=", "$lte")
    ∷ ("!=", "$ne")
    ∷ ("=out=", "$nin")
    ∷ []

mutual
  -- A filter of MongoDB: conditions by key, all of which have to hold
  pub data Filter (A : Type 0) : Type 0 where
    all_of : Filter A
    also : String → Condition A → Filter A → Filter A

  pub data Condition (A : Type 0) : Type 0 where
    compares : String → Value A → Condition A
    exactly : A → Condition A
    nothing : Condition A
    both : Filter A → Filter A → Condition A

module _ {A : Type 0} where
  -- `criteria` of translate/criteria.js; only the operands of a comparison are no filters.
  unfoldable pub translate_node : Node A → Result (Filter A)
  unfolding logic_key rename lookup
  translate_node (logic operator left right) = do
    l ← translate_node left
    r ← translate_node right
    ok (also (logic_key operator) (both l r) all_of)
  translate_node (comparison operator (selector name) (literal value)) =
      elim (lookup operator comparisons) [
        | none ↦ err (fault ("AST parse error: unknown operator '" +++ operator +++ "'"))
        | some key ↦ ok (also (rename name) (compares key value) all_of)
      ]
  translate_node node = err (fault "AST parse error")

  -- `criteria[key] = condition`
  unfoldable pub put : String → Condition A → Filter A → Filter A
  put key condition all_of = also key condition all_of
  put key condition (also k c rest) =
      if k == key then also key condition rest else also k c (put key condition rest)

  -- `if (query?.id !== undefined) result.criteria._id = query.id`, and so for the version
  unfoldable pub with_key : String → Option A → Filter A → Filter A
  unfolding put
  with_key key none filter = filter
  with_key key (some a) filter = put key (exactly a) filter

  -- `translate` up to the options, for a query's criteria, identifier and version
  unfoldable pub translate : Option (Node A) → Option A → Option A → Result (Filter A)
  unfolding translate_node with_key
  translate node id version = do
    base ← elim node as (λ _. Result (Filter A)) [ none ↦ ok all_of | some n ↦ translate_node n ]
    ok (with_key "_version" version (with_key "_id" id base))

  -- The filter of `Storage.find`, whose records are not deleted
  unfoldable pub find_filter : Option (Node A) → Option A → Option A → Result (Filter A)
  unfolding translate
  find_filter node id version = do
    filter ← translate node id version
    ok (put "_deleted" nothing filter)
