-- ===== src/Runtime/Queries.antt =====
-- runtime/core/src/query.js, `options` of runtime/core/src/query/options.js and of
-- connectors/storages.mongodb/src/translate/options.js: a query with its options.
use kookaburra.Prelude.{
  ℕ, String, Bool, not, ◌||◌, Option, none, some, List, map, nat_eq, ◌==◌, if◌then◌else◌, is_some,
}
use kookaburra.Result.{Result, ok, ◌>>=◌}
use kookaburra.Runtime.Criteria.{
  Value, Node, Properties, parse_criteria, parse_sort, parse_projection, rename, Filter, translate,
}

-- `toa.core.request.Query`; identifiers and versions are of the type `A` of values.
pub record RequestQuery (A : Type 0) : Type 0 where
  pub id : Option A
  pub version : Option A
  pub criteria : Option String
  pub omit : Option ℕ
  pub limit : Option ℕ
  pub sort : Option (List String)
  pub projection : Option (List String)

pub record Options : Type 0 where
  pub omit : Option ℕ
  pub limit : Option ℕ
  pub sort : Option (List (String × String))
  pub projection : Option (List String)

-- `toa.core.storages.Query` with its options
pub record StorageQuery (A : Type 0) : Type 0 where
  pub id : Option A
  pub version : Option A
  pub criteria : Option (Node A)
  pub options : Option Options

-- A value that may be missing
abbrev pub if_given : {A B : Type 0} → (A → Result B) → Option A → Result (Option B)
if_given f none = ok none
if_given f (some a) = do b ← f a; ok (some b)

module _ {A : Type 0} where
  -- `options` of query/options.js
  unfoldable pub parse_options : Properties → RequestQuery A → Result Options
  unfolding parse_sort parse_projection
  parse_options properties query = do
    sort ← if_given (parse_sort properties) query.sort
    projection ← if_given (parse_projection properties) query.projection
    ok (record { omit = query.omit; limit = query.limit; sort = sort; projection = projection })

  -- `empty(options)`
  abbrev pub lacks_options : RequestQuery A → Bool
  lacks_options query =
      not (
        is_some query.omit || is_some query.limit || is_some query.sort || is_some query.projection)

  -- `Query.parse`; the options come before the criteria.
  unfoldable pub parse_request :
      (String → Value A → Value A)
      → (String → Result (Node A))
      → Properties
      → RequestQuery A
      → Result (StorageQuery A)
  unfolding parse_options parse_criteria
  parse_request coerce_value parse properties query = do
    options ←
        (if lacks_options query
          then ok none
          else (do options ← parse_options properties query; ok (some options)))
    criteria ← if_given (parse_criteria coerce_value parse properties) query.criteria
    ok (record { id = query.id; version = query.version; criteria = criteria; options = options })

-- `DIRECTIONS`
pub data Direction : Type 0 where
  ascending descending no_direction : Direction

abbrev pub direction_of : String → Direction
direction_of direction =
    if direction == "asc"
    then ascending
    else if direction == "desc"
    then descending
    else no_direction

pub record FindOptions : Type 0 where
  pub skip : Option ℕ
  pub limit : Option ℕ
  pub sort : Option (List (String × Direction))
  pub projection : Option (List String)

-- A number that counts as true
abbrev pub positive : Option ℕ → Option ℕ
positive none = none
positive (some n) = if nat_eq n 0 then none else some n

abbrev pub map_given : {A B : Type 0} → (A → B) → Option A → Option B
map_given f none = none
map_given f (some a) = some (f a)

-- `options` of translate/options.js; a projection is its keys.
unfoldable pub translate_options : Options → FindOptions
unfolding rename
translate_options options = record {
  skip = positive options.omit;
  limit = positive options.limit;
  sort = map_given (map (λ s. (rename s.0, direction_of s.1))) options.sort;
  projection = map_given (map rename) options.projection;
}

-- `translate` with the options
unfoldable pub translate_query :
    {A : Type 0} → StorageQuery A → Result (Filter A × Option FindOptions)
unfolding translate translate_options
translate_query query = do
  filter ← translate query.criteria query.id query.version
  ok (filter, map_given translate_options query.options)
