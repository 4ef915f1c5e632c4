-- ===== src/Query.antt =====
-- extensions/exposition/source/Query.ts: the query of a method, as its mapping declares it, and
-- the query string of a request. The schema of query strings (`schemas.querystring.fit`) and
-- JavaScript's `parseInt` are parameters.
pub mod Criteria
pub mod Fits
use Prim.Native.Char.{Char, code}
use Prim.Native.String.{[], ◌∷◌}
use mathlib.Core.Option
use kookaburra.Prelude.{
  ℕ, String, Bool, true, false, not, ◌&&◌, ◌||◌, Option, none, some, List, [], ◌∷◌, ◌++◌, leb, ltb,
  nat_eq, ◌==◌, if◌then◌else◌, map, includes, is_some, or_else,
}
use kookaburra.Result.{Result, ok, err, ◌>>=◌, bad_request, fault}
use kookaburra.Text.{◌+++◌, split_on, join}
use kookaburra.Dict.{lookup, keys}
use kookaburra.Rtd.Node.{Params}
use kookaburra.QuerySyntax.{
  Range, SyntaxQuery, queryable, Operator, comma, semicolon, operator_text, Query, before_semicolon,
  behind_operator, trim, new_query,
}

-- `http.Query`: the texts of a query string, and the version that the endpoint adds
pub record HttpQuery : Type 0 where
  pub entries : List (String × String)
  pub version : Option ℕ

-- What `parseInt` returns
pub data Number : Type 0 where
  nan : Number
  negative : ℕ → Number
  natural : ℕ → Number

-- `core.Query`
pub record CoreQuery : Type 0 where
  pub id : Option String
  pub criteria : Option String
  pub sort : Option (List String)
  pub omit : Option Number
  pub limit : Option Number
  pub version : Option ℕ
  pub version_text : Option String

pub record QueryString : Type 0 where
  pub query : Option CoreQuery
  pub parameters : Option (List (String × String))

-- The loop of `split`: the entries whose keys are declared, and the others
unfoldable pub take_declared :
    List String → List (String × String) → List (String × String) × List (String × String)
take_declared declared [] = ([], [])
take_declared declared ((key, value) ∷ entries) =
    let (taken, left) = take_declared declared entries in
    if includes declared key then ((key, value) ∷ taken, left) else (taken, (key, value) ∷ left)

abbrev pub non_empty : List (String × String) → Option (List (String × String))
non_empty [] = none
non_empty (entry ∷ entries) = some (entry ∷ entries)

-- `Query.split`; `version` counts among the keys that are not allowed.
unfoldable pub split :
    Query → HttpQuery → Result (Option HttpQuery × Option (List (String × String)))
unfolding take_declared
split q query =
    let declared : List String = elim q.query [ none ↦ [] | some s ↦ or_else s.parameters [] ] in
    let (taken, left) = take_declared declared query.entries in
    if q.is_queryable
    then ok (some (record query { entries = left }), non_empty taken)
    else elim left [
      | (key, value) ∷ rest ↦ err (bad_request ("Query parameter '" +++ key +++ "' is not allowed"))
      | [] ↦ elim query.version [
        | some version ↦ err (bad_request "Query parameter 'version' is not allowed")
        | none ↦ ok (none, non_empty taken)
      ]
    ]

-- A parameter's value in a template literal
abbrev pub value_text : Option String → String
value_text none = "undefined"
value_text (some value) = value

-- The first parameter named `id`, and the parameters without it
unfoldable pub take_id : Params → Option (Option String) × Params
take_id [] = (none, [])
take_id ((name, value) ∷ params) =
    let (found, rest) = take_id params in
    if name == "id" then (some value, params) else (found, (name, value) ∷ rest)

-- The groups as one text: each in brackets, with its operator behind it unless it is the last.
unfoldable pub render : List (String × Operator) → String
render [] = ""
render ((criteria, operator) ∷ []) = "(" +++ criteria +++ ")"
render ((criteria, operator) ∷ next ∷ groups) =
    "(" +++ criteria +++ ")" +++ operator_text operator +++ render (next ∷ groups)

abbrev pub equations : Params → List String
equations params = map (λ (name, value). name +++ "==" +++ value_text value) params

-- The groups of `fitCriteria`
unfoldable pub groups_of :
    Query → Params → Option String → Option String → Result (List (String × Operator))
unfolding join
groups_of q params own given =
    let of_params : List (String × Operator) = elim params [
      | [] ↦ []
      | p ∷ ps ↦ (join ";" (equations (p ∷ ps)), q.prepend) ∷ []
    ] in
    let of_query : List (String × Operator) = elim own [
      | none ↦ []
      | some criteria ↦ (criteria, semicolon) ∷ []
    ] in
    elim given [
      | none ↦ ok (of_params ++ of_query)
      | some criteria ↦
          if q.closed
          then err (bad_request "Query criteria is closed")
          else ok (of_params ++ of_query ++ (criteria, semicolon) ∷ [])
    ]

-- `assert.ok(range !== undefined, message)`
abbrev pub defined : Option Range → String → Result Range
defined none message = err (fault message)
defined (some range) message = ok range

-- What `fitCriteria` sets: the identifier and the criteria
unfoldable pub fit_criteria :
    Query
    → Params
    → Option String
    → Option String
    → Option String
    → Result (Option String × Option String)
unfolding take_id groups_of
fit_criteria q params own id given = do
  let (found, rest) = take_id params
  groups ← groups_of q rest own given
  ok (
    elim found [ none ↦ id | some value ↦ value ],
    elim groups [ [] ↦ given | g ∷ gs ↦ some (render (g ∷ gs)) ],
  )

module _ (parse_int : String → Number) where
  -- The function `fit`; a comparison with NaN fails, so that NaN passes. The message of the source
  -- has the bounds in it.
  unfoldable pub fit_number : String → Range → String → Result Number
  fit_number text range name =
      let refused : Result Number =
        err (bad_request ("Query " +++ name +++ " must be between the bounds inclusive")) in
      elim (parse_int text) [
        | nan ↦ ok nan
        | negative n ↦ refused
        | natural n ↦ if ltb n range.low || ltb range.high n then refused else ok (natural n)
      ]

  -- A bound that the query string gives, or else the default
  unfoldable pub fit_given : Option String → Range → String → Option Number → Result (Option Number)
  unfolding fit_number
  fit_given none range name default = ok default
  fit_given (some text) range name default = do
    number ← fit_number text range name
    ok (some number)

  -- `fitSort`
  unfoldable pub fit_sort : Option String → Option String → Option (List String)
  unfolding split_on
  fit_sort none none = none
  fit_sort (some own) none = some (split_on b';' (own +++ ""))
  fit_sort none (some given) = some (split_on b';' ("" +++ given))
  fit_sort (some own) (some given) = some (split_on b';' (own +++ given))

  module _ (validate : HttpQuery → Option String) where
    -- `fit` for a query that `split` leaves
    unfoldable pub fit_query : Query → SyntaxQuery → HttpQuery → Params → Result CoreQuery
    unfolding fit_criteria fit_given fit_sort
    fit_query q own given params = elim (validate given) [
      | some message ↦ err (bad_request ("Query " +++ message))
      | none ↦ do
        (id, criteria) ←
            fit_criteria q params own.criteria (lookup "id" given.entries)
              (lookup "criteria" given.entries)
        limit_range ← defined own.limit "Query limit must be defined"
        omit_range ← defined own.omit "Query limit range must be defined"
        limit ←
            fit_given (lookup "limit" given.entries) limit_range "limit"
              (Option.map natural limit_range.value)
        omit ← fit_given (lookup "omit" given.entries) omit_range "omit" none
        ok (record {
          id = id;
          criteria = criteria;
          sort = fit_sort own.sort (lookup "sort" given.entries);
          omit = omit;
          limit = limit;
          version = given.version;
          version_text = lookup "version" given.entries;
        })
    ]

    -- `Query.fit`
    unfoldable pub fit : Query → HttpQuery → Params → Result QueryString
    unfolding split fit_query
    fit q query params = do
      (given, parameters) ← split q query
      elim given [
        | none ↦ ok (record { query = none; parameters = parameters })
        | some entries ↦ elim q.query [
          | none ↦ err (fault "query of a mapping without one")
          | some own ↦ do
            fitted ← fit_query q own entries params
            ok (record { query = some fitted; parameters = parameters })
        ]
      ]
