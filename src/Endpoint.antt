-- ===== src/Endpoint.antt =====
-- extensions/exposition/source/{Mapping,Endpoint}.ts: how a request becomes the call of an
-- operation, and its reply a response. The remote component, `parseInt`, the schema of query
-- strings, printing of numbers and of dates are parameters. The introspection of endpoints is
-- left out.
pub mod Inputs
pub mod Versions
use Prim.Native.Char.{code}
use Prim.Native.String.{[], ◌∷◌}
use kookaburra.Prelude.{
  ℕ, zero, suc, String, Bool, true, false, not, ◌&&◌, ◌||◌, Option, none, some, List, [], ◌∷◌, leb,
  nat_eq, if◌then◌else◌, map, is_some, or_else,
}
use kookaburra.Result.{Result, ok, err, ◌>>=◌, bad_request, fault, unprocessable_entity}
use kookaburra.Text.{◌+++◌}
use kookaburra.Dict.{assign, insert}
use kookaburra.Rtd.Node.{Params}
use kookaburra.Query.{HttpQuery, CoreQuery, QueryString, Number, fit}
use kookaburra.QuerySyntax.{Query}

-- The input of an operation: undefined, a value that is no object, or an object by its fields
pub data Input (V : Type 0) : Type 0 where
  undefined : Input V
  plain : V → Input V
  fields : List (String × V) → Input V

-- `core.Request`
pub record Request (V : Type 0) : Type 0 where
  pub input : Input V
  pub query : Option CoreQuery

-- `_version`, `_updated` and `_created` of a reply that is an object
pub data Reply (V : Type 0) : Type 0 where
  failed : String → Reply V
  replied : V → Option ℕ → Option String → Option String → Reply V

-- `OutgoingMessage`; headers by their names
pub record Message (V : Type 0) : Type 0 where
  pub status : Option ℕ
  pub headers : List (String × String)
  pub body : Option V

abbrev pub is_empty : Params → Bool
is_empty [] = true
is_empty (p ∷ params) = false

module _ {V : Type 0} where
  abbrev pub is_undefined : Input V → Bool
  is_undefined undefined = true
  is_undefined _ = false

  -- `Object.assign(input, entries)`, behind the test that the input is an object
  unfoldable pub embed : String → Input V → List (String × V) → Result (Input V)
  embed message (fields dict) entries = ok (fields (assign dict entries))
  embed message undefined entries = err (fault message)
  embed message (plain v) entries = err (fault message)

  -- `Mapping.assign`; a parameter's text becomes a value.
  unfoldable pub assign_parameters :
      (String → V) → Input V → Option (List (String × String)) → Result (Input V)
  unfolding embed
  assign_parameters text input none = ok input
  assign_parameters text input (some parameters) =
      embed "Input must be an object to embed query parameters" input
        (map (λ (name, value). (name, text value)) parameters)

  -- `if (input === undefined && needed) input = {}`
  unfoldable pub create_input : Bool → Input V → Input V
  create_input needed input = if is_undefined input && needed then fields [] else input

  -- The loop of `InputMapping.fit` over the route's parameters
  unfoldable pub embed_route : (Option String → V) → Input V → Params → Result (Input V)
  unfolding embed
  embed_route value input params =
      if is_empty params
      then ok input
      else embed "Input must be an object to embed route parameters" input
          (map (λ (name, v). (name, value v)) params)

  module _ (parse_int : String → Number) (validate : HttpQuery → Option String)
      (value : Option String → V) where
    -- `QueryableMapping.fit`
    unfoldable pub fit_queryable : Query → Input V → HttpQuery → Params → Result (Request V)
    unfolding create_input assign_parameters
    fit_queryable q input query params = do
      qs ← fit parse_int validate q query params
      given ←
          assign_parameters (λ text. value (some text)) (create_input (is_some qs.parameters) input)
            qs.parameters
      ok (record { input = given; query = qs.query })

    -- `InputMapping.fit`
    unfoldable pub fit_input : Query → Input V → HttpQuery → Params → Result (Request V)
    unfolding create_input embed_route assign_parameters
    fit_input q input query params = do
      qs ← fit parse_int validate q query params
      routed ←
          embed_route value (create_input (not (is_empty params) || is_some qs.parameters) input)
            params
      given ← assign_parameters (λ text. value (some text)) routed qs.parameters
      ok (record { input = given; query = qs.query })

    -- `Mapping.create` and `fit` of the mapping that it makes
    unfoldable pub fit_mapping : Query → Input V → HttpQuery → Params → Result (Request V)
    unfolding fit_queryable fit_input
    fit_mapping q input query params =
        if q.is_queryable
        then fit_queryable q input query params
        else fit_input q input query params

-- The expression `ETAG`: an optional `W/`, and 1 to 32 digits in quotes
unfoldable pub strip_weak : String → String
strip_weak [] = ""
strip_weak (c ∷ []) = c ∷ ""
strip_weak (c ∷ d ∷ text) =
    if nat_eq (code c) b'W' && nat_eq (code d) b'/' then text else c ∷ d ∷ text

abbrev pub is_digit : ℕ → Bool
is_digit c = leb b'0' c && leb c b'9'

-- The digits before a quote at the end
unfoldable pub digits_before_quote : String → Option String
digits_before_quote [] = none
digits_before_quote (c ∷ []) = if nat_eq (code c) b'"' then some "" else none
digits_before_quote (c ∷ d ∷ text) = elim (digits_before_quote (d ∷ text)) [
  | none ↦ none
  | some digits ↦ if is_digit (code c) then some (c ∷ digits) else none
]

abbrev pub size : String → ℕ
size [] = 0
size (c ∷ text) = suc (size text)

unfoldable pub match_etag : String → Option String
unfolding digits_before_quote
match_etag [] = none
match_etag (c ∷ text) = elim (digits_before_quote text) [
  | none ↦ none
  | some digits ↦
      if nat_eq (code c) b'"' && (leb 1 (size digits) && leb (size digits) 32)
      then some digits
      else none
]

abbrev pub modified : (String → String) → Option String → Option String → List (String × String)
modified to_date (some updated) created = ("last-modified", to_date updated) ∷ []
modified to_date none (some created) = ("last-modified", to_date created) ∷ []
modified to_date none none = []

module _ (parse_int : String → ℕ) where
  -- `Endpoint.version`
  unfoldable pub version : String → Result ℕ
  unfolding strip_weak match_etag
  version etag = elim (match_etag (strip_weak etag)) [
    | none ↦ err (bad_request "Invalid ETag")
    | some digits ↦ ok (parse_int digits)
  ]

  -- `Endpoint.query`, given the search parameters and the header `if-match`
  unfoldable pub query_of : Bool → List (String × String) → Option String → Result HttpQuery
  unfolding version
  query_of queryable search none = ok (record { entries = assign [] search; version = none })
  query_of queryable search (some etag) =
      if queryable
      then (do v ← version etag; ok (record { entries = assign [] search; version = some v }))
      else ok (record { entries = assign [] search; version = none })

  module _ {V : Type 0} (to_text : ℕ → String) (to_date : String → String) where
    abbrev pub fresh : V → ℕ → Option String → Option String → Message V
    fresh body v updated created = record {
      status = none;
      headers = ("etag", "\"" +++ to_text v +++ "\"") ∷ modified to_date updated created;
      body = some body;
    }

    -- The end of `Endpoint.call`, from the reply on
    unfoldable pub respond : Option String → Reply V → Result (Message V)
    unfolding version
    respond etag (failed error) = err (unprocessable_entity error)
    respond etag (replied body none updated created) =
        ok (record { status = none; headers = modified to_date updated created; body = some body })
    respond none (replied body (some v) updated created) = ok (fresh body v updated created)
    respond (some etag) (replied body (some v) updated created) = do
      known ← version etag
      ok (
          if nat_eq v known
          then record { status = some 304; headers = ("etag", etag) ∷ []; body = none }
          else fresh body v updated created)

    -- `Endpoint.call`: what it reads of a context, and the call of the remote operation
    unfoldable pub call :
        (String → Number)
        → (HttpQuery → Option String)
        → (Option String → V)
        → (Request V → Result (Reply V))
        → Query
        → Result (Input V)
        → List (String × String)
        → Option String
        → Option String
        → Params
        → Result (Message V)
    unfolding query_of fit_mapping respond
    call parse validate value invoke q body search if_match if_none_match params = do
      input ← body
      query ← query_of q.is_queryable search if_match
      request ← fit_mapping parse validate value q input query params
      reply ← invoke request
      respond if_none_match reply
