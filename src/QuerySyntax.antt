-- ===== src/QuerySyntax.antt =====
-- extensions/exposition/source/RTD/syntax/types.ts and the constructor of Query.ts: the query that
-- a mapping declares.
use Prim.Native.Char.{code}
use Prim.Native.String.{[], ◌∷◌}
use kookaburra.Prelude.{
  ℕ, String, Bool, true, false, not, ◌&&◌, ◌||◌, Option, none, some, List, [], ◌∷◌, nat_eq,
  if◌then◌else◌, is_some, or_else,
}

-- `syntax.Range`
pub record Range : Type 0 where
  pub value : Option ℕ
  pub low : ℕ
  pub high : ℕ

-- `syntax.Query`; what is not read here (`id`, `selectors`, `projection`) is only known to be there.
pub record SyntaxQuery : Type 0 where
  pub criteria : Option String
  pub sort : Option String
  pub omit : Option Range
  pub limit : Option Range
  pub parameters : Option (List String)
  pub others : Bool

-- `queryable` of Mapping.ts: no query, or one with the key `parameters` alone, is not queryable.
unfoldable pub queryable : Option SyntaxQuery → Bool
queryable none = false
queryable (some q) = not (
    is_some q.parameters
    && not (is_some q.criteria || is_some q.sort || is_some q.omit || is_some q.limit || q.others))

pub data Operator : Type 0 where
  comma semicolon : Operator

abbrev pub operator_text : Operator → String
operator_text comma = ","
operator_text semicolon = ";"

-- `Query`: its fields
pub record Query : Type 0 where
  pub query : Option SyntaxQuery
  pub closed : Bool
  pub prepend : Operator
  pub is_queryable : Bool

-- `criteria.endsWith(';')` with what stands before
unfoldable pub before_semicolon : String → Option String
before_semicolon [] = none
before_semicolon (c ∷ []) = if nat_eq (code c) b';' then some "" else none
before_semicolon (c ∷ d ∷ text) = elim (before_semicolon (d ∷ text)) [
  | none ↦ none
  | some before ↦ some (c ∷ before)
]

-- A leading operator with what stands behind
unfoldable pub behind_operator : String → Option (Operator × String)
behind_operator [] = none
behind_operator (c ∷ text) =
    if nat_eq (code c) b','
    then some (comma, text)
    else if nat_eq (code c) b';'
    then some (semicolon, text)
    else none

-- The criteria of the constructor: the criteria kept, `closed` and `prepend`
unfoldable pub trim : String → String × (Bool × Operator)
unfolding before_semicolon behind_operator
trim criteria =
    let open_end = before_semicolon criteria in
    let kept = or_else open_end criteria in
    elim (behind_operator kept) [
      | none ↦ (kept, (not (is_some open_end), semicolon))
      | some (operator, rest) ↦ (rest, (not (is_some open_end), operator))
    ]

-- The constructor of Query.
unfoldable pub new_query : Option SyntaxQuery → Query
unfolding queryable trim
new_query none = record { query = none; closed = false; prepend = semicolon; is_queryable = false }
new_query (some q) =
    if queryable (some q)
    then (let ranged = record q {
      omit = some (or_else q.omit (record { value = some 0; low = 0; high = 1000 }));
      limit = some (or_else q.limit (record { value = some 10; low = 1; high = 100 }));
    } in
        elim q.criteria [
          | none ↦ record {
            query = some ranged;
            closed = false;
            prepend = semicolon;
            is_queryable = true;
          }
          | some criteria ↦
              let (kept, (closed, prepend)) = trim criteria in
              record {
                query = some (record ranged { criteria = some kept });
                closed = closed;
                prepend = prepend;
                is_queryable = true;
              }
        ])
    else record { query = some q; closed = false; prepend = semicolon; is_queryable = false }
