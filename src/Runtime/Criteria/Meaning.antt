-- ===== src/Runtime/Criteria/Meaning.antt =====
-- What the criteria of a query select.
use kookaburra.Prelude.{
  String, Bool, true, false, ◌&&◌, ◌||◌, none, some, [], ◌∷◌, ◌==◌, if◌then◌else◌, includes, ◌≡◌,
  refl, arith, inl, inr, Bool-cases, List, ap, map, sym, subst,
}
use mathlib.Core.Option.{some-injective}
use kookaburra.Result.{ok}
use kookaburra.Dict.{lookup}
use kookaburra.Runtime.Criteria.{
  Value, Node, logic, comparison, selector, literal, rename, logic_key, comparisons, Filter, all_of,
  also, Condition, compares, exactly, nothing, both, translate_node,
}

pub data Relation : Type 0 where
  equal greater greater_or_equal among less less_or_equal unequal outside : Relation

-- What the operators of RSQL mean
abbrev pub rsql_relations : List (String × Relation)
rsql_relations =
    ("==", equal)
    ∷ (">", greater)
    ∷ (">=", greater_or_equal)
    ∷ ("=in=", among)
    ∷ ("<", less)
    ∷ ("<=", less_or_equal)
    ∷ ("!=", unequal)
    ∷ ("=out=", outside)
    ∷ []

-- What the operators of MongoDB mean
abbrev pub mongo_relations : List (String × Relation)
mongo_relations =
    ("$eq", equal)
    ∷ ("$gt", greater)
    ∷ ("$gte", greater_or_equal)
    ∷ ("$in", among)
    ∷ ("$lt", less)
    ∷ ("$lte", less_or_equal)
    ∷ ("$ne", unequal)
    ∷ ("$nin", outside)
    ∷ []

-- The field of a record that has a property of its entity: the identifier is kept at `_id`.
abbrev pub field_of : String → String
field_of property = if property == "id" then "_id" else property

-- Whether a record's field stands in a relation to a value, by the field's name in the database;
-- `is_null` holds of a field that is null or not there.
pub record Reading (A D : Type 0) : Type 0 where
  pub compare_field : Relation → D → String → Value A → Bool
  pub equals_field : D → String → A → Bool
  pub is_null : D → String → Bool

logic_key_and :
    (operator : String) → includes ("and" ∷ ";" ∷ []) operator ≡ true → logic_key operator ≡ "$and"
unfolding logic_key
logic_key_and operator e = rw e refl

logic_key_or :
    (operator : String)
    → includes ("and" ∷ ";" ∷ []) operator ≡ false
    → includes ("and" ∷ ";" ∷ "or" ∷ "," ∷ []) operator ≡ true
    → logic_key operator ≡ "$or"
unfolding logic_key
logic_key_or operator e known = ground (arith, e, known)

-- The syntax trees of the parser: known connectives, and comparisons of selectors and values.
pub data IsParsed {A : Type 0} : Node A → Type 0 where
  joined :
      (operator : String) (left right : Node A)
      → includes ("and" ∷ ";" ∷ "or" ∷ "," ∷ []) operator ≡ true
      → IsParsed left
      → IsParsed right
      → IsParsed (logic operator left right)
  compared :
      (operator name : String) (value : Value A) (relation : Relation)
      → lookup operator rsql_relations ≡ some relation
      → IsParsed (comparison operator (selector name) (literal value))

-- How MongoDB writes a relation
abbrev mongo_name : Relation → String
mongo_name equal = "$eq"
mongo_name greater = "$gt"
mongo_name greater_or_equal = "$gte"
mongo_name among = "$in"
mongo_name less = "$lt"
mongo_name less_or_equal = "$lte"
mongo_name unequal = "$ne"
mongo_name outside = "$nin"

lookup-mongo_name :
    (relation : Relation) → lookup (mongo_name relation) mongo_relations ≡ some relation
unfolding lookup
lookup-mongo_name equal = refl
lookup-mongo_name greater = refl
lookup-mongo_name greater_or_equal = refl
lookup-mongo_name among = refl
lookup-mongo_name less = refl
lookup-mongo_name less_or_equal = refl
lookup-mongo_name unequal = refl
lookup-mongo_name outside = refl

lookup-renamed :
    (key : String) (relations : List (String × Relation)) (relation : Relation)
    → lookup key relations ≡ some relation
    → lookup key (map (λ p. (p.0, mongo_name p.1)) relations) ≡ some (mongo_name relation)
unfolding lookup
lookup-renamed key [] relation e = cc
lookup-renamed key ((k, r) ∷ relations) relation e = elim (Bool-cases (k == key)) [
  | inl same ↦ rw same (ap some (ap mongo_name (some-injective _ _ (rw same at e))))
  | inr apart ↦ rw apart (lookup-renamed key relations relation (rw apart at e))
]

-- The translation writes an operator of RSQL as MongoDB writes what it means.
pub lookup-comparisons :
    (operator : String) (relation : Relation)
    → lookup operator rsql_relations ≡ some relation
    → lookup operator comparisons ≡ some (mongo_name relation)
lookup-comparisons operator relation e = lookup-renamed operator rsql_relations relation e

pub rename-field_of : (name : String) → rename name ≡ field_of name
unfolding rename
rename-field_of name = refl

module _ {A D : Type 0} (reading : Reading A D) where
  unfoldable mutual
    -- What MongoDB selects by a filter
    pub selects : Filter A → D → Bool
    selects all_of d = true
    selects (also key condition rest) d = holds_at key condition d && selects rest d

    pub holds_at : String → Condition A → D → Bool
    holds_at key (compares operator value) d = elim (lookup operator mongo_relations) [
      | none ↦ false
      | some relation ↦ reading.compare_field relation d key value
    ]
    holds_at key (exactly a) d = reading.equals_field d key a
    holds_at key nothing d = reading.is_null d key
    holds_at key (both l r) d =
        if key == "$or" then selects l d || selects r d else selects l d && selects r d

  -- What a criterion means of the record of an entity: a comparison relates a property to a value,
  -- `;` and `and` are conjunctions, and the other connectives disjunctions.
  unfoldable pub satisfies : Node A → D → Bool
  satisfies (logic operator left right) d =
      if includes ("and" ∷ ";" ∷ []) operator
      then satisfies left d && satisfies right d
      else satisfies left d || satisfies right d
  satisfies (comparison operator (selector name) (literal value)) d =
      elim (lookup operator rsql_relations) [
        | none ↦ false
        | some relation ↦ reading.compare_field relation d (field_of name) value
      ]
  satisfies node d = false

  -- A connective joins what its filters select.
  joins :
      (operator : String) (l r : Filter A) (left right : Node A) (d : D)
      → includes ("and" ∷ ";" ∷ "or" ∷ "," ∷ []) operator ≡ true
      → selects l d ≡ satisfies left d
      → selects r d ≡ satisfies right d
      → selects (also (logic_key operator) (both l r) all_of) d
        ≡ satisfies (logic operator left right) d
  unfolding selects satisfies
  joins operator l r left right d known el er =
      elim (Bool-cases (includes ("and" ∷ ";" ∷ []) operator)) [
        | inl conjunction ↦
            rw (logic_key_and operator conjunction, el, er, conjunction) (ground arith)
        | inr disjunction ↦
            rw (logic_key_or operator disjunction known, el, er, disjunction) (ground arith)
      ]

  selects-compares :
      (relation : Relation) (name : String) (value : Value A) (d : D)
      → selects (also (rename name) (compares (mongo_name relation) value) all_of) d
        ≡ reading.compare_field relation d (field_of name) value
  unfolding selects rename
  selects-compares relation name value d =
      subst
        (λ o.
          ((elim o as (λ _. Bool) [
            | none ↦ false
            | some r ↦ reading.compare_field r d (rename name) value
          ])
            && true)
          ≡ reading.compare_field relation d (rename name) value)
        (sym (lookup-mongo_name relation)) (ground arith)

  -- The criteria of the parser are translated to a filter that selects the records that satisfy
  -- them.
  pub translate_node-selects :
      (node : Node A) (d : D)
      → IsParsed node
      → (filter : Filter A) × (translate_node node ≡ ok filter)
        × (selects filter d ≡ satisfies node d)
  unfolding translate_node selects satisfies
  translate_node-selects _ d (compared operator name value relation known) = (
    also (rename name) (compares (mongo_name relation) value) all_of,
    rw (lookup-comparisons operator relation known, translate_node) refl,
    rw (known, satisfies) (selects-compares relation name value d),
  )
  translate_node-selects _ d (joined operator left right known l r) =
      let (fl, el, sl) = translate_node-selects left d l in
      let (fr, er, sr) = translate_node-selects right d r in
      (
        also (logic_key operator) (both fl fr) all_of,
        rw (el, er) refl,
        joins operator fl fr left right d known sl sr,
      )
