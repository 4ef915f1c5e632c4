-- ===== src/Runtime/Criteria/Keys.antt =====
-- The identifier and the version of a query beside its criteria.
use kookaburra.Prelude.{String, Bool, true, false, Option, none, some, ◌==◌, ◌≡◌, refl}
use kookaburra.Dict.{lookup}
use kookaburra.Runtime.Criteria.{
  Value, Node, comparison, selector, literal, rename, comparisons, Filter, all_of, also,
  translate_node, put, with_key, translate,
}
use kookaburra.Runtime.Criteria.Meaning.{Reading, field_of}

-- The filter has no condition at the key.
abbrev pub Lacks : {A : Type 0} → String → Filter A → Type 0
Lacks key all_of = Unit
Lacks key (also k c rest) = ((k == key) ≡ false) × Lacks key rest

-- The criteria are not one comparison of the property that the database knows by the key.
abbrev pub IsFree : {A : Type 0} → String → Node A → Type 0
IsFree key (comparison operator (selector name) right) = (field_of name == key) ≡ false
IsFree key _ = Unit

module _ {A D : Type 0} (reading : Reading A D) where
  -- A value that a query may give holds of a field.
  abbrev pub given : Option A → String → D → Bool
  given none key d = true
  given (some a) key d = reading.equals_field d key a

-- A flaw: beside an identifier, criteria that are one comparison of `id` are forgotten: the query
-- selects what it would without them.
pub translate-forgets :
    {A : Type 0} (operator key : String) (value : Value A) (i : A) (version : Option A)
    → lookup operator comparisons ≡ some key
    → translate (some (comparison operator (selector "id") (literal value))) (some i) version
      ≡ translate none (some i) version
unfolding translate translate_node with_key put rename
translate-forgets operator key value i version known = rw (known, translate_node) refl
