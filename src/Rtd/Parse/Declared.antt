-- ===== src/Rtd/Parse/Declared.antt =====
-- What a declaration of a tree says, key by key.
use kookaburra.Prelude.{
  String, true, none, some, List, [], ◌∷◌, is_some, or_else, ◌≡◌, refl, subst, Bool-cases,
  Option-cases, inl, inr,
}
use mathlib.Core.Option.{some-injective}
use kookaburra.Result.{ok, >>=-eq-ok, ok-injective}
use kookaburra.Text.{split_on}
use kookaburra.Dict.{lookup}
use kookaburra.Rtd.Factory.{Directive, SyntaxMethod}
use kookaburra.Untyped.{
  Json, null, truth, number, text, array, object, Members, no_members, member, member_at,
}
use kookaburra.Rtd.Parse.Mapping.{
  is_name, mapping_of, parse_directive, parse_directives, parse_endpoint, parse_query_part,
  parse_method,
}

module _ (shortcuts : List (String × String)) where
  -- A key, or what it is short for, is the name of a family and that of a directive with a colon.
  pub data IsDirective (key : String) (value : Json) : Directive Json → Type 0 where
    named :
        (family name : String)
        → split_on b':' (or_else (lookup key shortcuts) key) ≡ family ∷ name ∷ []
        → is_name family ≡ true
        → is_name name ≡ true
        → IsDirective key value (record { family = family; name = name; value = value })

  -- The properties of a mapping are its directives, in their order, and the others, in theirs.
  pub data Divides : Members → List (Directive Json) → Members → Type 0 where
    empty : Divides no_members [] no_members
    directive :
        (key : String) (value : Json) (d : Directive Json) (rest others : Members)
        (ds : List (Directive Json))
        → IsDirective key value d
        → Divides rest ds others
        → Divides (member key value rest) (d ∷ ds) others
    property :
        (key : String) (value : Json) (rest others : Members) (ds : List (Directive Json))
        → Divides rest ds others
        → ((d : Directive Json) → IsDirective key value d → ⊥)
        → Divides (member key value rest) ds (member key value others)

  -- The mapping that a text, the name of an endpoint, or an object is
  pub data IsGiven : Json → Members → Type 0 where
    by_name : (name : String) → IsGiven (text name) (member "endpoint" (text name) no_members)
    by_mapping : (fields : Members) → IsGiven (object fields) fields

  -- A method has the verb, and the directives and the other properties of its mapping, in which
  -- the endpoint is split and the query's ranges are written out.
  pub record IsMethod (verb : String) (value : Json) (method : SyntaxMethod Json Members)
      : Type 0 where
    pub given : Members
    pub placed : Members
    pub others : Members
    pub is_given : IsGiven value given
    pub is_placed : parse_endpoint given ≡ ok placed
    pub divided : Divides (parse_query_part placed) method.directives others
    pub same_verb : method.verb ≡ verb
    pub same_mapping : method.mapping ≡ some others
    pub endpoint : method.has_endpoint ≡ is_some (member_at "endpoint" others)

  -- The parts of a key that a directive is parsed from
  by_parts :
      (key : String) (value : Json) (parts : List String) (d : Directive Json)
      → split_on b':' (or_else (lookup key shortcuts) key) ≡ parts
      → parse_directive shortcuts key value ≡ some d
      → IsDirective key value d
  unfolding parse_directive
  by_parts key value [] d h e = cc (rw (h, parse_directive) at e)
  by_parts key value (family ∷ []) d h e = cc (rw (h, parse_directive) at e)
  by_parts key value (family ∷ name ∷ more ∷ parts) d h e = cc (rw (h, parse_directive) at e)
  by_parts key value (family ∷ name ∷ []) d h e = elim (Bool-cases (is_name family)) [
    | inr wrong ↦ cc (rw (h, wrong, parse_directive) at e)
    | inl right ↦ elim (Bool-cases (is_name name)) [
      | inr wrong ↦ cc (rw (h, right, wrong, parse_directive) at e)
      | inl both ↦
          subst (IsDirective key value)
            (some-injective _ _ (rw (h, right, both, parse_directive) at e))
            (named family name h right both)
    ]
  ]

  pub parse_directive-IsDirective :
      (key : String) (value : Json) (d : Directive Json)
      → parse_directive shortcuts key value ≡ some d
      → IsDirective key value d
  parse_directive-IsDirective key value d e = by_parts key value _ d refl e

  parse_directive-none :
      (key : String) (value : Json) (d : Directive Json)
      → parse_directive shortcuts key value ≡ none
      → IsDirective key value d
      → ⊥
  unfolding parse_directive
  parse_directive-none key value d e (named family name h f n) =
      cc (rw (h, f, n, parse_directive) at e)

  parse_directives-Divides :
      (fields : Members)
      → Divides fields (parse_directives shortcuts fields).0 (parse_directives shortcuts fields).1
  unfolding parse_directives
  parse_directives-Divides no_members = empty
  parse_directives-Divides (member key value rest) =
      elim (Option-cases (parse_directive shortcuts key value)) [
        | inl e ↦
            rw (e, parse_directives)
              (property key value rest _ _ (parse_directives-Divides rest)
                (λ d. parse_directive-none key value d e))
        | inr (d, e) ↦
            rw (e, parse_directives)
              (directive key value d rest _ _ (parse_directive-IsDirective key value d e)
                (parse_directives-Divides rest))
      ]

  mapping_of-IsGiven :
      (value : Json) (given : Members) → mapping_of value ≡ ok given → IsGiven value given
  mapping_of-IsGiven (text name) given e = subst (IsGiven _) (ok-injective e) (by_name name)
  mapping_of-IsGiven (object fields) given e =
      subst (IsGiven _) (ok-injective e) (by_mapping fields)
  mapping_of-IsGiven null given e = cc
  mapping_of-IsGiven (truth b) given e = cc
  mapping_of-IsGiven (number n) given e = cc
  mapping_of-IsGiven (array items) given e = cc

  pub parse_method-IsMethod :
      (verb : String) (value : Json) (method : SyntaxMethod Json Members)
      → parse_method shortcuts verb value ≡ ok method
      → IsMethod verb value method
  unfolding parse_method
  parse_method-IsMethod verb value method e =
      let (given, taken, r0) = >>=-eq-ok (mapping_of value) _ method e in
      let (placed, is_placed, r1) = >>=-eq-ok (parse_endpoint given) _ method r0 in
      subst (IsMethod verb value) (ok-injective r1) (record {
        given = given;
        placed = placed;
        others = (parse_directives shortcuts (parse_query_part placed)).1;
        is_given = mapping_of-IsGiven value given taken;
        is_placed = is_placed;
        divided = parse_directives-Divides (parse_query_part placed);
        same_verb = refl;
        same_mapping = refl;
        endpoint = refl;
      })
