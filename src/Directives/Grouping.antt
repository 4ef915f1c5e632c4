-- ===== src/Directives/Grouping.antt =====
-- Grouping declarations by family: mandatory families always run.
use mathlib.Core.Path.{subst}
use mathlib.Core.Option.{some-injective}
use kookaburra.Prelude.{
  String, true, not, none, some, List, [], ◌∷◌, ◌++◌, ◌≡◌, ◌≢◌, refl, arith, sym, ◌∙◌, ap, ◌⊎◌, inl,
  inr, Option-cases, Bool-cases, Any, includes, filter, map, or_else, ◌==◌, eq_iff, if◌then◌else◌,
}
use kookaburra.Result.{ok, >>=-rule, ok-injective}
use kookaburra.Dict.{lookup, insert, lookup-insert}
use kookaburra.Rtd.Factory.{Directive}
use kookaburra.Directives.{
  Family, DirectiveSet, DirectivesFactory, group, push_sets, create, new_factory,
}

-- The family is the one that its name stands for.
abbrev pub NamesMatch : {V D C O : Type 0} → DirectivesFactory V D C O → Type 0
NamesMatch factory =
    (name : String) (family : Family _ _ _ _)
    → lookup name factory.families ≡ some family
    → family.name ≡ name

module _ {V D C O : Type 0} (factory : DirectivesFactory V D C O) where
  -- A name is still to be pushed with no directives, or has a group.
  abbrev Covered : String → List (String × List D) → List String → Type 0
  Covered name groups left = (includes left name ≡ true) ⊎ (lookup name groups ≢ none)

  includes-filter_ne :
      (names : List String) (name other : String)
      → name ≢ other
      → includes names name ≡ true
      → includes (filter (λ n. not (n == other)) names) name ≡ true
  includes-filter_ne [] name other h i = cc
  includes-filter_ne (n ∷ names) name other h i =
      ground (arith, eq_iff n name, eq_iff n other, includes-filter_ne names name other h)

  Covered-step :
      (name other : String) (directives : List D) (groups : List (String × List D))
      (left : List String)
      → Covered name groups left
      → Covered name (insert other directives groups) (filter (λ n. not (n == other)) left)
  Covered-step name other directives groups left h = elim (Bool-cases (other == name)) [
    | inl same ↦ inr (λ e. ground (arith, lookup-insert other name directives groups))
    | inr differs ↦ elim h [
      | inl waits ↦
          inl (includes-filter_ne left name other (λ e. ground (arith, eq_iff other name)) waits)
      | inr grouped ↦
          inr (λ e. grouped (ground (arith, lookup-insert other name directives groups)))
    ]
  ]

  -- Every name that the loop starts with is covered at its end.
  group-Covered :
      (declarations : List (Directive V)) (groups : List (String × List D)) (left : List String)
      (name : String) (ends : List (String × List D) × List String)
      → Covered name groups left
      → group factory declarations groups left ≡ ok ends
      → Covered name ends.0 ends.1
  unfolding group
  group-Covered [] groups left name ends h e = subst (λ t. Covered name t.0 t.1) (ok-injective e) h
  group-Covered (declaration ∷ rest) groups left name ends h e =
      elim (Option-cases (lookup declaration.family factory.families)) [
        | inl missing ↦ cc (rw (missing, group) at e)
        | inr (family, found) ↦
            >>=-rule (λ t. Covered name t.0 t.1) (family.create declaration.name declaration.value)
              _
              (λ directive created t grouped.
                group-Covered rest
                  (insert family.name (or_else (lookup family.name groups) [] ++ directive ∷ [])
                    groups)
                  (filter (λ n. not (n == family.name)) left) name t
                  (Covered-step name family.name
                    (or_else (lookup family.name groups) [] ++ directive ∷ []) groups left h)
                  grouped)
              ends (rw (found, group) at e)
      ]

  abbrev Named : String → List (String × List D) → Type 0
  Named name pairs = Any (λ pair. pair.0 ≡ name) pairs

  Named-left :
      (name : String) (left : List String) (groups : List (String × List D))
      → includes left name ≡ true
      → Named name (map (λ n. (n, [])) left ++ groups)
  Named-left name [] groups h = cc
  Named-left name (n ∷ left) groups h = elim (Bool-cases (n == name)) [
    | inl same ↦ inl ((eq_iff n name).0 same)
    | inr differs ↦ inr (Named-left name left groups (rw differs at h))
  ]

  Named-grouped :
      (name : String) (groups : List (String × List D))
      → lookup name groups ≢ none
      → Named name groups
  unfolding lookup
  Named-grouped name [] h = absurd (h refl)
  Named-grouped name ((n, directives) ∷ groups) h = elim (Bool-cases (n == name)) [
    | inl same ↦ inl ((eq_iff n name).0 same)
    | inr differs ↦ inr (Named-grouped name groups (rw differs at h))
  ]

  Named-behind :
      (name : String) (left : List String) (groups : List (String × List D))
      → Named name groups
      → Named name (map (λ n. (n, [])) left ++ groups)
  Named-behind name [] groups h = h
  Named-behind name (n ∷ left) groups h = inr (Named-behind name left groups h)

  push_sets-Named :
      NamesMatch factory
      → (name : String) (pairs : List (String × List D)) (sets : List (DirectiveSet V D C O))
      → Named name pairs
      → push_sets factory pairs ≡ ok sets
      → Any (λ set. set.family.name ≡ name) sets
  unfolding push_sets
  push_sets-Named match name [] sets h e = absurd h
  push_sets-Named match name ((n, directives) ∷ pairs) sets h e =
      elim (Option-cases (lookup n factory.families)) [
        | inl missing ↦ cc (rw (missing, push_sets) at e)
        | inr (family, found) ↦
            >>=-rule (Any (λ set. set.family.name ≡ name)) (push_sets factory pairs) _
              (λ others pushed t made.
                subst (Any (λ set. set.family.name ≡ name)) (ok-injective made) (elim h [
                  | inl here ↦ inl (match n family found ∙ here)
                  | inr deeper ↦ inr (push_sets-Named match name pairs others deeper pushed)
                ]))
              sets (rw (found, push_sets) at e)
      ]

  -- Whatever is declared, every mandatory family has a set, so that it runs.
  pub create-mandatory :
      NamesMatch factory
      → (declarations : List (Directive V)) (sets : List (DirectiveSet V D C O)) (name : String)
      → create factory declarations ≡ ok sets
      → includes factory.mandatory name ≡ true
      → Any (λ set. set.family.name ≡ name) sets
  unfolding create
  create-mandatory match declarations sets name e h =
      >>=-rule (Any (λ set. set.family.name ≡ name)) (group factory _ [] factory.mandatory) _
        (λ (groups, left) grouped t pushed.
          push_sets-Named match name (map (λ n. (n, [])) left ++ groups) t
            (elim (group-Covered _ [] factory.mandatory name (groups, left) (inl h) grouped) [
              | inl waits ↦ Named-left name left groups waits
              | inr has ↦ Named-behind name left groups (Named-grouped name groups has)
            ])
            pushed)
        sets e

-- In a factory that its constructor makes, each name stands for the family that bears it.
pub new_factory-NamesMatch :
    {V D C O : Type 0} (families : List (Family V D C O)) (factory : DirectivesFactory V D C O)
    → NamesMatch factory
    → NamesMatch (new_factory families factory)
unfolding new_factory
new_factory-NamesMatch [] factory match = match
new_factory-NamesMatch (f ∷ families) factory match =
    new_factory-NamesMatch families
      (record {
        families = insert f.name f factory.families;
        mandatory = if f.mandatory then factory.mandatory ++ f.name ∷ [] else factory.mandatory;
      })
      (λ name family e. elim (Bool-cases (f.name == name)) [
        | inl same ↦
            (ap (λ (g : Family _ _ _ _). g.name)
              (sym (
                some-injective _ _
                  (rw same at (sym (lookup-insert f.name name f factory.families) ∙ e)))))
            ∙ (eq_iff f.name name).0 same
        | inr differs ↦
            match name family
              (rw differs at (sym (lookup-insert f.name name f factory.families) ∙ e))
      ])
