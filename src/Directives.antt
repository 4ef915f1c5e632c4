-- ===== src/Directives.antt =====
-- extensions/exposition/source/Directive.ts and RTD/Directives.ts: sets of directives, one for
-- each family, run in turn before and after a call.
-- Families are parameters: they work on a context `C`, directives `D` and responses `O`.
pub mod Running
pub mod Grouping
use kookaburra.Prelude.{
  String, Bool, true, false, not, ◌||◌, Option, none, some, List, [], ◌∷◌, ◌++◌, or_else, ◌==◌,
  if◌then◌else◌, includes, filter, map,
}
use kookaburra.Result.{Result, ok, err, fault, ◌>>=◌}
use kookaburra.Dict.{lookup, insert}
use kookaburra.Sort.{sort_by, kind_first}
use kookaburra.Rtd.Node.{Params}
use kookaburra.Rtd.Factory.{Directive}
use kookaburra.Text.{◌+++◌}

-- `DirectiveFamily`; a handler that the family lacks is `none`. Handlers return the context that
-- they leave, `settle` the response too.
pub record Family (V D C O : Type 0) : Type 0 where
  pub name : String
  pub mandatory : Bool
  pub create : String → V → Result D
  pub preflight : Option (List D → C → Params → Result (Option O × C))
  pub settle : Option (List D → C → O → Result (O × C))

pub record DirectiveSet (V D C O : Type 0) : Type 0 where
  pub family : Family V D C O
  pub directives : List D

-- `DirectivesFactory`: its families by name, and the names of the mandatory ones
pub record DirectivesFactory (V D C O : Type 0) : Type 0 where
  pub families : List (String × Family V D C O)
  pub mandatory : List String

-- One set of `Directives.preflight`; a set that has no handler or answers `null` changes nothing.
unfoldable pub respond : {O : Type 0} → Option O → Option O → Result (Option O)
respond output none = ok output
respond none (some out) = ok (some out)
respond (some output) (some out) = err (fault "Multiple preflight directives responded")

module _ {V D C O : Type 0} where
  unfoldable pub preflight_from :
      List (DirectiveSet V D C O) → C → Params → Option O → Result (Option O × C)
  unfolding respond
  preflight_from [] context params output = ok (output, context)
  preflight_from (set ∷ sets) context params output = elim set.family.preflight [
    | none ↦ preflight_from sets context params output
    | some handle ↦ do
      (out, changed) ← handle set.directives context params
      next ← respond output out
      preflight_from sets changed params next
  ]

  -- `Directives.preflight`
  unfoldable pub preflight : List (DirectiveSet V D C O) → C → Params → Result (Option O × C)
  unfolding preflight_from
  preflight sets context params = preflight_from sets context params none

  -- `Directives.settle`
  unfoldable pub settle : List (DirectiveSet V D C O) → C → O → Result (O × C)
  settle [] context response = ok (response, context)
  settle (set ∷ sets) context response = elim set.family.settle [
    | none ↦ settle sets context response
    | some handle ↦ do
      (settled, changed) ← handle set.directives context response
      settle sets changed settled
  ]

  -- The constructor of `DirectivesFactory`.
  unfoldable pub new_factory :
      List (Family V D C O) → DirectivesFactory V D C O → DirectivesFactory V D C O
  new_factory [] factory = factory
  new_factory (f ∷ rest) factory = new_factory rest (record {
    families = insert f.name f factory.families;
    mandatory = if f.mandatory then factory.mandatory ++ f.name ∷ [] else factory.mandatory;
  })

  -- The state of the loop over the declarations: `groups` and the set `mandatory`.
  unfoldable pub group :
      DirectivesFactory V D C O
      → List (Directive V)
      → List (String × List D)
      → List String
      → Result (List (String × List D) × List String)
  group factory [] groups mandatory = ok (groups, mandatory)
  group factory (declaration ∷ rest) groups mandatory =
      elim (lookup declaration.family factory.families) [
        | none ↦ err (fault ("Directive family '" +++ declaration.family +++ "' is not found"))
        | some family ↦ do
          directive ← family.create declaration.name declaration.value
          group factory rest
              (insert family.name (or_else (lookup family.name groups) [] ++ directive ∷ []) groups)
              (filter (λ name. not (name == family.name)) mandatory)
      ]

  -- `sets.push({ family: this.families[family], directives })` for each pair
  unfoldable pub push_sets :
      DirectivesFactory V D C O → List (String × List D) → Result (List (DirectiveSet V D C O))
  push_sets factory [] = ok []
  push_sets factory ((name, directives) ∷ rest) = elim (lookup name factory.families) [
    | none ↦ err (fault "undefined family")
    | some family ↦ do
      sets ← push_sets factory rest
      ok (record { family = family; directives = directives } ∷ sets)
  ]

  -- `DirectivesFactory.create`; `new Set(this.mandatory)` is the list, whose names differ.
  unfoldable pub create :
      DirectivesFactory V D C O → List (Directive V) → Result (List (DirectiveSet V D C O))
  unfolding group push_sets
  create factory declarations = do
    let sorted = sort_by (kind_first (λ d. includes factory.mandatory d.family)) declarations
    (groups, left) ← group factory sorted [] factory.mandatory
    push_sets factory (map (λ name. (name, [])) left ++ groups)
