-- ===== src/Runtime/Difference/Throws.antt =====
-- What an object that is set to `null` does to a transition.
use kookaburra.Prelude.{
  String, true, Option, some, List, ◌==◌, ◌≡◌, refl, ap, ◌∙◌, arith, eq_iff, inl, inr, Bool-cases,
}
use kookaburra.Result.{Result, ok, err, ◌>>=◌, Failure, fault}
use kookaburra.Runtime.Entity.{Object, Entity}
use kookaburra.Runtime.State.{Backend, commit, announce, event}
use kookaburra.Runtime.Difference.{
  Value, null, nest, Members, no_members, member, property, changed, differences, difference,
}

-- A failure of a part is one of the whole.
step_err :
    {A B : Type 0} (m : Result A) (next : A → Result B)
    → ((a : A) → m ≡ ok a → (f : Failure) × (next a ≡ err f))
    → (f : Failure) × ((m >>= next) ≡ err f)
step_err (ok a) next h = h a refl
step_err (err f) next h = (f, refl)

first_err :
    {A B : Type 0} (m : Result A) (next : A → Result B)
    → ((f : Failure) × (m ≡ err f))
    → (f : Failure) × ((m >>= next) ≡ err f)
first_err (ok a) next (f, e) = cc
first_err (err g) next (f, e) = (g, refl)

differences-throws :
    (key : String) (fields others inner : Members)
    → property key fields ≡ some (nest inner)
    → property key others ≡ some null
    → (f : Failure) × (differences fields others ≡ err f)
unfolding changed differences property
differences-throws key no_members others inner e o = cc
differences-throws key (member k value rest) others inner e o = elim (Bool-cases (k == key)) [
  | inl same ↦
      let here : value ≡ nest inner = cc (rw same at e) in
      let known : k ≡ key = ground (arith, eq_iff k key, same) in
      first_err (changed value (property k others)) _ (
        fault "Cannot convert undefined or null to object",
        ap (λ v. changed v (property k others)) here
            ∙ ap (changed (nest inner)) (ap (λ x. property x others) known ∙ o),
      )
  | inr other ↦ step_err (changed value (property k others)) _ (λ c done.
      first_err (differences rest others) _
        (differences-throws key rest others inner (rw other at e) o))
]

-- A flaw: where an object property is set to `null`, `difference` throws.
pub difference-throws :
    (key : String) (fields others inner : Members)
    → property key fields ≡ some (nest inner)
    → property key others ≡ some null
    → (f : Failure) × (difference fields others ≡ err f)
unfolding difference
difference-throws key fields others inner e o =
    first_err (differences fields others) _ (differences-throws key fields others inner e o)

module _ {W N : Type 0} (backend : Backend W Value N) where
  -- A flaw: a transition that sets an object property to `null` is stored, and then fails: it
  -- announces no event, and its caller gets an exception. The backend's difference throws where
  -- that of libraries/generic does.
  pub commit-throws :
      (members_of : List (String × Value) → Members) (entity : Entity Value) (origin : Object Value)
      (input : Option Value) (key : String) (inner : Members) (w written : W)
      → ((f : Failure)
          → difference (members_of origin.fields) (members_of entity.state.fields) ≡ err f
          → backend.difference origin entity.state ≡ err f)
      → entity.origin ≡ some origin
      → property key (members_of origin.fields) ≡ some (nest inner)
      → property key (members_of entity.state.fields) ≡ some null
      → backend.store entity.state w ≡ (ok true, written)
      → (f : Failure) × (commit backend entity input w ≡ (err f, written))
  unfolding commit announce event
  commit-throws members_of entity origin input key inner w written same read e o done =
      let (f, thrown) =
        difference-throws key (members_of origin.fields) (members_of entity.state.fields) inner e
          o in
      (f, rw (done, commit) (rw (read, same f thrown, announce, event) refl))
