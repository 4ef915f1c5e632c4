-- ===== src/Runtime/Difference/Tells.antt =====
-- What the changes of `difference` say of each property.
use kookaburra.Prelude.{
  String, Bool, true, false, Option, none, some, ◌==◌, if◌then◌else◌, ◌≡◌, refl, sym, ap, subst,
  arith, Bool-cases, Option-cases, inl, inr, eq_iff, eq_refl, ◌≢◌,
}
use kookaburra.Runtime.Difference.{
  Value, null, truth, number, text, nest, Members, no_members, member, Change, put, within, Changes,
  no_changes, change, property, same_truth, same_value, type_of, join_changes, added, compared,
}

-- `diff[key]`
unfoldable pub change_at : String → Changes → Option Change
change_at key no_changes = none
change_at key (change k c rest) =
    let later = change_at key rest in if k == key then some c else later

abbrev pub both_nested : Option Value → Option Value → Bool
both_nested (some (nest fields)) (some (nest others)) = true
both_nested _ _ = false

-- No change where the values are the same; the new value, or its absence, where they differ and are
-- not both objects; what changed inside where they are.
pub data Tells : Option Value → Option Value → Option Change → Type 0 where
  same : (value : Option Value) → Tells value value none
  new :
      (value other : Option Value)
      → value ≢ other
      → both_nested value other ≡ false
      → Tells value other (some (put other))
  inside :
      (fields others : Members) (changes : Changes)
      → ((key : String) → Tells (property key fields) (property key others) (change_at key changes))
      → Tells (some (nest fields)) (some (nest others)) (some (within changes))

-- Objects have a name once.
unfoldable mutual
  pub Distinct : Members → Type 0
  Distinct no_members = Unit
  Distinct (member key value rest) = (property key rest ≡ none) × IsDistinct value × Distinct rest

  pub IsDistinct : Value → Type 0
  IsDistinct (nest fields) = Distinct fields
  IsDistinct null = Unit
  IsDistinct (truth b) = Unit
  IsDistinct (number n) = Unit
  IsDistinct (text t) = Unit

pub change_at-join :
    (key : String) (first second : Changes)
    → change_at key (join_changes first second)
      ≡ (elim (change_at key first) as (λ x. Option Change) [
        | none ↦ change_at key second
        | some c ↦ some c
      ])
unfolding change_at
change_at-join key no_changes second = refl
change_at-join key (change k c rest) second = ground (arith, change_at-join key rest second)

pub change_at-added :
    (key : String) (fields others : Members)
    → change_at key (added fields others) ≡ (elim (property key fields) as (λ x. Option Change) [
      | some value ↦ none
      | none ↦ elim (property key others) as (λ x. Option Change) [
        | none ↦ none
        | some value ↦ some (put (some value))
      ]
    ])
unfolding change_at added property
change_at-added key fields no_members = elim (Option-cases (property key fields)) [
  | inl e ↦ rw e refl
  | inr (v, e) ↦ rw e refl
]
change_at-added key fields (member k value rest) =
    ground (arith, change_at-added key fields rest, eq_iff k key)

same_truth-eq : (a b : Bool) → same_truth a b ≡ true → a ≡ b
same_truth-eq true b h = sym h
same_truth-eq false true h = h
same_truth-eq false false h = refl

same_value-eq :
    (value : Value) (other : Option Value) → same_value value other ≡ true → some value ≡ other
unfolding same_value
same_value-eq null none h = cc
same_value-eq null (some null) h = refl
same_value-eq null (some (truth b)) h = cc
same_value-eq null (some (number b)) h = cc
same_value-eq null (some (text b)) h = cc
same_value-eq null (some (nest b)) h = cc
same_value-eq (truth a) none h = cc
same_value-eq (truth a) (some null) h = cc
same_value-eq (truth a) (some (truth b)) h = ap (λ x. some (truth x)) (same_truth-eq a b h)
same_value-eq (truth a) (some (number b)) h = cc
same_value-eq (truth a) (some (text b)) h = cc
same_value-eq (truth a) (some (nest b)) h = cc
same_value-eq (number a) none h = cc
same_value-eq (number a) (some null) h = cc
same_value-eq (number a) (some (truth b)) h = cc
same_value-eq (number a) (some (number b)) h = ap (λ x. some (number x)) (ground arith)
same_value-eq (number a) (some (text b)) h = cc
same_value-eq (number a) (some (nest b)) h = cc
same_value-eq (text a) none h = cc
same_value-eq (text a) (some null) h = cc
same_value-eq (text a) (some (truth b)) h = cc
same_value-eq (text a) (some (number b)) h = cc
same_value-eq (text a) (some (text b)) h = ap (λ x. some (text x)) ((eq_iff a b).0 h)
same_value-eq (text a) (some (nest b)) h = cc
same_value-eq (nest a) none h = cc
same_value-eq (nest a) (some null) h = cc
same_value-eq (nest a) (some (truth b)) h = cc
same_value-eq (nest a) (some (number b)) h = cc
same_value-eq (nest a) (some (text b)) h = cc
same_value-eq (nest a) (some (nest b)) h = cc

same_value_refl :
    (value : Value)
    → both_nested (some value) (some value) ≡ false
    → same_value value (some value) ≡ true
unfolding same_value
same_value_refl null h = refl
same_value_refl (truth true) h = refl
same_value_refl (truth false) h = refl
same_value_refl (number n) h = ground arith
same_value_refl (text t) h = eq_refl t
same_value_refl (nest fields) h = cc

clash : {b : Bool} → b ≡ true → b ≡ false → ⊥
clash h k = cc

-- A value that is no object
pub plain-Tells :
    (value : Value) (other : Option Value) (c : Option Change)
    → both_nested (some value) (some value) ≡ false
    → both_nested (some value) other ≡ false
    → (if type_of (some value) == type_of other then compared value other else some (put other)) ≡ c
    → Tells (some value) other c
plain-Tells value other c plain apart e =
    elim (Bool-cases (type_of (some value) == type_of other)) [
      | inr mistyped ↦ subst (Tells (some value) other) (rw mistyped at e) (
          new (some value) other
            (λ equal.
              clash (eq_refl (type_of (some value)))
                (subst (λ o. (type_of (some value) == type_of o) ≡ false) (sym equal) mistyped))
            apart)
      | inl typed ↦ elim (Bool-cases (same_value value other)) [
        | inl equal ↦ subst (Tells (some value) other) (rw (typed, equal) at e) (
            subst (λ o. Tells (some value) o none) (same_value-eq value other equal)
              (same (some value)))
        | inr differs ↦ subst (Tells (some value) other) (rw (typed, differs) at e) (
            new (some value) other
              (λ equal.
                clash (same_value_refl value plain)
                  (subst (λ o. same_value value o ≡ false) (sym equal) differs))
              apart)
      ]
    ]
