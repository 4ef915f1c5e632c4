-- ===== src/Runtime/Difference/Sound.antt =====
-- The changes of `difference` say of each property what became of it.
use kookaburra.Prelude.{
  String, true, false, Option, none, some, ◌==◌, if◌then◌else◌, ◌≡◌, refl, sym, ap, subst, ◌∙◌, ◌⊎◌,
  Bool-cases, inl, inr, eq_iff,
}
use kookaburra.Result.{ok, ◌>>=◌, >>=-eq-ok, ok-injective}
use kookaburra.Runtime.Difference.{
  Value, null, truth, number, text, nest, Members, no_members, member, Change, put, within, Changes,
  property, noted, join_changes, added, changed, differences, difference,
}
use kookaburra.Runtime.Difference.Tells.{
  change_at, Tells, same, new, inside, Distinct, IsDistinct, change_at-join, change_at-added,
  plain-Tells,
}

noted-same :
    (k key : String) (here : Option Change) (later : Changes)
    → (k == key) ≡ true
    → change_at key later ≡ none
    → change_at key (noted k here later) ≡ here
unfolding change_at
noted-same k key none later h e = e
noted-same k key (some c) later h e = ap (λ b. if b then some c else change_at key later) h

noted-apart :
    (k key : String) (here : Option Change) (later : Changes)
    → (k == key) ≡ false
    → change_at key (noted k here later) ≡ change_at key later
unfolding change_at
noted-apart k key none later h = refl
noted-apart k key (some c) later h = ap (λ b. if b then some c else change_at key later) h

-- What the loop notes at a name
abbrev At : String → Members → Members → Changes → Type 0
At key fields others own =
    ((property key fields ≡ none) × (change_at key own ≡ none))
    ⊎ ((value : Value) × (property key fields ≡ some value)
        × Tells (some value) (property key others) (change_at key own))

added-Tells :
    (other : Option Value)
    → Tells none other
        (elim other as (λ x. Option Change) [ none ↦ none | some value ↦ some (put (some value)) ])
added-Tells none = same none
added-Tells (some value) = new none (some value) (λ e. cc) refl

picked :
    (first second : Option Change)
    → second ≡ none
    → (elim first as (λ x. Option Change) [ none ↦ second | some c ↦ some c ]) ≡ first
picked none second e = e
picked (some c) second e = refl

-- The additions are behind what the loop notes.
At-Tells :
    (key : String) (fields others : Members) (own : Changes)
    → At key fields others own
    → Tells
        (property key fields)
        (property key others)
        (change_at key (join_changes own (added fields others)))
At-Tells key fields others own at =
    subst (Tells (property key fields) (property key others))
      (sym (change_at-join key own (added fields others))) (by_case at)
  where
    by_case :
        At key fields others own
        → Tells
            (property key fields)
            (property key others)
            (elim (change_at key own) as (λ x. Option Change) [
              | none ↦ change_at key (added fields others)
              | some c ↦ some c
            ])
    by_case (inl (lacks, quiet)) =
        subst
          (λ o. Tells (property key fields) (property key others) (elim o as (λ x. Option Change) [
            | none ↦ change_at key (added fields others)
            | some c ↦ some c
          ]))
          (sym quiet)
          (subst (Tells (property key fields) (property key others))
            (sym (change_at-added key fields others))
            (subst
              (λ p. Tells p (property key others) (elim p as (λ x. Option Change) [
                | some value ↦ none
                | none ↦ elim (property key others) as (λ x. Option Change) [
                  | none ↦ none
                  | some value ↦ some (put (some value))
                ]
              ]))
              (sym lacks) (added-Tells (property key others))))
    by_case (inr (value, has, told)) =
        let quiet : change_at key (added fields others) ≡ none =
          change_at-added key fields others
          ∙ ap
              (λ p. elim p as (λ x. Option Change) [
                | some value ↦ none
                | none ↦ elim (property key others) as (λ x. Option Change) [
                  | none ↦ none
                  | some value ↦ some (put (some value))
                ]
              ])
              has in
        subst
          (λ p. Tells p (property key others) (elim (change_at key own) as (λ x. Option Change) [
            | none ↦ change_at key (added fields others)
            | some c ↦ some c
          ]))
          (sym has)
          (subst (Tells (some value) (property key others))
            (sym (picked (change_at key own) _ quiet)) told)

quiet-At :
    (key : String) (rest others : Members) (later : Changes)
    → property key rest ≡ none
    → At key rest others later
    → change_at key later ≡ none
quiet-At key rest others later lacks (inl (e, quiet)) = quiet
quiet-At key rest others later lacks (inr (v, has, t)) = cc (lacks, has)

-- A name more, in front
noted-At :
    (key k : String) (value : Value) (rest others : Members) (here : Option Change)
    (later : Changes)
    → property k rest ≡ none
    → Tells (some value) (property k others) here
    → At key rest others later
    → At key (member k value rest) others (noted k here later)
unfolding property
noted-At key k value rest others here later fresh told at = elim (Bool-cases (k == key)) [
  | inl equal ↦
      (let known : k ≡ key = (eq_iff k key).0 equal in
        let quiet : change_at key later ≡ none =
          quiet-At key rest others later (ap (λ n. property n rest) (sym known) ∙ fresh) at in
        inr (
          value,
          ap (λ b. if b then some value else property key rest) equal,
          subst (Tells (some value) (property key others))
              (sym (noted-same k key here later equal quiet))
              (subst (λ n. Tells (some value) (property n others) here) known told),
        ))
  | inr apart ↦
      (let behind : (if k == key then some value else property key rest) ≡ property key rest =
          ap (λ b. if b then some value else property key rest) apart in
        elim at [
          | inl (lacks, quiet) ↦ inl (behind ∙ lacks, noted-apart k key here later apart ∙ quiet)
          | inr (v, has, t) ↦ inr (
            v,
            behind ∙ has,
            subst (Tells (some v) (property key others)) (sym (noted-apart k key here later apart))
                t,
          )
        ])
]

mutual
  unfolding changed differences property change_at Distinct

  changed-Tells :
      (value : Value) (other : Option Value) (c : Option Change)
      → IsDistinct value
      → changed value other ≡ ok c
      → Tells (some value) other c
  changed-Tells null other c d e = plain-Tells null other c refl refl (ok-injective e)
  changed-Tells (truth b) other c d e = plain-Tells (truth b) other c refl refl (ok-injective e)
  changed-Tells (number n) other c d e = plain-Tells (number n) other c refl refl (ok-injective e)
  changed-Tells (text t) other c d e = plain-Tells (text t) other c refl refl (ok-injective e)
  changed-Tells (nest fields) none c d e =
      subst (Tells _ _) (ok-injective e) (new _ _ (λ h. cc) refl)
  changed-Tells (nest fields) (some null) c d e = cc
  changed-Tells (nest fields) (some (truth b)) c d e =
      subst (Tells _ _) (ok-injective e) (new _ _ (λ h. cc) refl)
  changed-Tells (nest fields) (some (number n)) c d e =
      subst (Tells _ _) (ok-injective e) (new _ _ (λ h. cc) refl)
  changed-Tells (nest fields) (some (text t)) c d e =
      subst (Tells _ _) (ok-injective e) (new _ _ (λ h. cc) refl)
  changed-Tells (nest fields) (some (nest others)) c d e =
      let (inner, made, rest) =
        >>=-eq-ok (differences fields others)
          (λ found. ok (some (within (join_changes found (added fields others))))) c e in
      subst (Tells (some (nest fields)) (some (nest others))) (ok-injective rest) (
        inside fields others (join_changes inner (added fields others))
          (λ key. At-Tells key fields others inner (members-At fields others inner d made key)))

  members-At :
      (fields others : Members) (own : Changes)
      → Distinct fields
      → differences fields others ≡ ok own
      → (key : String) → At key fields others own
  members-At no_members others own d e key = inl (refl, ap (change_at key) (sym (ok-injective e)))
  members-At (member k value rest) others own (fresh, d, ds) e key =
      let (here, first, e1) =
        >>=-eq-ok (changed value (property k others))
          (λ c. differences rest others >>= λ later. ok (noted k c later)) own e in
      let (later, second, e2) =
        >>=-eq-ok (differences rest others) (λ changes. ok (noted k here changes)) own e1 in
      subst (At key (member k value rest) others) (ok-injective e2) (
        noted-At key k value rest others here later fresh
          (changed-Tells value (property k others) here d first)
          (members-At rest others later ds second key))

-- What `difference` returns says of each property, and of those inside objects that are in both:
-- nothing where the values are the same, and the new value, or its absence, only where they differ.
-- The first object has each name once, and so have the objects in it.
pub difference-Tells :
    (fields others : Members) (changes : Changes)
    → Distinct fields
    → difference fields others ≡ ok changes
    → (key : String) → Tells (property key fields) (property key others) (change_at key changes)
unfolding difference
difference-Tells fields others changes distinct e key =
    let (own, made, rest) =
      >>=-eq-ok (differences fields others) (λ found. ok (join_changes found (added fields others)))
        changes e in
    subst (λ c. Tells (property key fields) (property key others) (change_at key c))
      (ok-injective rest)
      (At-Tells key fields others own (members-At fields others own distinct made key))
