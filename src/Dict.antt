-- ===== src/Dict.antt =====
-- Plain objects as maps from names: association lists in insertion order, a write to a present
-- key keeping its place.
use kookaburra.Prelude.{
  String, ◌≡◌, refl, Option, none, some, List, [], ◌∷◌, if◌then◌else◌, arith, ◌==◌, eq_iff, map,
  ◌≢◌, Bool-cases, inl, inr, ◌∙◌,
}

module _ {ℓ} {V : Type ℓ} where
  unfoldable pub lookup : String → List (String × V) → Option V
  lookup key [] = none
  lookup key ((k, v) ∷ dict) = if k == key then some v else lookup key dict

  -- `dict[key] = value`
  unfoldable pub insert : String → V → List (String × V) → List (String × V)
  insert key value [] = (key, value) ∷ []
  insert key value ((k, v) ∷ dict) =
      if k == key then (key, value) ∷ dict else (k, v) ∷ insert key value dict

  -- `delete dict[key]`
  unfoldable pub delete : String → List (String × V) → List (String × V)
  delete key [] = []
  delete key ((k, v) ∷ dict) =
      let rest = delete key dict in if k == key then rest else (k, v) ∷ rest

  -- `Object.keys(dict)`
  abbrev pub keys : List (String × V) → List String
  keys dict = map (λ entry. entry.0) dict

  -- `Object.assign(dict, entries)`
  unfoldable pub assign : List (String × V) → List (String × V) → List (String × V)
  assign dict [] = dict
  assign dict ((k, v) ∷ entries) = assign (insert k v dict) entries

  pub lookup-insert :
      (key other : String) (value : V) (dict : List (String × V))
      → lookup other (insert key value dict)
        ≡ (if key == other then some value else lookup other dict)
  unfolding lookup insert
  lookup-insert key other value [] = refl
  lookup-insert key other value ((k, v) ∷ dict) =
      ground
        (arith, eq_iff key other, eq_iff k key, eq_iff k other, lookup-insert key other value dict)

  pub lookup-delete :
      (key other : String) (dict : List (String × V))
      → lookup other (delete key dict) ≡ (if key == other then none else lookup other dict)
  unfolding lookup delete
  lookup-delete key other [] = ground arith
  lookup-delete key other ((k, v) ∷ dict) =
      ground (arith, eq_iff key other, eq_iff k key, eq_iff k other, lookup-delete key other dict)

  -- What is not assigned is kept.
  pub lookup-assign-none :
      (key : String) (dict entries : List (String × V))
      → lookup key entries ≡ none
      → lookup key (assign dict entries) ≡ lookup key dict
  unfolding lookup assign
  lookup-assign-none key dict [] h = refl
  lookup-assign-none key dict ((k, v) ∷ entries) h = elim (Bool-cases (k == key)) [
    | inl same ↦ cc (rw same at h)
    | inr other ↦
        lookup-assign-none key (insert k v dict) entries (rw other at h)
        ∙ ground (arith, lookup-insert k key v dict)
  ]

  lookup-assign_kept :
      (key : String) (dict entries : List (String × V))
      → lookup key dict ≢ none
      → lookup key (assign dict entries) ≢ none
  unfolding assign
  lookup-assign_kept key dict [] h = h
  lookup-assign_kept key dict ((k, v) ∷ entries) h =
      lookup-assign_kept key (insert k v dict) entries (ground (arith, lookup-insert k key v dict))

  -- What is assigned is there.
  pub lookup-assign_some :
      (key : String) (dict entries : List (String × V))
      → lookup key entries ≢ none
      → lookup key (assign dict entries) ≢ none
  unfolding lookup assign
  lookup-assign_some key dict [] h = absurd (h refl)
  lookup-assign_some key dict ((k, v) ∷ entries) h = elim (Bool-cases (k == key)) [
    | inl same ↦
        lookup-assign_kept key (insert k v dict) entries
          (ground (arith, lookup-insert k key v dict))
    | inr other ↦ lookup-assign_some key (insert k v dict) entries (rw other at h)
  ]
