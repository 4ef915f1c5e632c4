-- ===== src/Sort.antt =====
-- `Array.prototype.sort`, which is stable, by a test that says when its first argument may stand
-- before its second.
use kookaburra.Prelude.{
  Bool, true, false, List, [], ◌∷◌, ◌++◌, if◌then◌else◌, ◌≡◌, refl, arith, Bool-cases, inl, inr,
  filter, not, ◌∙◌, ap, ◌||◌,
}

module _ {A : Type 0} (before : A → A → Bool) where
  unfoldable pub insert_by : A → List A → List A
  insert_by x [] = x ∷ []
  insert_by x (y ∷ ys) = if before x y then x ∷ y ∷ ys else y ∷ insert_by x ys

  unfoldable pub sort_by : List A → List A
  unfolding insert_by
  sort_by [] = []
  sort_by (x ∷ xs) = insert_by x (sort_by xs)

-- Elements of the first kind stand before the others, and else keep their places.
abbrev pub kind_first : {A : Type 0} → (A → Bool) → A → A → Bool
kind_first kind x y = kind x || not (kind y)

module _ {A : Type 0} (kind : A → Bool) where
  insert_first : (x : A) (xs : List A) → kind x ≡ true → insert_by (kind_first kind) x xs ≡ x ∷ xs
  unfolding insert_by
  insert_first x [] e = refl
  insert_first x (y ∷ ys) e = rw e refl

  insert_last :
      (x : A) (firsts others : List A)
      → kind x ≡ false
      → insert_by (kind_first kind) x (filter kind firsts ++ filter (λ y. not (kind y)) others)
        ≡ filter kind firsts ++ (x ∷ filter (λ y. not (kind y)) others)
  unfolding insert_by
  insert_last x [] [] e = refl
  insert_last x [] (y ∷ ys) e = elim (Bool-cases (kind y)) [
    | inl k ↦ rw k (insert_last x [] ys e)
    | inr k ↦ rw k (ground arith)
  ]
  insert_last x (z ∷ zs) others e = elim (Bool-cases (kind z)) [
    | inl k ↦ rw k (ground (arith, insert_last x zs others e))
    | inr k ↦ rw k (insert_last x zs others e)
  ]

  -- A stable sort by kind is a partition.
  pub sort_by-kind :
      (xs : List A) → sort_by (kind_first kind) xs ≡ filter kind xs ++ filter (λ y. not (kind y)) xs
  unfolding sort_by
  sort_by-kind [] = refl
  sort_by-kind (x ∷ xs) = elim (Bool-cases (kind x)) [
    | inl k ↦ ap (insert_by (kind_first kind) x) (sort_by-kind xs) ∙ insert_first x _ k ∙ rw k refl
    | inr k ↦
        ap (insert_by (kind_first kind) x) (sort_by-kind xs) ∙ insert_last x xs xs k ∙ rw k refl
  ]
