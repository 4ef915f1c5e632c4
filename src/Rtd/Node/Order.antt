-- ===== src/Rtd/Node/Order.antt =====
-- `Node.sort`: the order in which a node tries its routes.
use mathlib.Core.List.{Perm}
use mathlib.Core.List.Perm
use kookaburra.Prelude.{
  ◌≤◌, ◌<◌, true, false, ◌||◌, List, [], ◌∷◌, length, ◌≡◌, refl, arith, Bool-cases, ◌⊎◌, inl, inr,
}
use kookaburra.Rtd.Node.{
  Route, Routes, nil, cons, segments_of, variables, root, has_root, ordered, place_sorted, sort,
}

module _ {M : Type 0} where
  abbrev pub to_list : Routes M → List (Route M)
  to_list nil = []
  to_list (cons r rs) = r ∷ to_list rs

  -- `a` is tried before `b`: it has fewer variables, or as many and no fewer segments.
  abbrev pub Before : Route M → Route M → Type 0
  Before a b =
      (variables a < variables b)
      ⊎ ((variables a ≡ variables b) × (length (segments_of b) ≤ length (segments_of a)))

  abbrev AllAfter : Route M → Routes M → Type 0
  AllAfter a nil = Unit
  AllAfter a (cons b rs) = Before a b × AllAfter a rs

  -- Each route stands before all later ones.
  abbrev pub IsSorted : Routes M → Type 0
  IsSorted nil = Unit
  IsSorted (cons a rs) = AllAfter a rs × IsSorted rs

  ordered-Before : (a b : Route M) → ordered a b ≡ true → Before a b
  unfolding ordered
  ordered-Before a b h = ground arith

  ordered-After : (a b : Route M) → ordered a b ≡ false → Before b a
  unfolding ordered
  ordered-After a b h = ground arith

  Before-trans : (a b c : Route M) → Before a b → Before b c → Before a c
  Before-trans a b c h k = ground arith

  AllAfter-trans : (a b : Route M) (rs : Routes M) → Before a b → AllAfter b rs → AllAfter a rs
  AllAfter-trans a b nil h k = tt
  AllAfter-trans a b (cons c rs) h (k, ks) = (Before-trans a b c h k, AllAfter-trans a b rs h ks)

  AllAfter-place :
      (a r : Route M) (rs : Routes M) → Before a r → AllAfter a rs → AllAfter a (place_sorted r rs)
  unfolding place_sorted
  AllAfter-place a r nil h k = (h, tt)
  AllAfter-place a r (cons s rs) h (k, ks) = elim (Bool-cases (ordered r s)) [
    | inl e ↦ rw e (h, (k, ks))
    | inr e ↦ rw e (k, AllAfter-place a r rs h ks)
  ]

  place-IsSorted : (r : Route M) (rs : Routes M) → IsSorted rs → IsSorted (place_sorted r rs)
  unfolding place_sorted
  place-IsSorted r nil h = (tt, tt)
  place-IsSorted r (cons s rs) (h, hs) = elim (Bool-cases (ordered r s)) [
    | inl e ↦ rw e ((ordered-Before r s e, AllAfter-trans r s rs (ordered-Before r s e) h), (h, hs))
    | inr e ↦ rw e (AllAfter-place s r rs (ordered-After r s e) h, place-IsSorted r rs hs)
  ]

  sort-IsSorted : (rs : Routes M) → IsSorted (sort rs)
  unfolding sort
  sort-IsSorted nil = tt
  sort-IsSorted (cons r rs) = place-IsSorted r (sort rs) (sort-IsSorted rs)

  place-perm : (r : Route M) (rs : Routes M) → Perm (to_list (place_sorted r rs)) (r ∷ to_list rs)
  unfolding place_sorted
  place-perm r nil = Perm.refl _
  place-perm r (cons s rs) = elim (Bool-cases (ordered r s)) [
    | inl e ↦ rw e (Perm.refl _)
    | inr e ↦ rw e (Perm.trans (Perm.cons _ (place-perm r rs)) (Perm.swap _ _ _))
  ]

  sort-perm : (rs : Routes M) → Perm (to_list (sort rs)) (to_list rs)
  unfolding sort
  sort-perm nil = Perm.refl _
  sort-perm (cons r rs) = Perm.trans (place-perm r (sort rs)) (Perm.cons _ (sort-perm rs))

  -- The routes of a sorted node are those that it had, ordered so that one with fewer variables
  -- comes first, and of those with as many the one with more segments.
  pub sort_lem : (rs : Routes M) → IsSorted (sort rs) × Perm (to_list (sort rs)) (to_list rs)
  sort_lem rs = (sort-IsSorted rs, sort-perm rs)

  -- A route that comes before all others is placed at their head.
  place-AllAfter : (r : Route M) (rs : Routes M) → AllAfter r rs → place_sorted r rs ≡ cons r rs
  unfolding place_sorted ordered
  place-AllAfter r nil h = refl
  place-AllAfter r (cons s rs) (h, hs) = ground arith

  pub sort-sorted : (rs : Routes M) → IsSorted rs → sort rs ≡ rs
  unfolding sort
  sort-sorted nil h = refl
  sort-sorted (cons r rs) (h, hs) = rw (sort-sorted rs hs) (place-AllAfter r rs h)

  has_root-place :
      (r : Route M) (rs : Routes M) → has_root (place_sorted r rs) ≡ (root r || has_root rs)
  unfolding has_root place_sorted
  has_root-place r nil = refl
  has_root-place r (cons s rs) = ground (arith, has_root-place r rs)

  pub has_root-sort : (rs : Routes M) → has_root (sort rs) ≡ has_root rs
  unfolding has_root sort
  has_root-sort nil = refl
  has_root-sort (cons r rs) = ground (arith, has_root-place r (sort rs), has_root-sort rs)
