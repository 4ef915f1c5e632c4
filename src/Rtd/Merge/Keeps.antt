-- ===== src/Rtd/Merge/Keeps.antt =====
-- What a protected node keeps when a branch is appended to it.
use kookaburra.Prelude.{
  String, Bool, true, false, none, List, [], ◌∷◌, ◌≡◌, ◌≢◌, refl, sym, ap, arith, Bool-cases, ◌⊎◌,
  inl, inr, eq_refl,
}
use kookaburra.Dict.{lookup, lookup-assign-none, lookup-assign_some}
use kookaburra.Rtd.Segment.{Segment, literal, variable}
use kookaburra.Rtd.Node.{
  Node, node, Route, route, Routes, nil, cons, segments_of, routes_of, methods, protected, forward,
  place_sorted, sort, ordered,
}
use kookaburra.Rtd.Merge.{with_target, equal_segments, equals, place, merge, append, merge_route}
use kookaburra.Rtd.Merge.Laws.{segments_of-merge_route}
use mathlib.Core.Path.{subst}

-- One of the routes has the property.
abbrev pub Some : {M : Type 0} → (Route M → Type 0) → Routes M → Type 0
Some P nil = ⊥
Some P (cons r rs) = P r ⊎ Some P rs

abbrev pub node_behind : {M : Type 0} → Route M → Node M
node_behind (route segments target) = target

-- A node that nodes of a branch are merged into, one after another, or none
pub data Grown {M : Type 0} (Branch : Node M → Type 0) (own : Node M) : Node M → Type 0 where
  alone : Grown Branch own own
  merged : (x other : Node M) → Grown Branch own x → Branch other → Grown Branch own (merge x other)

equal_segments_refl : (segs : List Segment) → equal_segments segs segs ≡ true
unfolding equal_segments
equal_segments_refl [] = refl
equal_segments_refl (literal text ∷ segs) = ground (arith, eq_refl text, equal_segments_refl segs)
equal_segments_refl (variable name ∷ segs) = equal_segments_refl segs

module _ {M : Type 0} (P : Route M → Type 0) where
  place_sorted-Some : (r : Route M) (rs : Routes M) → P r ⊎ Some P rs → Some P (place_sorted r rs)
  unfolding place_sorted
  place_sorted-Some r nil h = h
  place_sorted-Some r (cons s rs) h = elim (Bool-cases (ordered r s)) [
    | inl e ↦ rw e h
    | inr e ↦ rw e (elim h [
      | inl at_r ↦ inr (place_sorted-Some r rs (inl at_r))
      | inr (inl at_s) ↦ inl at_s
      | inr (inr deep) ↦ inr (place_sorted-Some r rs (inr deep))
    ])
  ]

  sort-Some : (rs : Routes M) → Some P rs → Some P (sort rs)
  unfolding sort
  sort-Some nil h = h
  sort-Some (cons r rs) (inl h) = place_sorted-Some r (sort rs) (inl h)
  sort-Some (cons r rs) (inr h) = place_sorted-Some r (sort rs) (inr (sort-Some rs h))

  -- A property that merging keeps, or that no route has which the candidate is merged into
  place-Some :
      (candidate : Route M) (change : Route M → Route M) (rs : Routes M)
      → ((r : Route M) → equals candidate r ≡ true → P r → P (change r))
      → Some P rs
      → Some P (place candidate change rs)
  unfolding place
  place-Some candidate change nil f h = absurd h
  place-Some candidate change (cons r rs) f h = elim (Bool-cases (equals candidate r)) [
    | inl e ↦ rw e (elim h [ inl here ↦ inl (f r e here) | inr deep ↦ inr deep ])
    | inr e ↦
        rw e
          (elim h [ inl here ↦ inl here | inr deep ↦ inr (place-Some candidate change rs f deep) ])
  ]

  append-Some :
      (into rs : Routes M)
      → ((r : Route M) (segs : List Segment) (target : Node M)
          → Some (λ s. s ≡ route segs target) rs
          → equals (route segs target) r ≡ true
          → P r
          → P (merge_route r (route segs target)))
      → Some P into
      → Some P (append into rs)
  unfolding merge
  append-Some into nil f h = h
  append-Some into (cons (route segs target) rs) f h =
      append-Some (place (route segs target) (λ r. merge_route r (route segs target)) into) rs
        (λ r other t there. f r other t (inr there))
        (place-Some (route segs target) _ into (λ r. f r segs target (inl refl)) h)

place-candidate :
    {M : Type 0} (candidate : Route M) (change : Route M → Route M) (rs : Routes M)
    → ((r : Route M) → segments_of (change r) ≡ segments_of r)
    → Some
        (λ r. equal_segments (segments_of candidate) (segments_of r) ≡ true)
        (place candidate change rs)
unfolding place equals
place-candidate candidate change nil f = inl (equal_segments_refl (segments_of candidate))
place-candidate candidate change (cons r rs) f = elim (Bool-cases (equals candidate r)) [
  | inl e ↦ rw e (inl (rw (f r) e))
  | inr e ↦ rw e (inr (place-candidate candidate change rs f))
]

append-candidates :
    {M : Type 0} (into rs : Routes M) (segs : List Segment)
    → Some (λ r. segments_of r ≡ segs) rs
    → Some (λ r. equal_segments segs (segments_of r) ≡ true) (append into rs)
unfolding merge
append-candidates into nil segs h = absurd h
append-candidates {M} into (cons (route segments target) rs) segs (inl same) =
    append-Some (λ r. equal_segments segs (segments_of r) ≡ true)
      (place (route segments target) (λ r. merge_route r (route segments target)) into) rs
      (λ r other t there e held.
        subst (λ s. equal_segments segs s ≡ true) (sym (segments_of-merge_route r other t)) held)
      (subst
        (λ x.
          Some (λ (r : Route M). equal_segments x (segments_of r) ≡ true)
            (place (route segments target) (λ r. merge_route r (route segments target)) into))
        same
        (place-candidate (route segments target) (λ r. merge_route r (route segments target)) into
          (λ r. segments_of-merge_route r segments target)))
append-candidates into (cons (route segments target) rs) segs (inr deep) =
    append-candidates
      (place (route segments target) (λ r. merge_route r (route segments target)) into) rs segs deep

-- A node that is one of the routes' own
abbrev pub Behind : {M : Type 0} → Routes M → Node M → Type 0
Behind rs other = Some (λ r. node_behind r ≡ other) rs

-- A route with the segments, and behind it the node that the branch's are merged into
abbrev pub GrownRoute : {M : Type 0} → Routes M → List Segment → Node M → Route M → Type 0
GrownRoute branch segs target r =
    (segments_of r ≡ segs) × Grown (Behind branch) target (node_behind r)

merge_route-GrownRoute :
    {M : Type 0} (branch : Routes M) (segs : List Segment) (target : Node M) (r : Route M)
    (other : List Segment) (t : Node M)
    → Behind branch t
    → GrownRoute branch segs target r
    → GrownRoute branch segs target (merge_route r (route other t))
unfolding merge with_target
merge_route-GrownRoute branch segs target (route own x) other t there (same, grown) =
    (same, merged x t grown there)

target-Some :
    {M : Type 0} (rs : Routes M) (segs : List Segment) (t : Node M)
    → Some (λ r. r ≡ route segs t) rs
    → Behind rs t
target-Some nil segs t h = absurd h
target-Some (cons r rs) segs t (inl same) = inl (ap node_behind same)
target-Some (cons r rs) segs t (inr deep) = inr (target-Some rs segs t deep)

own-Some :
    {M : Type 0} (branch rs : Routes M) (segs : List Segment) (target : Node M)
    → Some (λ r. r ≡ route segs target) rs
    → Some (GrownRoute branch segs target) rs
own-Some branch nil segs target h = absurd h
own-Some branch (cons r rs) segs target (inl same) =
    inl (subst (GrownRoute branch segs target) (sym same) (refl, alone))
own-Some branch (cons r rs) segs target (inr deep) = inr (own-Some branch rs segs target deep)

-- What a protected node has after a merge. It stays protected, with its own path of forwarding. Each
-- of its routes is there, and behind it the node that it had, with nodes of the branch merged into
-- it, and as it was where no route of the branch equals it; there is a route for each of the
-- branch; and its methods are those of the branch and its own that the branch does not name.
pub record Keeps {M : Type 0} (this branch merged : Node M) : Type 0 where
  pub protection : protected merged ≡ true
  pub forwarding : forward merged ≡ forward this
  pub own :
      (segs : List Segment) (target : Node M)
      → Some (λ r. r ≡ route segs target) (routes_of this)
      → Some (GrownRoute (routes_of branch) segs target) (routes_of merged)
  pub untouched :
      (r : Route M)
      → Some (λ s. s ≡ r) (routes_of this)
      → ((segs : List Segment) (target : Node M)
          → Some (λ s. s ≡ route segs target) (routes_of branch)
          → equals (route segs target) r ≡ false)
      → Some (λ s. s ≡ r) (routes_of merged)
  pub added :
      (segs : List Segment)
      → Some (λ r. segments_of r ≡ segs) (routes_of branch)
      → Some (λ r. equal_segments segs (segments_of r) ≡ true) (routes_of merged)
  pub own_methods :
      (verb : String)
      → lookup verb (methods branch) ≡ none
      → lookup verb (methods merged) ≡ lookup verb (methods this)
  pub added_methods :
      (verb : String) → lookup verb (methods branch) ≢ none → lookup verb (methods merged) ≢ none

clash : {A : Type 0} {b : Bool} → b ≡ true → b ≡ false → A
clash h k = cc

-- A protected node that a branch is merged into stays protected and keeps where it forwards to; it
-- keeps its routes by their segments, each with the node behind it, which only nodes of the branch
-- were merged into, and as it was where no route of the branch has equal segments; it has a
-- route for each of the branch, with equal segments; and it keeps the methods whose verbs the branch
-- does not name, and has one for each verb that the branch names.
pub merge-Keeps :
    {M : Type 0} (this branch : Node M)
    → protected this ≡ true
    → Keeps this branch (merge this branch)
unfolding merge
merge-Keeps this (node i f ms p rs) e = rw e (record {
  protection = refl;
  forwarding = refl;
  own = λ segs target h. sort-Some (GrownRoute rs segs target) _ (
      append-Some (GrownRoute rs segs target) (routes_of this) rs
        (λ r other t there equal.
          merge_route-GrownRoute rs segs target r other t (target-Some rs other t there))
        (own-Some rs (routes_of this) segs target h));
  untouched = λ r h apart.
      sort-Some (λ s. s ≡ r) _
        (append-Some (λ s. s ≡ r) (routes_of this) rs
          (λ s other t there equal same.
            clash (subst (λ x. equals (route other t) x ≡ true) same equal) (apart other t there))
          h);
  added = λ segs h.
      sort-Some (λ r. equal_segments segs (segments_of r) ≡ true) _
        (append-candidates (routes_of this) rs segs h);
  own_methods = λ verb h. lookup-assign-none verb (methods this) ms h;
  added_methods = λ verb h. lookup-assign_some verb (methods this) ms h;
})
