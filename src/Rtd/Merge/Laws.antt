-- ===== src/Rtd/Merge/Laws.antt =====
-- What merging a branch keeps and what it loses.
use kookaburra.Prelude.{
  String, Bool, true, false, ◌||◌, Option, List, [], ◌∷◌, if◌then◌else◌, ◌≡◌, refl, ◌∙◌, arith,
  length, Bool-cases, inl, inr,
}
use kookaburra.Rtd.Segment.{Segment}
use kookaburra.Rtd.Node.{
  Node, node, Route, route, Routes, nil, cons, Params, segments_of, routes_of, methods, forward,
  protected, intermediate, root, has_root, place_sorted, sort, new_node, ordered, match_node,
}
use kookaburra.Rtd.Node.Order.{IsSorted, has_root-sort, sort-sorted}
use kookaburra.Rtd.Merge.{equal_segments, equals, place, with_target, merge, append, merge_route}

length-equal_segments :
    (as' bs : List Segment) → equal_segments as' bs ≡ true → length as' ≡ length bs
unfolding equal_segments
length-equal_segments [] [] h = refl
length-equal_segments [] (b ∷ bs) h = cc
length-equal_segments (a ∷ as') [] h = cc
length-equal_segments (a ∷ as') (b ∷ bs) h =
    omega (arith, length-equal_segments as' bs (ground arith))

mutual
  -- A node that is `intermediate` has a root route, and so have all nodes below it.
  pub data IsRooted {M : Type 0} : Node M → Type 0 where
    rooted :
        (i : Bool) (f : Option String) (ms : List (String × M)) (p : Bool) (rs : Routes M)
        → (i ≡ true → has_root rs ≡ true)
        → AllRooted rs
        → IsRooted (node i f ms p rs)

  pub data AllRooted {M : Type 0} : Routes M → Type 0 where
    none_left : AllRooted nil
    one_more :
        (segments : List Segment) (target : Node M) (rs : Routes M)
        → IsRooted target
        → AllRooted rs
        → AllRooted (cons (route segments target) rs)

module _ {M : Type 0} where
  pub segments_of-merge_route :
      (r : Route M) (segments : List Segment) (target : Node M)
      → segments_of (merge_route r (route segments target)) ≡ segments_of r
  unfolding merge with_target
  segments_of-merge_route (route own n) segments target = refl

  root-equals : (a b : Route M) → equals a b ≡ true → root a ≡ root b
  unfolding equals
  root-equals a b h = ground (arith, length-equal_segments (segments_of a) (segments_of b))

  has_root-place :
      (candidate : Route M) (merged : Route M → Route M) (rs : Routes M)
      → ((r : Route M) → segments_of (merged r) ≡ segments_of r)
      → has_root (place candidate merged rs) ≡ (has_root rs || root candidate)
  unfolding has_root place
  has_root-place candidate merged nil h = ground arith
  has_root-place candidate merged (cons r rs) h = elim (Bool-cases (equals candidate r)) [
    | inl e ↦ rw (e, h r) (ground (arith, root-equals candidate r e))
    | inr e ↦ rw e (ground (arith, has_root-place candidate merged rs h))
  ]

  AllRooted-place_sorted :
      (segments : List Segment) (target : Node M) (rs : Routes M)
      → IsRooted target
      → AllRooted rs
      → AllRooted (place_sorted (route segments target) rs)
  unfolding place_sorted
  AllRooted-place_sorted segments target nil t none_left = one_more segments target nil t none_left
  AllRooted-place_sorted segments target _ t (one_more own n rs h hs) =
      elim (Bool-cases (ordered (route segments target) (route own n))) [
        | inl e ↦ rw e (one_more segments target _ t (one_more own n rs h hs))
        | inr e ↦ rw e (one_more own n _ h (AllRooted-place_sorted segments target rs t hs))
      ]

  pub AllRooted-sort : (rs : Routes M) → AllRooted rs → AllRooted (sort rs)
  unfolding sort
  AllRooted-sort nil none_left = none_left
  AllRooted-sort _ (one_more segments target rs h hs) =
      AllRooted-place_sorted segments target (sort rs) h (AllRooted-sort rs hs)

  AllRooted-place :
      (segments : List Segment) (target : Node M) (merged : Route M → Route M) (rs : Routes M)
      → IsRooted target
      → ((own : List Segment) (n : Node M)
          → IsRooted n
          → (n' : Node M) × (merged (route own n) ≡ route own n') × IsRooted n')
      → AllRooted rs
      → AllRooted (place (route segments target) merged rs)
  unfolding place
  AllRooted-place segments target merged nil t f none_left =
      one_more segments target nil t none_left
  AllRooted-place segments target merged _ t f (one_more own n rs h hs) =
      elim (Bool-cases (equals (route segments target) (route own n))) [
        | inl e ↦ let (n', same, good) = f own n h in rw (e, same) (one_more own n' rs good hs)
        | inr e ↦ rw e (one_more own n _ h (AllRooted-place segments target merged rs t f hs))
      ]

pub has_root-append :
    {M : Type 0} (into rs : Routes M) → has_root (append into rs) ≡ (has_root into || has_root rs)
unfolding merge has_root
has_root-append into nil = ground arith
has_root-append into (cons (route segments target) rs) =
    has_root-append
      (place (route segments target) (λ r. merge_route r (route segments target)) into) rs
    ∙ ground (
      arith,
      has_root-place (route segments target) (λ r. merge_route r (route segments target)) into
          (λ r. segments_of-merge_route r segments target),
    )

or_true : (a : Bool) {b : Bool} → b ≡ true → (a || b) ≡ true
or_true a e = ground arith

routes_rooted : {M : Type 0} (n : Node M) → IsRooted n → AllRooted (routes_of n)
routes_rooted _ (rooted i f ms p rs h hs) = hs

-- Both ways of merging, with their facts.
merged-IsRooted :
    {M : Type 0} (keep i : Bool) (f : Option String) (grown ms : List (String × M))
    (appended rs : Routes M)
    → (i ≡ true → has_root appended ≡ true)
    → (i ≡ true → has_root rs ≡ true)
    → AllRooted appended
    → AllRooted rs
    → IsRooted (if keep then node i f grown true appended else node i f ms false rs)
merged-IsRooted true i f grown ms appended rs h k hs ks = rooted i f grown true appended h hs
merged-IsRooted false i f grown ms appended rs h k hs ks = rooted i f ms false rs k ks

mutual
  unfolding merge with_target

  merge-IsRooted' :
      {M : Type 0} (this branch : Node M)
      → IsRooted this
      → IsRooted branch
      → IsRooted (merge this branch)
  merge-IsRooted' this _ t (rooted i f ms p rs h hs) =
      merged-IsRooted (protected this) i (forward this) _ ms _ _
        (λ e.
          has_root-sort (append (routes_of this) rs)
          ∙ has_root-append (routes_of this) rs
          ∙ or_true (has_root (routes_of this)) (h e))
        (λ e. has_root-sort rs ∙ h e)
        (AllRooted-sort _ (append-AllRooted (routes_of this) rs (routes_rooted this t) hs))
        (AllRooted-sort rs hs)

  append-AllRooted :
      {M : Type 0} (into rs : Routes M) → AllRooted into → AllRooted rs → AllRooted (append into rs)
  append-AllRooted into _ t none_left = t
  append-AllRooted into _ t (one_more segments target rs h hs) =
      append-AllRooted
        (place (route segments target) (λ r. merge_route r (route segments target)) into) rs
        (AllRooted-place segments target _ into h
          (λ own n good. (merge n target, refl, merge-IsRooted' n target good h)) t)
        hs

-- In a tree where every intermediate node has a root route, merging a branch of that kind gives
-- such a tree again, at every depth.
pub merge-IsRooted :
    {M : Type 0} (this branch : Node M)
    → IsRooted this
    → IsRooted branch
    → IsRooted (merge this branch)
merge-IsRooted = merge-IsRooted'

-- A node that the constructor builds over rooted nodes is rooted.
pub new_node-IsRooted :
    {M : Type 0} (rs : Routes M) (ms : List (String × M)) (p : Bool) (f : Option String)
    → AllRooted rs
    → IsRooted (new_node rs ms p f)
unfolding new_node
new_node-IsRooted rs ms p f h =
    rooted (has_root rs) f ms p (sort rs) (λ e. has_root-sort rs ∙ e) (AllRooted-sort rs h)

-- Merging into a node that is not protected replaces it: it then matches exactly as the branch
-- does, and has the branch's methods, and its own `forward`.
pub merge-replaces :
    {M : Type 0} (this branch : Node M) (fragments : List String) (params : Params)
    → protected this ≡ false
    → IsSorted (routes_of branch)
    → (match_node (merge this branch) fragments params ≡ match_node branch fragments params)
      × (methods (merge this branch) ≡ methods branch)
      × (forward (merge this branch) ≡ forward this)
unfolding merge match_node
merge-replaces this (node i f ms p rs) fragments params e s =
    rw (e, sort-sorted rs s) (refl, refl, refl)

-- A flaw: a protected node with a root route is no longer intermediate once a branch without one
-- is merged, though it still has the route; `Route.match` then never reaches that route.
pub merge-forgets_root :
    {M : Type 0} (this branch : Node M)
    → protected this ≡ true
    → has_root (routes_of this) ≡ true
    → intermediate branch ≡ false
    → (intermediate (merge this branch) ≡ false) × (has_root (routes_of (merge this branch)) ≡ true)
unfolding merge
merge-forgets_root this (node i f ms p rs) e h k =
    rw e (k, has_root-sort _ ∙ has_root-append (routes_of this) rs ∙ ground arith)
