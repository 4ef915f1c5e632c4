-- ===== src/Rtd/Merge.antt =====
-- extensions/exposition/source/RTD/{Node,Route}.ts: merging a branch into the tree. Closing the
-- methods that `replace` drops is an effect on remote components and is left out.
pub mod Laws
pub mod Keeps
use kookaburra.Prelude.{
  String, Bool, true, false, ◌&&◌, Option, none, some, List, [], ◌∷◌, ◌==◌, if◌then◌else◌,
}
use kookaburra.Dict.{assign}
use kookaburra.Rtd.Segment.{Segment, literal, variable}
use kookaburra.Rtd.Node.{
  Node, node, Route, route, Routes, nil, cons, segments_of, routes_of, methods, forward, protected,
  sort,
}

-- `this.segments[i].fragment !== route.segments[i].fragment`, with `null` for a variable
unfoldable pub same_fragment : Segment → Segment → Bool
same_fragment (literal a) (literal b) = a == b
same_fragment (literal a) (variable b) = false
same_fragment (variable a) (literal b) = false
same_fragment (variable a) (variable b) = true

-- `Route.equals`: placeholders are not compared.
unfoldable pub equal_segments : List Segment → List Segment → Bool
unfolding same_fragment
equal_segments [] [] = true
equal_segments [] (b ∷ bs) = false
equal_segments (a ∷ as') [] = false
equal_segments (a ∷ as') (b ∷ bs) = same_fragment a b && equal_segments as' bs

module _ {M : Type 0} where
  unfoldable pub equals : Route M → Route M → Bool
  unfolding equal_segments
  equals a b = equal_segments (segments_of a) (segments_of b)

  -- `Node.route`, given how the candidate is merged into a route that equals it
  unfoldable pub place : Route M → (Route M → Route M) → Routes M → Routes M
  unfolding equals
  place candidate merged nil = cons candidate nil
  place candidate merged (cons r rs) =
      if equals candidate r then cons (merged r) rs else cons r (place candidate merged rs)

  -- The route after a change of its node.
  unfoldable pub with_target : Route M → (Node M → Node M) → Route M
  with_target (route segments target) change = route segments (change target)

unfoldable mutual
  pub merge : {M : Type 0} → Node M → Node M → Node M
  merge this (node i f ms p rs) =
      let appended = append (routes_of this) rs in
      if protected this
      then node i (forward this) (assign (methods this) ms) true (sort appended)
      else node i (forward this) ms false (sort rs)

  -- The routes of `Node.append`.
  pub append : {M : Type 0} → Routes M → Routes M → Routes M
  append into nil = into
  append into (cons candidate rs) = append (place candidate (λ r. merge_route r candidate) into) rs

  -- `Route.merge`
  pub merge_route : {M : Type 0} → Route M → Route M → Route M
  merge_route this (route segments target) = with_target this (λ own. merge own target)
