-- ===== src/Rtd/Node.antt =====
-- extensions/exposition/source/RTD/{Node,Route,Match}.ts: nodes, routes and matching.
-- The methods of a node are of any type `M`; `Merge` has the operations that change a tree.
pub mod Order
pub mod Paths
pub mod Complete
use kookaburra.Prelude.{
  ℕ, zero, suc, ◌+◌, String, Bool, true, false, not, ◌&&◌, ◌||◌, Option, none, some, List, [], ◌∷◌,
  ◌++◌, length, drop, leb, nat_eq, ◌==◌, if◌then◌else◌,
}
use kookaburra.Rtd.Segment.{Segment, literal, variable}

mutual
  -- `node intermediate forward methods protected routes`
  pub data Node (M : Type 0) : Type 0 where
    node : Bool → Option String → List (String × M) → Bool → Routes M → Node M

  -- `root` and `variables`, which the constructor of Route derives, are functions below.
  pub data Route (M : Type 0) : Type 0 where
    route : List Segment → Node M → Route M

  pub data Routes (M : Type 0) : Type 0 where
    nil : Routes M
    cons : Route M → Routes M → Routes M

-- A parameter's value is `none` where the source pushes `fragments[i]` past the end: undefined.
abbrev pub Params : Type 0
Params = List (String × Option String)

-- `segment.fragment === null`, counted
unfoldable pub count_variables : List Segment → ℕ
count_variables [] = 0
count_variables (literal text ∷ segments) = count_variables segments
count_variables (variable placeholder ∷ segments) = suc (count_variables segments)

-- The first part of `Route.match`: the segments against the fragments, collecting parameters.
unfoldable pub bind : List Segment → List String → Params → Option Params
bind [] fragments params = some params
bind (literal text ∷ segments) [] params = none
bind (literal text ∷ segments) (f ∷ fragments) params =
    if text == f then bind segments fragments params else none
bind (variable none ∷ segments) [] params = bind segments [] params
bind (variable none ∷ segments) (f ∷ fragments) params = bind segments fragments params
bind (variable (some name) ∷ segments) [] params = bind segments [] (params ++ (name, none) ∷ [])
bind (variable (some name) ∷ segments) (f ∷ fragments) params =
    bind segments fragments (params ++ (name, some f) ∷ [])

module _ {M : Type 0} where
  abbrev pub intermediate : Node M → Bool
  intermediate (node i forward methods protected routes) = i

  abbrev pub forward : Node M → Option String
  forward (node i f methods protected routes) = f

  abbrev pub methods : Node M → List (String × M)
  methods (node i f ms protected routes) = ms

  abbrev pub protected : Node M → Bool
  protected (node i f ms p routes) = p

  abbrev pub routes_of : Node M → Routes M
  routes_of (node i f ms p rs) = rs

  abbrev pub segments_of : Route M → List Segment
  segments_of (route segments target) = segments

  abbrev pub root : Route M → Bool
  root r = nat_eq (length (segments_of r)) 0

  unfoldable pub variables : Route M → ℕ
  unfolding count_variables
  variables r = count_variables (segments_of r)

  -- `routes.findIndex((route) => route.root) !== -1`
  unfoldable pub has_root : Routes M → Bool
  has_root nil = false
  has_root (cons r rs) = root r || has_root rs

  -- The comparator of `Node.sort` is not positive: `a` may stand before `b`.
  unfoldable pub ordered : Route M → Route M → Bool
  unfolding variables
  ordered a b =
      if nat_eq (variables a) (variables b)
      then leb (length (segments_of b)) (length (segments_of a))
      else leb (variables a) (variables b)

  unfoldable pub place_sorted : Route M → Routes M → Routes M
  place_sorted r nil = cons r nil
  place_sorted r (cons s rs) =
      if ordered r s then cons r (cons s rs) else cons s (place_sorted r rs)

  -- `Array.prototype.sort`, which is stable, with that comparator
  unfoldable pub sort : Routes M → Routes M
  unfolding place_sorted ordered
  sort nil = nil
  sort (cons r rs) = place_sorted r (sort rs)

  -- The constructor of Node.
  unfoldable pub new_node : Routes M → List (String × M) → Bool → Option String → Node M
  unfolding sort has_root
  new_node rs ms p f = node (has_root rs) f ms p (sort rs)

pub record Match (M : Type 0) : Type 0 where
  pub target : Node M
  pub parameters : Params

-- `Route.match` of a route to `target`, given how its `matchNested` ends from the parameters.
unfoldable pub try_route :
    {M : Type 0}
    → Bool
    → List Segment
    → List String
    → Params
    → (Params → M)
    → (Params → Option M)
    → Option M
unfolding bind
try_route is_intermediate segments fragments params exact nested =
    elim (bind segments fragments params) [
      | none ↦ none
      | some bound ↦
          if nat_eq (length segments) (length fragments) && not is_intermediate
          then some (exact bound)
          else nested bound
    ]

-- The loop of `Node.match` returns the first match.
unfoldable pub or_later : {A : Type 0} → Option A → Option A → Option A
or_later none rest = rest
or_later (some found) rest = some found

unfoldable mutual
  pub match_node : {M : Type 0} → Node M → List String → Params → Option (Match M)
  match_node (node i f ms p rs) fragments params = match_routes rs fragments params

  pub match_routes : {M : Type 0} → Routes M → List String → Params → Option (Match M)
  match_routes nil fragments params = none
  match_routes (cons r rs) fragments params =
      or_later (match_route r fragments params) (match_routes rs fragments params)

  pub match_route : {M : Type 0} → Route M → List String → Params → Option (Match M)
  match_route (route segments target) fragments params =
      try_route (intermediate target) segments fragments params
        (λ bound. record { target = target; parameters = bound })
        (λ bound. match_node target (drop (length segments) fragments) bound)
