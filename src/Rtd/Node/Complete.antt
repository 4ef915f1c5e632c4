-- ===== src/Rtd/Node/Complete.antt =====
-- Which paths match: every path that leads somewhere, and, by a flaw of `Route.match`, some that
-- are too short.
use mathlib.Core.Path.{subst}
use kookaburra.Prelude.{
  ℕ, zero, suc, ◌+◌, String, Bool, true, false, Option, none, some, List, [], ◌∷◌, ◌++◌, length,
  drop, ◌==◌, ◌≡◌, ◌≢◌, refl, sym, ◌∙◌, ap, arith, eq_refl, Bool-cases, ◌⊎◌, inl, inr,
  length-append,
}
use kookaburra.Rtd.Segment.{Segment, literal, variable}
use kookaburra.Rtd.Node.{
  Node, node, Route, route, Routes, nil, cons, Params, bind, intermediate, routes_of, or_later,
  try_route, match_node, match_routes, match_route,
}
use kookaburra.Rtd.Node.Paths.{In, Leads, bind-append, first, later, stop, down}

-- Binding a sequence binds its first part.
bind-prefix :
    (segs more : List Segment) (fragments : List String) (params bound : Params)
    → bind (segs ++ more) fragments params ≡ some bound
    → (part : Params) × (bind segs fragments params ≡ some part)
unfolding bind
bind-prefix [] more fragments params bound e = (params, refl)
bind-prefix (literal text ∷ segs) more [] params bound e = cc
bind-prefix (literal text ∷ segs) more (f ∷ fragments) params bound e =
    elim (Bool-cases (text == f)) [
      | inl same ↦ rw same (bind-prefix segs more fragments params bound (rw same at e))
      | inr other ↦ cc (rw other at e)
    ]
bind-prefix (variable none ∷ segs) more [] params bound e = bind-prefix segs more [] params bound e
bind-prefix (variable none ∷ segs) more (f ∷ fragments) params bound e =
    bind-prefix segs more fragments params bound e
bind-prefix (variable (some name) ∷ segs) more [] params bound e =
    bind-prefix segs more [] (params ++ (name, none) ∷ []) bound e
bind-prefix (variable (some name) ∷ segs) more (f ∷ fragments) params bound e =
    bind-prefix segs more fragments (params ++ (name, some f) ∷ []) bound e

length-drop_add {ℓ} :
    {A : Type ℓ} (n k : ℕ) (xs : List A) → length xs ≡ n + k → length (drop n xs) ≡ k
length-drop_add zero k xs e = omega arith
length-drop_add (suc n) k [] e = absurd (omega arith)
length-drop_add (suc n) k (x ∷ xs) e = length-drop_add n k xs (omega arith)

or_later-some :
    {A : Type 0} (o rest : Option A) → (o ≢ none) ⊎ (rest ≢ none) → or_later o rest ≢ none
unfolding or_later
or_later-some none rest h = ground arith
or_later-some (some found) rest h = cc

try_route_exact :
    {M : Type 0} (segments : List Segment) (fragments : List String) (params bound : Params)
    (exact : Params → M) (nested : Params → Option M) (i : Bool)
    → bind segments fragments params ≡ some bound
    → ((length segments ≡ length fragments) × (i ≡ false)) ⊎ (nested bound ≢ none)
    → try_route i segments fragments params exact nested ≢ none
unfolding try_route
try_route_exact segments fragments params bound exact nested i e h =
    rw (e, try_route) (ground arith)

module _ {M : Type 0} where
  In-hit :
      (r : Route M) (rs : Routes M) (fragments : List String) (params : Params)
      → In r rs
      → match_route r fragments params ≢ none
      → match_routes rs fragments params ≢ none
  unfolding match_node
  In-hit r _ fragments params (first s rs e) h =
      or_later-some _ _ (inl (subst (λ x. match_route x fragments params ≢ none) e h))
  In-hit r _ fragments params (later s rs i) h =
      or_later-some _ _ (inr (In-hit r rs fragments params i h))

  match_node-routes :
      (n : Node M) (fragments : List String) (params : Params)
      → match_node n fragments params ≡ match_routes (routes_of n) fragments params
  unfolding match_node
  match_node-routes (node i f ms p rs) fragments params = refl

  match_route-exact :
      (whole : List Segment) (target : Node M) (fragments : List String) (params bound : Params)
      → bind whole fragments params ≡ some bound
      → length fragments ≡ length whole
      → intermediate target ≡ false
      → match_route (route whole target) fragments params ≢ none
  unfolding match_node
  match_route-exact whole target fragments params bound b l e =
      try_route_exact whole fragments params bound _ _ (intermediate target) b (inl (sym l, e))

  match_route-nested :
      (segs : List Segment) (via : Node M) (fragments : List String) (params bound : Params)
      → bind segs fragments params ≡ some bound
      → match_routes (routes_of via) (drop (length segs) fragments) bound ≢ none
      → match_route (route segs via) fragments params ≢ none
  unfolding match_node
  match_route-nested segs via fragments params bound b h =
      try_route_exact segs fragments params bound _ _ (intermediate via) b
        (inr (rw (match_node-routes via (drop (length segs) fragments) bound) h))

  -- A path with the fragments of a way through the tree is matched.
  pub match_routes_complete :
      (rs : Routes M) (whole : List Segment) (target : Node M) (fragments : List String)
      (params bound : Params)
      → Leads rs whole target
      → bind whole fragments params ≡ some bound
      → length fragments ≡ length whole
      → match_routes rs fragments params ≢ none
  match_routes_complete _ _ _ fragments params bound (stop rs whole target i e) b l =
      In-hit _ rs fragments params i (match_route-exact whole target fragments params bound b l e)
  match_routes_complete _ _ _ fragments params bound (down rs segs more whole via target i leads e)
        b l =
      let b' : bind (segs ++ more) fragments params ≡ some bound = rw e at b in
      let (part, hit) = bind-prefix segs more fragments params bound b' in
      let total : length fragments ≡ length segs + length more =
        l ∙ ap length e ∙ length-append segs more in
      In-hit _ rs fragments params i (
        match_route-nested segs via fragments params part hit (
          match_routes_complete (routes_of via) more target (drop (length segs) fragments) part
            bound leads (sym (bind-append segs more fragments params part hit) ∙ b')
            (length-drop_add (length segs) (length more) fragments total)))

-- A flaw: where the one route is `/a/:name` and its node has a root route, first and to a node that
-- is not intermediate, a path without the last fragment is matched as well, and the parameter is
-- bound to no value.
pub short_path :
    {M : Type 0} (text name : String) (f : Option String) (ms : List (String × M)) (p : Bool)
    (end : Node M) (rest : Routes M)
    → intermediate end ≡ false
    → match_routes
        (cons
          (route
            (literal text ∷ variable (some name) ∷ [])
            (node true f ms p (cons (route [] end) rest)))
          nil)
        (text ∷ [])
        []
      ≡ some (record { target = end; parameters = (name, none) ∷ [] })
unfolding match_node or_later try_route bind
short_path text name f ms p end rest e = ground (arith, eq_refl text)
