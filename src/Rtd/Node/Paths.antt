-- ===== src/Rtd/Node/Paths.antt =====
-- Matching against a declarative reading of a tree: the routes from its trunk to a node.
use kookaburra.Prelude.{
  ℕ, zero, suc, ◌+◌, ◌≤◌, String, Bool, false, Option, none, some, List, [], ◌∷◌, ◌++◌, length,
  drop, ◌≡◌, refl, ◌∙◌, arith, Option-cases, ◌⊎◌, inl, inr, length-append,
}
use mathlib.Core.Path.{subst}
use kookaburra.Rtd.Segment.{Segment, literal, variable}
use kookaburra.Rtd.Node.{
  Node, node, Route, route, Routes, nil, cons, Params, bind, Match, intermediate, routes_of,
  or_later, try_route, match_node, match_routes, match_route,
}

-- The route is one of the routes.
pub data In {M : Type 0} (r : Route M) : Routes M → Type 0 where
  first : (s : Route M) (rs : Routes M) → r ≡ s → In r (cons s rs)
  later : (s : Route M) (rs : Routes M) → In r rs → In r (cons s rs)

-- The segments `whole` lead from the routes to the node `target`: through one route, or through
-- one route and the routes of its node. A node with a root route is not a target itself.
pub data Leads {M : Type 0} : Routes M → List Segment → Node M → Type 0 where
  stop :
      (rs : Routes M) (whole : List Segment) (target : Node M)
      → In (route whole target) rs
      → intermediate target ≡ false
      → Leads rs whole target
  down :
      (rs : Routes M) (segments more whole : List Segment) (via target : Node M)
      → In (route segments via) rs
      → Leads (routes_of via) more target
      → whole ≡ segments ++ more
      → Leads rs whole target

module _ {M : Type 0} where
  Leads-later :
      (r : Route M) (rs : Routes M) (whole : List Segment) (target : Node M)
      → Leads rs whole target
      → Leads (cons r rs) whole target
  Leads-later r rs whole target (stop _ _ _ i e) = stop (cons r rs) whole target (later r rs i) e
  Leads-later r rs whole target (down _ segments more _ via _ i l e) =
      down (cons r rs) segments more whole via target (later r rs i) l e

drop-nil {ℓ} : {A : Type ℓ} (n : ℕ) → drop {A = A} n [] ≡ []
drop-nil zero = refl
drop-nil (suc n) = refl

length-drop {ℓ} : {A : Type ℓ} (n : ℕ) (xs : List A) → length xs ≤ n + length (drop n xs)
length-drop zero xs = omega arith
length-drop (suc n) [] = omega arith
length-drop (suc n) (x ∷ xs) = omega (arith, length-drop n xs)

-- Binding a sequence of segments is binding its parts in turn.
pub bind-append :
    (first_part more : List Segment) (fragments : List String) (params bound : Params)
    → bind first_part fragments params ≡ some bound
    → bind (first_part ++ more) fragments params
      ≡ bind more (drop (length first_part) fragments) bound
unfolding bind
bind-append [] more fragments params bound e = ground arith
bind-append (literal text ∷ segs) more [] params bound e = cc
bind-append (literal text ∷ segs) more (f ∷ fragments) params bound e =
    ground (arith, bind-append segs more fragments params bound)
bind-append (variable none ∷ segs) more [] params bound e =
    rw drop-nil at (bind-append segs more [] params bound e)
bind-append (variable none ∷ segs) more (f ∷ fragments) params bound e =
    bind-append segs more fragments params bound e
bind-append (variable (some name) ∷ segs) more [] params bound e =
    rw drop-nil at (bind-append segs more [] (params ++ (name, none) ∷ []) bound e)
bind-append (variable (some name) ∷ segs) more (f ∷ fragments) params bound e =
    bind-append segs more fragments (params ++ (name, some f) ∷ []) bound e

-- What a successful match says.
pub record Found {M : Type 0} (rs : Routes M) (fragments : List String) (params : Params)
    (m : Match M) : Type 0 where
  pub whole : List Segment
  pub leads : Leads rs whole m.target
  pub bound : bind whole fragments params ≡ some m.parameters
  pub long : length fragments ≤ length whole

module _ {M : Type 0} where
  Found-later :
      (r : Route M) (rs : Routes M) (fragments : List String) (params : Params) (m : Match M)
      → Found rs fragments params m
      → Found (cons r rs) fragments params m
  Found-later r rs fragments params m f = record {
    whole = f.whole;
    leads = Leads-later r rs f.whole m.target f.leads;
    bound = f.bound;
    long = f.long;
  }

  Found-stop :
      (segments : List Segment) (target : Node M) (rs : Routes M) (fragments : List String)
      (params bound : Params) (m : Match M)
      → bind segments fragments params ≡ some bound
      → length fragments ≤ length segments
      → intermediate target ≡ false
      → record { target = target; parameters = bound } ≡ m
      → Found (cons (route segments target) rs) fragments params m
  Found-stop segments target rs fragments params bound m b long open_end same =
      subst (Found (cons (route segments target) rs) fragments params) same (record {
        whole = segments;
        leads = stop _ segments target (first _ _ refl) open_end;
        bound = b;
        long = long;
      })

  Found-down :
      (segments : List Segment) (via : Node M) (rs : Routes M) (fragments : List String)
      (params bound : Params) (m : Match M)
      → bind segments fragments params ≡ some bound
      → Found (routes_of via) (drop (length segments) fragments) bound m
      → Found (cons (route segments via) rs) fragments params m
  Found-down segments via rs fragments params bound m b f = record {
    whole = segments ++ f.whole;
    leads = down _ segments f.whole _ via m.target (first _ _ refl) f.leads refl;
    bound = bind-append segments f.whole fragments params bound b ∙ f.bound;
    long =
        omega
          (arith, f.long, length-append segments f.whole, length-drop (length segments) fragments);
  }

or_later_cases :
    {A : Type 0} (o rest : Option A) (a : A)
    → or_later o rest ≡ some a
    → (o ≡ some a) ⊎ (rest ≡ some a)
unfolding or_later
or_later_cases none rest a e = inr e
or_later_cases (some found) rest a e = inl e

-- The three ways in which `Route.match` ends.
try_route_cases :
    {M : Type 0} (i : Bool) (segments : List Segment) (fragments : List String) (params : Params)
    (exact : Params → M) (nested : Params → Option M) (m : M)
    → try_route i segments fragments params exact nested ≡ some m
    → (bound : Params) × (bind segments fragments params ≡ some bound)
      × (((length fragments ≤ length segments) × (i ≡ false) × (exact bound ≡ m))
          ⊎ (nested bound ≡ some m))
unfolding try_route
try_route_cases i segments fragments params exact nested m e =
    elim (Option-cases (bind segments fragments params)) [
      | inl missed ↦ ground arith
      | inr (bound, hit) ↦ (bound, hit, ground arith)
    ]

mutual
  unfolding match_node

  pub match_node_sound :
      {M : Type 0} (n : Node M) (fragments : List String) (params : Params) (m : Match M)
      → match_node n fragments params ≡ some m
      → Found (routes_of n) fragments params m
  match_node_sound (node i f ms p rs) fragments params m e =
      match_routes_sound rs fragments params m e

  pub match_routes_sound :
      {M : Type 0} (rs : Routes M) (fragments : List String) (params : Params) (m : Match M)
      → match_routes rs fragments params ≡ some m
      → Found rs fragments params m
  match_routes_sound nil fragments params m e = cc
  match_routes_sound (cons r rs) fragments params m e = elim (or_later_cases _ _ m e) [
    | inl hit ↦ match_route_sound r rs fragments params m hit
    | inr rest ↦ Found-later r rs fragments params m (match_routes_sound rs fragments params m rest)
  ]

  pub match_route_sound :
      {M : Type 0} (r : Route M) (rs : Routes M) (fragments : List String) (params : Params)
      (m : Match M)
      → match_route r fragments params ≡ some m
      → Found (cons r rs) fragments params m
  match_route_sound (route segs target) rs fragments params m e =
      let (bound, hit, way) = try_route_cases _ segs fragments params _ _ m e in
      elim way [
        | inl (long, open_end, same) ↦
            Found-stop segs target rs fragments params bound m hit long open_end same
        | inr nested ↦
            Found-down segs target rs fragments params bound m hit
              (match_node_sound target (drop (length segs) fragments) bound m nested)
      ]
