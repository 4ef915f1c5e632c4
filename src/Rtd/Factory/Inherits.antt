-- ===== src/Rtd/Factory/Inherits.antt =====
-- The directives that a method gets, and the shape of every tree that is built and merged.
use kookaburra.Prelude.{
  String, Bool, true, false, Option, some, List, [], ◌++◌, or_else, ◌==◌, if◌then◌else◌, ◌≡◌, refl,
  sym, ◌∙◌, ap, ◌⊎◌, none, ◌∷◌, inl, inr, Bool-cases, eq_iff,
}
use kookaburra.Result.{Result, ok, err, ◌>>=◌, >>=-eq-ok, >>=-rule, >>=_assoc, ok-injective}
use mathlib.Core.Path.{subst}
use mathlib.Core.Option.{some-injective}
use kookaburra.Rtd.Segment.{Segment, segment, fragment}
use kookaburra.Rtd.Node.{Node, route, Routes, nil, cons, Match, new_node, routes_of}
use kookaburra.Rtd.Node.Paths.{Found, match_node_sound}
use kookaburra.Rtd.Merge.Laws.{
  IsRooted, AllRooted, none_left, one_more, new_node-IsRooted, merge-IsRooted,
}
use kookaburra.Dict.{insert}
use kookaburra.Rtd.Factory.{
  create_method, Directive, SyntaxMethod, SyntaxNode, SyntaxRoutes, syntax_node, no_routes,
  add_route, Method, node_stack, create_methods, create_node, create_routes, Tree, new_tree,
  merge_tree, match_tree, is_true,
}

node-rule :
    {M : Type 0} (routes : Result (Routes M)) (methods : Result (List (String × M))) (p : Bool)
    (f : Option String)
    → ((rs : Routes M) → routes ≡ ok rs → AllRooted rs)
    → (n : Node M) → (routes >>= λ rs. methods >>= λ ms. ok (new_node rs ms p f)) ≡ ok n
    → IsRooted n
node-rule (ok rs) (ok ms) p f h n e =
    subst IsRooted (ok-injective e) (new_node-IsRooted rs ms p f (h rs refl))
node-rule (ok rs) (err bad) p f h n e = cc
node-rule (err bad) methods p f h n e = cc

routes-rule :
    {M : Type 0} (target : Result (Node M)) (rest : Result (Routes M)) (segs : List Segment)
    → ((n : Node M) → target ≡ ok n → IsRooted n)
    → ((rs : Routes M) → rest ≡ ok rs → AllRooted rs)
    → (rs : Routes M) → (target >>= λ n. rest >>= λ others. ok (cons (route segs n) others)) ≡ ok rs
    → AllRooted rs
routes-rule (ok n) (ok others) segs h k rs e =
    subst AllRooted (ok-injective e) (one_more segs n others (h n refl) (k others refl))
routes-rule (ok n) (err bad) segs h k rs e = cc
routes-rule (err bad) rest segs h k rs e = cc

module _ {V P D E : Type 0} (create_directives : List (Directive V) → Result D)
    (create_endpoint : SyntaxMethod V P → Result E) where
  -- The methods of a node: each has its own directives, then those that the node gives it, and an
  -- endpoint where its mapping has one; of two with a verb the later stands.
  pub build_methods :
      List (SyntaxMethod V P)
      → List (Directive V)
      → List (String × Method D E)
      → Result (List (String × Method D E))
  build_methods [] given built = ok built
  build_methods (method ∷ rest) given built = do
    directives ← create_directives (method.directives ++ given)
    endpoint ←
        (if method.has_endpoint then (do e ← create_endpoint method; ok (some e)) else ok none)
    build_methods rest given
        (insert method.verb (record { endpoint = endpoint; directives = directives }) built)

  create_methods_refines :
      (methods : List (SyntaxMethod V P)) (given : List (Directive V))
      (built : List (String × Method D E))
      → create_methods create_directives create_endpoint methods given built
        ≡ build_methods methods given built
  unfolding create_methods create_method build_methods
  create_methods_refines [] given built = refl
  create_methods_refines (method ∷ rest) given built =
      simp (>>=_assoc, create_methods_refines rest given)

  mutual
    -- A tree built with no shared stack: each node hands down its own directives before those that
    -- it inherits, or its own alone if it is isolated, and gives them to its methods.
    pub build_node : SyntaxNode V P → Bool → List (Directive V) → Result (Node (Method D E))
    build_node (syntax_node protected isolated f routes methods directives) protect inherited = do
      rs ←
          build_routes routes protect
            (if is_true isolated then directives else directives ++ inherited)
      ms ←
          build_methods methods (if is_true isolated then directives else directives ++ inherited)
            []
      ok (new_node rs ms (or_else protected protect) f)

    pub build_routes : SyntaxRoutes V P → Bool → List (Directive V) → Result (Routes (Method D E))
    build_routes no_routes protect inherited = ok nil
    build_routes (add_route path inner rest) protect inherited = do
      target ← build_node inner protect inherited
      rs ← build_routes rest protect inherited
      ok (cons (route (segment path) target) rs)

  abbrev pub stack_of : SyntaxNode V P → List (Directive V) → List (Directive V)
  stack_of (syntax_node _ isolated _ _ _ directives) inherited =
      if is_true isolated then directives else directives ++ inherited

  mutual
    unfolding create_node build_node node_stack

    create_node_refines :
        (syntax : SyntaxNode V P) (protect : Bool) (stack : List (Directive V))
        → create_node create_directives create_endpoint syntax protect stack
          ≡ (build_node syntax protect stack >>= λ n. ok (n, stack_of syntax stack))
    create_node_refines (syntax_node protected isolated f routes methods directives) protect stack =
        simp (
          create_routes_refines routes protect (node_stack isolated directives stack),
          create_methods_refines,
          >>=_assoc,
        )

    create_routes_refines :
        (routes : SyntaxRoutes V P) (protect : Bool) (stack : List (Directive V))
        → create_routes create_directives create_endpoint routes protect stack
          ≡ (build_routes routes protect stack >>= λ rs. ok (rs, stack))
    create_routes_refines no_routes protect stack = refl
    create_routes_refines (add_route path inner rest) protect stack = simp (
      create_node_refines inner protect stack,
      create_routes_refines rest protect stack,
      >>=_assoc,
    )

  -- Building a tree on one shared stack, restored behind each route, gives each method the
  -- directives of its own, then those of its node and of the nodes above it, inwards first, up to
  -- the nearest isolated node; and it fails where that fails, with the same failure.
  pub create_node-build_node :
      (syntax : SyntaxNode V P) (protect : Bool) (stack : List (Directive V))
      → create_node create_directives create_endpoint syntax protect stack
        ≡ (build_node syntax protect stack >>= λ n. ok (n, stack_of syntax stack))
  create_node-build_node = create_node_refines

  mutual
    unfolding build_node

    build_node-IsRooted :
        (syntax : SyntaxNode V P) (protect : Bool) (inherited : List (Directive V))
        (n : Node (Method D E))
        → build_node syntax protect inherited ≡ ok n
        → IsRooted n
    build_node-IsRooted (syntax_node p isolated f routes methods directives) protect inherited n e =
        let st = if is_true isolated then directives else directives ++ inherited in
        node-rule (build_routes routes protect st) (build_methods methods st []) (or_else p protect)
          f (build_routes-AllRooted routes protect st) n e

    build_routes-AllRooted :
        (routes : SyntaxRoutes V P) (protect : Bool) (inherited : List (Directive V))
        (rs : Routes (Method D E))
        → build_routes routes protect inherited ≡ ok rs
        → AllRooted rs
    build_routes-AllRooted no_routes protect inherited rs e =
        subst AllRooted (ok-injective e) none_left
    build_routes-AllRooted (add_route path inner rest) protect inherited rs e =
        routes-rule (build_node inner protect inherited) (build_routes rest protect inherited)
          (segment path) (build_node-IsRooted inner protect inherited)
          (build_routes-AllRooted rest protect inherited) rs e

  create_node-IsRooted :
      (syntax : SyntaxNode V P) (protect : Bool) (stack left : List (Directive V))
      (n : Node (Method D E))
      → create_node create_directives create_endpoint syntax protect stack ≡ ok (n, left)
      → IsRooted n
  create_node-IsRooted syntax protect stack left n e =
      let (n', built, same) =
        >>=-eq-ok _ _ _ (sym (create_node_refines syntax protect stack) ∙ e) in
      build_node-IsRooted syntax protect stack n (built ∙ ap ok (ap (λ t. t.0) (ok-injective same)))

  -- The trunk of a new tree is rooted, and stays so when branches are merged.
  pub new_tree-IsRooted :
      (syntax : SyntaxNode V P) (tree : Tree V (Method D E))
      → new_tree create_directives create_endpoint syntax ≡ ok tree
      → IsRooted tree.trunk
  unfolding new_tree
  new_tree-IsRooted syntax tree e =
      >>=-rule (λ t. IsRooted t.trunk) _ _
        (λ (trunk, left) built t made.
          subst (λ t. IsRooted t.trunk) (ok-injective made)
            (create_node-IsRooted syntax true [] left trunk built))
        tree e

  -- Merging a branch into a tree whose intermediate nodes all have root routes gives such a tree.
  pub merge_tree-IsRooted :
      (tree merged : Tree V (Method D E)) (syntax : SyntaxNode V P)
      → IsRooted tree.trunk
      → merge_tree create_directives create_endpoint tree syntax ≡ ok merged
      → IsRooted merged.trunk
  unfolding merge_tree
  merge_tree-IsRooted tree merged syntax h e =
      >>=-rule (λ t. IsRooted t.trunk) _ _
        (λ (branch, left) built t made.
          subst (λ t. IsRooted t.trunk) (ok-injective made)
            (merge-IsRooted tree.trunk branch h
              (create_node-IsRooted syntax false tree.root_directives left branch built)))
        merged e

-- The node that a path is matched with is the trunk, at `/`, or one that routes from the trunk
-- lead to, whose segments bind the path's fragments to the parameters and are no fewer.
pub match_tree-Found :
    {V M : Type 0} (tree : Tree V M) (path : String) (m : Match M)
    → match_tree tree path ≡ some m
    → ((path ≡ "/") × (m ≡ record { target = tree.trunk; parameters = [] }))
      ⊎ Found (routes_of tree.trunk) (fragment path) [] m
unfolding match_tree
match_tree-Found tree path m e = elim (Bool-cases (path == "/")) [
  | inl at_root ↦ inl ((eq_iff path "/").0 at_root, sym (some-injective _ _ (rw at_root at e)))
  | inr below ↦ inr (match_node_sound tree.trunk (fragment path) [] m (rw below at e))
]
