-- ===== src/Rtd/Factory.antt =====
-- extensions/exposition/source/RTD/{factory,Tree}.ts and syntax/types.ts: building a tree from its
-- syntax, with the stack of directives that the context carries from node to node.
-- The factories of directives and endpoints are parameters; both may throw.
pub mod Inherits
use kookaburra.Prelude.{
  String, Bool, true, false, Option, none, some, List, [], ◌∷◌, ◌++◌, or_else, ◌==◌, if◌then◌else◌,
}
use kookaburra.Result.{Result, ok, err, ◌>>=◌}
use kookaburra.Dict.{insert}
use kookaburra.Rtd.Segment.{segment, fragment}
use kookaburra.Rtd.Node.{Node, Route, route, Routes, nil, cons, Match, Params, new_node, match_node}
use kookaburra.Rtd.Merge.{merge}

-- `syntax.Directive`, its value of any type `V`
pub record Directive (V : Type 0) : Type 0 where
  pub family : String
  pub name : String
  pub value : V

-- `syntax.Method`, its mapping of any type `P`; `has_endpoint` is
-- `method.mapping?.endpoint !== undefined`.
pub record SyntaxMethod (V P : Type 0) : Type 0 where
  pub verb : String
  pub has_endpoint : Bool
  pub mapping : Option P
  pub directives : List (Directive V)

mutual
  -- `syntax.Node`: `protected`, `isolated`, `forward`, `routes`, `methods`, `directives`
  pub data SyntaxNode (V P : Type 0) : Type 0 where
    syntax_node :
        Option Bool
        → Option Bool
        → Option String
        → SyntaxRoutes V P
        → List (SyntaxMethod V P)
        → List (Directive V)
        → SyntaxNode V P

  -- `syntax.Route[]`: a path and a node each
  pub data SyntaxRoutes (V P : Type 0) : Type 0 where
    no_routes : SyntaxRoutes V P
    add_route : String → SyntaxNode V P → SyntaxRoutes V P → SyntaxRoutes V P

-- `RTD/Method.ts`: the endpoint and the directives
pub record Method (D E : Type 0) : Type 0 where
  pub endpoint : Option E
  pub directives : D

-- `node.isolated === true`
abbrev pub is_true : Option Bool → Bool
is_true (some true) = true
is_true _ = false

-- The stack that a node leaves in its context, for its routes and methods.
unfoldable pub node_stack {ℓ} : {A : Type ℓ} → Option Bool → List A → List A → List A
node_stack isolated own stack = if is_true isolated then own else own ++ stack

module _ {V P D E : Type 0} (create_directives : List (Directive V) → Result D)
    (create_endpoint : SyntaxMethod V P → Result E) where
  unfoldable pub create_method : SyntaxMethod V P → List (Directive V) → Result (Method D E)
  create_method method stack = do
    directives ← create_directives (method.directives ++ stack)
    endpoint ←
        (if method.has_endpoint then (do e ← create_endpoint method; ok (some e)) else ok none)
    ok (record { endpoint = endpoint; directives = directives })

  -- `for (const method of node.methods) methods[method.verb] = createMethod(method, context)`
  unfoldable pub create_methods :
      List (SyntaxMethod V P)
      → List (Directive V)
      → List (String × Method D E)
      → Result (List (String × Method D E))
  unfolding create_method
  create_methods [] stack methods = ok methods
  create_methods (method ∷ rest) stack methods = do
    m ← create_method method stack
    create_methods rest stack (insert method.verb m methods)

  -- `createNode` and `createRoute`, which hand on the stack of the shared context; `protect` is
  -- `context.protected`. A route's node works on the stack, and the stack is restored behind it.
  unfoldable mutual
    pub create_node :
        SyntaxNode V P → Bool → List (Directive V) → Result (Node (Method D E) × List (Directive V))
    create_node (syntax_node protected isolated f routes methods directives) protect stack = do
      (rs, left) ← create_routes routes protect (node_stack isolated directives stack)
      ms ← create_methods methods left []
      ok (new_node rs ms (or_else protected protect) f, left)

    pub create_routes :
        SyntaxRoutes V P
        → Bool
        → List (Directive V)
        → Result (Routes (Method D E) × List (Directive V))
    create_routes no_routes protect stack = ok (nil, stack)
    create_routes (add_route path inner rest) protect stack = do
      (target, used) ← create_node inner protect stack
      (rs, left) ← create_routes rest protect stack
      ok (cons (route (segment path) target) rs, left)

-- `Tree`: the directives of its root node and the trunk
pub record Tree (V M : Type 0) : Type 0 where
  pub root_directives : List (Directive V)
  pub trunk : Node M

abbrev pub directives_of : {V P : Type 0} → SyntaxNode V P → List (Directive V)
directives_of (syntax_node _ _ _ _ _ directives) = directives

module _ {V P D E : Type 0} (create_directives : List (Directive V) → Result D)
    (create_endpoint : SyntaxMethod V P → Result E) where
  -- The constructor: the root is not set yet, so the stack is empty, and the trunk is protected.
  unfoldable pub new_tree : SyntaxNode V P → Result (Tree V (Method D E))
  new_tree syntax = do
    (trunk, left) ← create_node create_directives create_endpoint syntax true []
    ok (record { root_directives = directives_of syntax; trunk = trunk })

  -- `Tree.merge`; the endpoints are created for the extension.
  unfoldable pub merge_tree : Tree V (Method D E) → SyntaxNode V P → Result (Tree V (Method D E))
  merge_tree tree syntax = do
    (branch, left) ← create_node create_directives create_endpoint syntax false tree.root_directives
    ok (record tree { trunk = merge tree.trunk branch })

-- `Tree.match`
unfoldable pub match_tree : {V M : Type 0} → Tree V M → String → Option (Match M)
match_tree tree path =
    if path == "/"
    then some (record { target = tree.trunk; parameters = [] })
    else match_node tree.trunk (fragment path) []
