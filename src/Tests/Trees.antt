-- ===== src/Tests/Trees.antt =====
-- Concrete trees of routes.
use kookaburra.Prelude.{String, true, false, none, some, List, [], ◌∷◌, ◌≡◌, refl, All, map}
use kookaburra.Result.{Result, ok, ◌>>=◌}
use kookaburra.Text.{split_on}
use kookaburra.Dict.{insert}
use kookaburra.Rtd.Segment.{literal, variable, fragment, parse, segment}
use kookaburra.Rtd.Segment.Laws.{IsPart}
use kookaburra.Rtd.Node.{
  Node, node, route, Routes, nil, cons, bind, Match, new_node, sort, place_sorted, ordered,
  variables, count_variables, has_root, match_node, match_routes, or_later, try_route, routes_of,
}
use kookaburra.Rtd.Node.Complete.{short_path}
use kookaburra.Rtd.Merge.{merge}
use kookaburra.Rtd.Merge.Laws.{IsRooted, rooted, none_left, one_more}
use kookaburra.Rtd.Merge.Keeps.{Keeps, merge-Keeps}
use kookaburra.Rtd.Factory.{
  Directive, SyntaxMethod, SyntaxNode, syntax_node, no_routes, add_route, Method, create_node,
  create_routes, create_methods, create_method, node_stack, Tree, new_tree, match_tree,
}
use kookaburra.Rtd.Factory.Inherits.{build_node, stack_of, create_node-build_node}

abbrev leaf : Node String
leaf = node false none (("GET", "read") ∷ []) true nil

abbrev pots : Routes String
pots = cons (route (literal "pots" ∷ []) leaf) nil

abbrev pot_or_any : Routes String
pot_or_any =
    cons (route (variable (some "id") ∷ []) leaf) (cons (route (literal "pots" ∷ []) leaf) nil)

abbrev kept : Node String
kept = node false (some "/here/") [] true pots

abbrev loose : Node String
loose = node false none [] false pots

abbrev entry : Node String
entry = node true none [] true (cons (route [] leaf) nil)

parts : All IsPart ("a" ∷ "b" ∷ [])
parts = ((λ e. cc, (λ e. cc, tt)), ((λ e. cc, (λ e. cc, tt)), tt))

binds : bind (literal "pots" ∷ []) ("pots" ∷ []) [] ≡ some []
unfolding bind
binds = refl

short_path_example :
    match_routes
      (cons
        (route
          (literal "a" ∷ variable (some "name") ∷ [])
          (node true none [] true (cons (route [] leaf) nil)))
        nil)
      ("a" ∷ [])
      []
    ≡ some (record { target = leaf; parameters = ("name", none) ∷ [] })
short_path_example = short_path "a" "name" none [] true leaf nil refl

IsRooted-kept : IsRooted kept
IsRooted-kept =
    rooted false (some "/here/") [] true pots (λ e. cc)
      (one_more (literal "pots" ∷ []) leaf nil (rooted false none _ true nil (λ e. cc) none_left)
        none_left)

entry_has : has_root (routes_of entry) ≡ true
unfolding has_root
entry_has = refl

merge-Keeps_example : Keeps kept entry (merge kept entry)
merge-Keeps_example = merge-Keeps kept entry refl

-- A tree with a group of nodes, directives as texts and endpoints as mappings.
abbrev auth : String → Directive String
auth value = record { family = "auth"; name = "role"; value = value }

abbrev read : SyntaxMethod String String
read = record { verb = "GET"; has_endpoint = true; mapping = some "observe"; directives = [] }

abbrev declared : SyntaxNode String String
declared =
    syntax_node none none none
      (add_route "/" (syntax_node none (some true) none no_routes (read ∷ []) []) no_routes) []
      (auth "admin" ∷ [])

abbrev values : List (Directive String) → Result (List String)
values directives = ok (map (λ d. d.value) directives)

abbrev observe : SyntaxMethod String String → Result String
observe method = ok method.verb

create_node-build_node_example : create_node values observe declared true [] ≡ (
    build_node values observe declared true [] >>= λ n. ok (n, stack_of values observe declared []))
create_node-build_node_example = create_node-build_node values observe declared true []

abbrev grown : Tree String (Method (List String) String)
grown = record {
  root_directives = auth "admin" ∷ [];
  trunk = node true none [] true (
      cons
        (route [] (
          node false none (("GET", record { endpoint = some "GET"; directives = [] }) ∷ []) true
            nil))
        nil);
}

grows : new_tree values observe declared ≡ ok grown
unfolding new_tree create_node create_routes create_methods create_method node_stack new_node sort
    place_sorted ordered variables count_variables has_root segment fragment parse split_on insert
grows = refl

abbrev garden : Tree String String
garden = record { root_directives = []; trunk = kept }

abbrev found : Match String
found = record { target = leaf; parameters = [] }

abbrev path : String
path = "/pots/"

finds : match_tree garden path ≡ some found
unfolding match_tree match_node or_later try_route bind fragment split_on
finds = refl
