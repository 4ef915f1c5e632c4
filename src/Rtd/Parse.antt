-- ===== src/Rtd/Parse.antt =====
-- extensions/exposition/source/RTD/syntax/parse.ts: the syntax of a tree from its declaration, an untyped
-- value. The validation by the schema of a node is a parameter. The schema wants booleans for
-- `protected` and `isolated`, and a text for `forward`: other values are refused at once here.
pub mod Declared
pub mod Keeps
pub mod Mapping
use Prim.Native.Char.{Char, code}
use Prim.Native.String
use kookaburra.Prelude.{
  ℕ, zero, suc, not, String, Bool, true, false, ◌&&◌, ◌||◌, Option, none, some, List, [], ◌∷◌, ◌==◌,
  if◌then◌else◌, leb, nat_eq, includes, is_some, or_else,
}
use kookaburra.Result.{Result, ok, err, ◌>>=◌, fault}
use kookaburra.Text.{◌+++◌, split_on, starts_with}
use kookaburra.Dict.{lookup}
use kookaburra.Rtd.Factory.{
  Directive, SyntaxMethod, SyntaxNode, syntax_node, SyntaxRoutes, no_routes, add_route,
}
use kookaburra.Untyped.{
  Json, null, truth, number, text, array, object, Items, no_items, item, Members, no_members,
  member, member_at,
}
use kookaburra.Rtd.Parse.Mapping.{
  set_member, verbs, is_word, word_within, is_name, parse_directive, parse_directives, last_parts,
  place_endpoint, parse_endpoint, expand_range, expand_at, parse_query_part, mapping_of,
  parse_method,
}

-- What a key declares
pub data Part : Type 0 where
  protects isolates forwards routes_to handles directs unknown : Part

unfoldable pub part_of : List (String × String) → String → Json → Part
unfolding starts_with parse_directive
part_of shortcuts key value =
    if key == "protected"
    then protects
    else if key == "isolated"
    then isolates
    else if key == "forward"
    then forwards
    else if starts_with key "/"
    then routes_to
    else if includes verbs key
    then handles
    else if is_some (parse_directive shortcuts key value)
    then directs
    else unknown

abbrev pub SyntaxTree : Type 0
SyntaxTree = SyntaxNode Json Members

-- `createNode`
abbrev pub empty_node : SyntaxTree
empty_node = syntax_node none none none no_routes [] []

abbrev pub with_protected : Bool → SyntaxTree → SyntaxTree
with_protected flag (syntax_node p i f rs methods directives) =
    syntax_node (some flag) i f rs methods directives

abbrev pub with_isolated : Bool → SyntaxTree → SyntaxTree
with_isolated flag (syntax_node p i f rs methods directives) =
    syntax_node p (some flag) f rs methods directives

abbrev pub with_forward : String → SyntaxTree → SyntaxTree
with_forward path (syntax_node p i f rs methods directives) =
    syntax_node p i (some path) rs methods directives

abbrev pub with_route : String → SyntaxTree → SyntaxTree → SyntaxTree
with_route path node (syntax_node p i f rs methods directives) =
    syntax_node p i f (add_route path node rs) methods directives

abbrev pub with_method : SyntaxMethod Json Members → SyntaxTree → SyntaxTree
with_method method (syntax_node p i f rs methods directives) =
    syntax_node p i f rs (method ∷ methods) directives

abbrev pub with_directive : Option (Directive Json) → SyntaxTree → SyntaxTree
with_directive none node = node
with_directive (some directive) (syntax_node p i f rs methods directives) =
    syntax_node p i f rs methods (directive ∷ directives)

abbrev pub flag_of : Json → Result Bool
flag_of (truth flag) = ok flag
flag_of _ = err (fault "must be boolean")

abbrev pub path_of : Json → Result String
path_of (text path) = ok path
path_of _ = err (fault "must be string")

abbrev pub unknown_key : {A : Type 0} → String → Result A
unknown_key key = err (fault ("RTD parse error: unknown key '" +++ key +++ "'"))

module _ (shortcuts : List (String × String)) (validate : SyntaxTree → Result (Unit {0})) where
  -- The body of the loop of `parseNode`, given the node of the value, and that of the later keys:
  -- what a key declares, and what it throws, comes before what the later ones do.
  unfoldable pub add_part :
      Part → String → Json → Result SyntaxTree → Result SyntaxTree → Result SyntaxTree
  add_part protects key value target later = do
    flag ← flag_of value
    node ← later
    ok (with_protected flag node)
  add_part isolates key value target later = do
    flag ← flag_of value
    node ← later
    ok (with_isolated flag node)
  add_part forwards key value target later = do
    path ← path_of value
    node ← later
    ok (with_forward path node)
  add_part routes_to key value target later = do
    inner ← target
    valid ← validate inner
    node ← later
    ok (with_route key inner node)
  add_part handles key value target later = do
    method ← parse_method shortcuts key value
    node ← later
    ok (with_method method node)
  add_part directs key value target later = do
    node ← later
    ok (with_directive (parse_directive shortcuts key value) node)
  add_part unknown key value target later = unknown_key key

  unfoldable mutual
    -- `parseNode`
    pub parse_node : Json → Result SyntaxTree
    parse_node (text path) = ok (with_forward path empty_node)
    parse_node (object fields) = parse_members fields
    parse_node (array (item value rest)) = unknown_key "0"
    parse_node null = err (fault "Cannot convert undefined or null to object")
    parse_node _ = ok empty_node

    -- The loop of `parseNode`
    pub parse_members : Members → Result SyntaxTree
    parse_members no_members = ok empty_node
    parse_members (member key value rest) =
        let target = parse_node value in
        let later = parse_members rest in
        add_part (part_of shortcuts key value) key value target later

  -- `parse`
  unfoldable pub parse_tree : Json → Result SyntaxTree
  unfolding parse_node
  parse_tree input = do node ← parse_node input; valid ← validate node; ok node
