-- ===== src/Tests/Declarations.antt =====
-- A declaration of a node, parsed.
use kookaburra.Prelude.{true, none, some, [], ◌∷◌}
use kookaburra.Result.{Result, ok}
use kookaburra.Rtd.Factory.{syntax_node, no_routes, add_route}
use kookaburra.Untyped.{truth, text, Members, no_members, member}
use kookaburra.Rtd.Parse.{SyntaxTree}

abbrev pub dummies : Members
dummies = member "/dummies" (text "app.dummies") (
    member "isolated" (truth true)
      (member "GET" (text "app.dummies.observe") (member "auth:anonymous" (truth true) no_members)))

abbrev pub valid : SyntaxTree → Result (Unit {0})
valid tree = ok tt

abbrev pub dummies_tree : SyntaxTree
dummies_tree =
    syntax_node none (some true) none
      (add_route "/dummies" (syntax_node none none (some "app.dummies") no_routes [] []) no_routes)
      (record {
        verb = "GET";
        has_endpoint = true;
        mapping = some (
            member "endpoint" (text "observe")
              (member "component" (text "dummies") (member "namespace" (text "app") no_members)));
        directives = [];
      }
        ∷ [])
      (record { family = "auth"; name = "anonymous"; value = truth true } ∷ [])
