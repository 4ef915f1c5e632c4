-- ===== src/Tests/Requests.antt =====
-- Concrete requests: families of directives, queries, a method and branches.
use kookaburra.Prelude.{
  ℕ, String, true, false, Option, none, some, List, [], ◌∷◌, ◌+◌, ◌≡◌, ◌↔◌, refl, ◌⊎◌,
}
use kookaburra.Result.{Result, ok, err, ◌>>=◌, conflict, exception}
use kookaburra.Text.{◌+++◌}
use kookaburra.Dict.{lookup, insert}
use kookaburra.Sort.{sort_by}
use kookaburra.Rtd.Node.{node, nil}
use kookaburra.Rtd.Factory.{Directive, SyntaxMethod, syntax_node, no_routes, Method}
use kookaburra.Directives.{
  Family, DirectiveSet, DirectivesFactory, preflight, new_factory, create, group, push_sets,
}
use kookaburra.Directives.Running.{run_all, answers, preflight-run_all_iff}
use kookaburra.Directives.Grouping.{NamesMatch, new_factory-NamesMatch}
use kookaburra.Query.{
  Number, natural, groups_of, render, fit_criteria, fit_given, fit_number, take_id,
}
use kookaburra.QuerySyntax.{Range, Query, comma, semicolon}
use kookaburra.Query.Criteria.{injection}
use kookaburra.Query.Fits.{IsFitted, fit_given-IsFitted}
use kookaburra.Gateway.{
  rethrow, Reads, Services, call_method, run_method, ends_with_slash, Gateway, Branch,
}
use kookaburra.Gateway.Answers.{rethrow_idempotent, IsAnswered, run_method-IsAnswered}

rethrow_idempotent_example : rethrow (rethrow (exception 306 "")) ≡ rethrow (exception 306 "")
rethrow_idempotent_example = rethrow_idempotent (exception 306 "")

-- A family that counts its directives into the context and answers beyond one.
abbrev guard : Family String String ℕ String
guard = record {
  name = "auth";
  mandatory = true;
  create = λ name value. ok value;
  preflight = some (λ directives context params. ok (some "stop", context + 1));
  settle = none;
}

abbrev quiet : Family String String ℕ String
quiet = record {
  name = "dev";
  mandatory = false;
  create = λ name value. ok value;
  preflight = some (λ directives context params. ok (none, context + 1));
  settle = none;
}

abbrev two_sets : List (DirectiveSet String String ℕ String)
two_sets =
    record { family = quiet; directives = [] } ∷ record { family = guard; directives = [] } ∷ []

preflight-run_all_iff_example :
    (preflight two_sets 0 [] ≡ ok (some "stop", 2))
    ↔ (run_all two_sets 0 [] ≡ ok (answers (some "stop"), 2))
preflight-run_all_iff_example = preflight-run_all_iff two_sets 0 2 [] (some "stop")

abbrev empty : DirectivesFactory String String ℕ String
empty = record { families = []; mandatory = [] }

abbrev families : DirectivesFactory String String ℕ String
families = record { families = ("auth", guard) ∷ []; mandatory = "auth" ∷ [] }

no_families : NamesMatch empty
unfolding lookup
no_families name family e = cc

match : NamesMatch families
unfolding new_factory insert
match = new_factory-NamesMatch (guard ∷ []) empty no_families

creates : create families [] ≡ ok (record { family = guard; directives = [] } ∷ [])
unfolding create group push_sets sort_by lookup
creates = refl

abbrev range : Range
range = record { value = some 10; low = 1; high = 100 }

abbrev free : Query
free = record { query = none; closed = false; prepend = semicolon; is_queryable = true }

injection_example :
    (groups_of free [] (some "owner==me") (some ("x==1" +++ "),(" +++ "y==2")) >>= λ groups.
    ok (render groups))
    ≡ ok (render (("owner==me", semicolon) ∷ ("x==1", comma) ∷ ("y==2", semicolon) ∷ []))
injection_example = injection free "owner==me" "x==1" "y==2" refl

fitted : fit_criteria free [] (some "a==1") none (some "b==2") ≡ ok (none, some "(a==1);(b==2)")
unfolding fit_criteria take_id groups_of render
fitted = refl

abbrev fifty : String → Number
fifty text = natural 50

abbrev given : Option String
given = some "50"

abbrev bound : Option Number
bound = some (natural 50)

bounded : fit_given fifty given range "limit" none ≡ ok bound
unfolding fit_given fit_number
bounded = refl

fit_given-IsFitted_example :
    ((given ≡ none) × (bound ≡ none))
    ⊎ ((text : String) × (given ≡ some text)
        × (bound ≡ some (fifty text))
        × IsFitted range (fifty text))
fit_given-IsFitted_example = fit_given-IsFitted fifty given range "limit" none bound bounded

abbrev reads : Reads ℕ
reads = record { verb = λ c. "GET"; pathname = λ c. "/pots/"; acceptable = λ c. true }

abbrev services : Services String String ℕ String
services = record {
  interceptors = [];
  preflight = λ d c params. ok (none, c + 1);
  settle = λ d c response. ok (response +++ "!", c);
  call = λ endpoint c params. ok (endpoint, c);
  explain = λ ms allow c params. ok (allow, c);
}

abbrev observe : Method String String
observe = record { endpoint = some "pot"; directives = "" }

answered : run_method reads services observe 0 [] ≡ ok ("pot!", 1)
unfolding run_method call_method ends_with_slash
answered = refl

run_method-IsAnswered_example :
    (response : String) × ((called : ℕ) × IsAnswered reads services observe 0 [] response called
      × (services.settle observe.directives called response ≡ ok ("pot!", 1)))
run_method-IsAnswered_example = run_method-IsAnswered reads services observe 0 1 [] "pot!" answered

abbrev no_directives : List (Directive String) → Result String
no_directives directives = ok ""

abbrev no_endpoint : Branch String String → SyntaxMethod String String → Result String
no_endpoint branch method = err conflict

abbrev pots : Branch String String
pots = record {
  namespace = "default";
  component = "pots";
  version = "1";
  syntax = syntax_node none none none no_routes [] [];
}

abbrev idle : Gateway String (Method String String)
idle = record {
  merged = [];
  tree = record { root_directives = []; trunk = node false none [] true nil };
}
