-- ===== src/Gateway.antt =====
-- extensions/exposition/source/{Gateway,Interception,exceptions}.ts: how the gateway answers a
-- request, and how it merges the branches that components expose.
-- A service's reply, its introspection and the interceptors are parameters; timing and logging
-- are left out.
pub mod Answers
pub mod Branches
use Prim.Native.Char.{code}
use Prim.Native.String.{[], ◌∷◌}
use kookaburra.Prelude.{
  ℕ, String, Bool, true, false, not, ◌&&◌, ◌||◌, Option, none, some, List, [], ◌∷◌, ◌++◌, leb, ltb,
  nat_eq, ◌==◌, if◌then◌else◌, map, includes, is_some,
}
use kookaburra.Result.{
  Result, ok, err, ◌>>=◌, Failure, bad_request, not_found, method_not_allowed, not_acceptable,
  conflict, precondition_failed, exception, fault,
}
use kookaburra.Text.{◌+++◌, split_on, join}
use kookaburra.Dict.{lookup, keys}
use kookaburra.Rtd.Node.{Node, Match, Params, methods, forward}
use kookaburra.Rtd.Factory.{
  Method, Tree, match_tree, merge_tree, SyntaxNode, SyntaxMethod, Directive,
}

-- exceptions.ts: `badRequest` and `rethrow`; what is no service exception is thrown again.
unfoldable pub is_bad_request : ℕ → Bool
is_bad_request code = (leb 200 code && ltb code 210) || nat_eq code 221

unfoldable pub rethrow : Failure → Failure
unfolding is_bad_request
rethrow (exception code message) =
    if is_bad_request code
    then bad_request message
    else if nat_eq code 302
    then not_found ""
    else if nat_eq code 303
    then precondition_failed
    else if nat_eq code 306
    then conflict
    else exception code message
rethrow failure = failure

-- `promise.catch(rethrow)`
abbrev pub catch_rethrow : {A : Type 0} → Result A → Result A
catch_rethrow (ok a) = ok a
catch_rethrow (err failure) = err (rethrow failure)

-- `Interception.intercept`: the first interceptor that answers
unfoldable pub intercept :
    {C O : Type 0} → List (C → Result (Option O × C)) → C → Result (Option O × C)
intercept [] context = ok (none, context)
intercept (interceptor ∷ rest) context = do
  (output, changed) ← interceptor context
  elim output [ none ↦ intercept rest changed | some answer ↦ ok (some answer, changed) ]

-- `parameters.find((parameter) => parameter.name === name)?.value`
unfoldable pub value_of : String → Params → Option String
value_of name [] = none
value_of name ((n, value) ∷ params) = if n == name then value else value_of name params

-- One match of `/\/:([^/]+)/g`: a part behind a slash that is a colon and a name
unfoldable pub forward_part : Params → String → Result String
unfolding value_of
forward_part params [] = ok ""
forward_part params (c ∷ name) =
    if nat_eq (code c) b':' && not (name == "")
    then (elim (value_of name params) [
      | none ↦ err (fault ("Forwarded parameter '" +++ name +++ "' not found"))
      | some value ↦ ok value
    ])
    else ok (c ∷ name)

unfoldable pub forward_parts : Params → List String → Result (List String)
unfolding forward_part
forward_parts params [] = ok []
forward_parts params (part ∷ parts) = do
  value ← forward_part params part
  rest ← forward_parts params parts
  ok (value ∷ rest)

-- `match.node.forward.replace(…)`: what stands before the first slash is kept.
unfoldable pub destination : Params → String → Result String
unfolding forward_parts split_on join
destination params target = elim (split_on b'/' target) [
  | [] ↦ ok ""
  | first ∷ parts ↦ do values ← forward_parts params parts; ok (join "/" (first ∷ values))
]

-- `Gateway.match`
unfoldable pub match_context : {V M : Type 0} → Tree V M → String → Result (Match M)
unfolding destination
match_context tree pathname = elim (match_tree tree pathname) [
  | none ↦ err (not_found "Route not found")
  | some found ↦ elim (forward found.target) [
    | none ↦ ok found
    | some target ↦ do
      path ← destination found.parameters target
      elim (match_tree tree path) [
        | none ↦ err (fault "Forwarded route not found")
        | some forwarded ↦ ok forwarded
      ]
  ]
]

-- `pathname[pathname.length - 1] === '/'`
unfoldable pub ends_with_slash : String → Bool
ends_with_slash [] = false
ends_with_slash (c ∷ []) = nat_eq (code c) b'/'
ends_with_slash (c ∷ d ∷ text) = ends_with_slash (d ∷ text)

-- What the gateway reads of `http.Context` in the context `C`.
pub record Reads (C : Type 0) : Type 0 where
  pub verb : C → String
  pub pathname : C → String
  pub acceptable : C → Bool

-- What a method's directives and endpoint do, and the answer to OPTIONS from the node's methods
-- and the `allow` header.
pub record Services (D E C O : Type 0) : Type 0 where
  pub interceptors : List (C → Result (Option O × C))
  pub preflight : D → C → Params → Result (Option O × C)
  pub settle : D → C → O → Result (O × C)
  pub call : E → C → Params → Result (O × C)
  pub explain : List (String × Method D E) → String → C → Params → Result (O × C)

-- `verb`, or GET for a HEAD that the node lacks
unfoldable pub effective_verb : {M : Type 0} → List (String × M) → String → String
effective_verb ms verb =
    if not (is_some (lookup verb ms)) && (verb == "HEAD" && is_some (lookup "GET" ms))
    then "GET"
    else verb

module _ {D E C O : Type 0} (reads : Reads C) (services : Services D E C O) where
  -- `Gateway.call`
  unfoldable pub call_method : Method D E → C → Params → Result (O × C)
  call_method method context params =
      if not (ends_with_slash (reads.pathname context))
      then err (not_found "Trailing slash is required")
      else if not (reads.acceptable context)
      then err not_acceptable
      else elim method.endpoint [
        | none ↦ err method_not_allowed
        | some endpoint ↦ catch_rethrow (services.call endpoint context params)
      ]

  -- `Gateway.process` from the method on
  unfoldable pub run_method : Method D E → C → Params → Result (O × C)
  unfolding call_method
  run_method method context params = do
    (interruption, ready) ← catch_rethrow (services.preflight method.directives context params)
    (response, called) ← (elim interruption [
      | none ↦ call_method method ready params
      | some output ↦ ok (output, ready)
    ])
    catch_rethrow (services.settle method.directives called response)

  -- `Gateway.process`
  unfoldable pub process : {V : Type 0} → Tree V (Method D E) → C → Result (O × C)
  unfolding run_method intercept
  process tree context = do
    (interception, received) ← intercept services.interceptors context
    elim interception [
      | some output ↦ ok (output, received)
      | none ↦ do
        found ← match_context tree (reads.pathname received)
        let ms = methods found.target
        if reads.verb received == "OPTIONS"
            then services.explain ms (join ", " (keys ms)) received found.parameters
            else elim (lookup (effective_verb ms (reads.verb received)) ms) [
              | none ↦ err method_not_allowed
              | some method ↦ run_method method received found.parameters
            ]
    ]

-- The state of the gateway: the branches that it has merged, and its tree
pub record Gateway (V M : Type 0) : Type 0 where
  pub merged : List String
  pub tree : Tree V M

-- `Branch`, its version a text; `isolated` is not read by the gateway.
pub record Branch (V P : Type 0) : Type 0 where
  pub namespace : String
  pub component : String
  pub version : String
  pub syntax : SyntaxNode V P

abbrev pub branch_id : {V P : Type 0} → Branch V P → String
branch_id branch = branch.namespace +++ "." +++ branch.component +++ "@" +++ branch.version

module _ {V P D E : Type 0} (create_directives : List (Directive V) → Result D)
    (create_endpoint : Branch V P → SyntaxMethod V P → Result E) where
  -- `Gateway.merge`: an exception is logged and leaves the tree as it is.
  unfoldable pub merge_branch : Gateway V (Method D E) → Branch V P → Gateway V (Method D E)
  merge_branch gateway branch =
      if includes gateway.merged (branch_id branch) then gateway else record {
        merged = gateway.merged ++ branch_id branch ∷ [];
        tree =
            elim (merge_tree create_directives (create_endpoint branch) gateway.tree
              branch.syntax) [ ok grown ↦ grown | err failure ↦ gateway.tree ];
      }

  -- The branches that arrive, in turn
  unfoldable pub merge_branches :
      Gateway V (Method D E) → List (Branch V P) → Gateway V (Method D E)
  unfolding merge_branch
  merge_branches gateway [] = gateway
  merge_branches gateway (branch ∷ rest) = merge_branches (merge_branch gateway branch) rest
