-- ===== src/Runtime/Invocation.antt =====
-- runtime/core/src/operation.js: how an operation is invoked. What `process` does is in
-- Runtime/Operation; the contracts and `Query.parse` are arguments.
use kookaburra.Prelude.{String, Option, none, some, List, if◌then◌else◌}
use kookaburra.Result.{Result, ok, err, Failure, exception, fault}
use kookaburra.Runtime.Eff.{Eff, ◌>>=◌, rescue}
use kookaburra.Runtime.State.{Query}
use kookaburra.Runtime.Operation.{Reply, failed, Request, Task}

-- `e instanceof Error ? new SystemException(e) : e`
unfoldable pub as_exception : Failure → Failure
as_exception (fault message) = exception 0 message
as_exception failure = failure

-- A result in the world as it is
abbrev pub lift : {W B : Type 0} → Result B → Eff W B
lift result = λ w. (result, w)

-- `if (request.authentic !== true) this.#contracts.request.fit(request)`
unfoldable pub check_request :
    {V R : Type 0} → (Request V R → Result (Unit {0})) → Request V R → Result (Unit {0})
check_request check request = if request.authentic then ok tt else check request

-- `if ('query' in request) request.query = this.#query.parse(request.query)`
unfoldable pub parse_query :
    {N R : Type 0} → (R → Result (Query N)) → Option R → Result (Option (Query N))
parse_query parse none = ok none
parse_query parse (some raw) = elim (parse raw) [
  | ok query ↦ ok (some query)
  | err failure ↦ err failure
]

-- `if ('entity' in request) this.scope.fit(request.entity)`
unfoldable pub fit_entity :
    {V : Type 0}
    → (List (String × V) → Result (Unit {0}))
    → Option (List (String × V))
    → Result (Unit {0})
fit_entity fit none = ok tt
fit_entity fit (some properties) = fit properties

-- The `try` of `Operation.invoke`, given the validation of a request and of an entity, `Query.parse`,
-- and the `process` of the operation's class
unfoldable pub perform :
    {W V N R : Type 0}
    → (Request V R → Result (Unit {0}))
    → (R → Result (Query N))
    → (List (String × V) → Result (Unit {0}))
    → (Task V N → Eff W (Reply V))
    → Request V R
    → Eff W (Reply V)
unfolding check_request parse_query fit_entity
perform check parse fit process request = do
  valid ← lift (check_request check request)
  query ← lift (parse_query parse request.query)
  fits ← lift (fit_entity fit request.entity)
  process (record { input = request.input; query = query; entity = request.entity })

-- `Operation.invoke`
unfoldable pub invoke :
    {W V N R : Type 0}
    → (Request V R → Result (Unit {0}))
    → (R → Result (Query N))
    → (List (String × V) → Result (Unit {0}))
    → (Task V N → Eff W (Reply V))
    → Request V R
    → Eff W (Reply V)
unfolding as_exception perform
invoke check parse fit process request = λ w.
    rescue (perform check parse fit process request w) (λ failure. failed (as_exception failure))
