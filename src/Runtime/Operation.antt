-- ===== src/Runtime/Operation.antt =====
-- runtime/core/src/{operation,transition,observation,assignment,effect}.js, and retry.js of
-- libraries/generic. The algorithm that the cascade runs is a parameter: it may change the object
-- that it is given. So are the validation of requests, `Query.parse` and the pause of a retry.
-- Replies are validated in local environments only, which is left out.
pub mod Retries
pub mod Settled
use kookaburra.Prelude.{
  ℕ, zero, suc, String, Bool, true, false, not, ◌&&◌, ◌||◌, Option, none, some, List, [], ◌∷◌,
  if◌then◌else◌, is_some,
}
use kookaburra.Result.{Result, ok, err, Failure, exception, fault}
use kookaburra.Runtime.Eff.{Eff, ◌>>=◌, give, throw, after, rescue}
use kookaburra.Runtime.Entity.{Object, Entity, Changeset, empty_changeset, set, set_changes}
use kookaburra.Runtime.State.{
  Query, Backend, at_time, init_new, object, find_objects, commit, apply, ensure, state_not_found,
  state_concurrency,
}

-- `definition.scope` of an operation
pub data ScopeKind : Type 0 where
  none_scope object_scope objects_scope stream_scope : ScopeKind

-- What an operation acquires, and what its algorithm is given
pub data Scope (V : Type 0) : Type 0 where
  no_scope : Scope V
  absent : Scope V
  stream : Scope V
  entity : Entity V → Scope V
  records : List (Object V) → Scope V

-- The output or the error of an algorithm
pub record Answer (V : Type 0) : Type 0 where
  pub output : Option V
  pub error : Option V

-- What a caller gets: `null`, an answer, or an exception
pub data Reply (V : Type 0) : Type 0 where
  null_reply : Reply V
  answer : Answer V → Reply V
  failed : Failure → Reply V

-- A request, its query still to be parsed
pub record Request (V R : Type 0) : Type 0 where
  pub input : Option V
  pub query : Option R
  pub entity : Option (List (String × V))
  pub authentic : Bool

-- A request whose query is parsed
pub record Task (V N : Type 0) : Type 0 where
  pub input : Option V
  pub query : Option (Query N)
  pub entity : Option (List (String × V))

-- The cascade's last bridge, by what it is given: an object, which it may change, a scope of
-- another kind, or the properties of a changeset.
pub record Algorithm (W V : Type 0) : Type 0 where
  pub on_object : Option V → Object V → Eff W (Answer V × Object V)
  pub on_scope : Option V → Scope V → Eff W (Answer V)
  pub on_changes : Option V → List (String × V) → Eff W (Answer V × List (String × V))

abbrev pub request_contract : ℕ
request_contract = 202

-- `retry`: the attempts that are left besides this one; `run` tells whether to try again.
unfoldable pub retry : {W A : Type 0} → (W → W) → Eff W (A × Bool) → ℕ → Eff W A
retry pause run zero =
    run >>= λ (reply, again). if again then throw (fault "Retry failed") else give reply
retry pause run (suc left) = run >>= λ (reply, again).
    λ w. let later = retry pause run left (pause w) in if again then later else (ok reply, w)

abbrev pub max_retries : ℕ
max_retries = 32

module _ {W V N : Type 0} (backend : Backend W V N) (algorithm : Algorithm W V) where
  -- `if (query === undefined) throw …`
  unfoldable pub required : Option (Query N) → Eff W (Query N)
  required none = throw (exception request_contract "Request query is required")
  required (some query) = give query

  -- `store.scope === null || store.scope.deleted === true`
  unfoldable pub present : Option (Entity V) → Eff W (Entity V)
  present none = throw (exception state_not_found "StateNotFoundException")
  present (some found) =
      if found.deleted
      then throw (exception state_not_found "StateNotFoundException")
      else give found

  -- `Transition.acquire`; its scope is an object.
  unfoldable pub acquire : Task V N → Eff W (Entity V)
  unfolding present object init_new
  acquire task = elim task.query [
    | none ↦ do created ← init_new backend; present (some created)
    | some query ↦ do found ← object backend query; present found
  ]

  -- The end of `Transition.commit`, by whether the state was stored
  unfoldable pub concluded : Bool → Answer V → Bool → Eff W (Answer V × Bool)
  concluded retries reply stored =
      if stored
      then give (reply, false)
      else if retries
      then give (reply, true)
      else throw (exception state_concurrency "StateConcurrencyException")

  -- `Transition.commit` of a reply that is no error
  unfoldable pub settle_state :
      Bool → Task V N → Entity V → Answer V → Object V → Eff W (Answer V × Bool)
  unfolding set commit concluded
  settle_state retries task scope reply state = do
    changed ← at_time backend.now (λ now. set backend.schema now state scope)
    stored ← commit backend changed task.input
    concluded retries reply stored

  -- `Transition.commit`: the reply, and whether to try again; `retries` is
  -- `concurrency === 'retry'`.
  unfoldable pub settle : Bool → Task V N → Entity V → Answer V × Object V → Eff W (Answer V × Bool)
  unfolding settle_state
  settle retries task scope (reply, state) =
      if is_some reply.error
      then give (reply, false)
      else settle_state retries task scope reply state

  -- `Operation.process` of a transition
  unfoldable pub transit_once : Bool → Task V N → Eff W (Answer V × Bool)
  unfolding acquire settle
  transit_once retries task = do
    scope ← acquire task
    outcome ← algorithm.on_object task.input scope.state
    settle retries task scope outcome

  -- `Transition.process`
  unfoldable pub transit : (W → W) → Bool → Task V N → Eff W (Answer V)
  unfolding retry transit_once
  transit pause retries task = retry pause (transit_once retries task) max_retries

  -- `Operation.query` by the scope of the definition
  unfoldable pub query_scope : ScopeKind → Option (Query N) → Eff W (Scope V)
  unfolding required object find_objects
  query_scope none_scope query = give no_scope
  query_scope object_scope query = do
    q ← required query
    found ← object backend q
    give (elim found as (λ _. Scope V) [ none ↦ absent | some e ↦ entity e ])
  query_scope objects_scope query = do
    q ← required query
    found ← find_objects backend q
    give (records found)
  query_scope stream_scope query = do q ← required query; give stream

  -- `Operation.process` with the `run` of Observation, or without it
  unfoldable pub observe_scope : Task V N → Scope V → Eff W (Reply V)
  observe_scope task absent = give null_reply
  observe_scope task (entity e) =
      if e.deleted
      then give null_reply
      else (do outcome ← algorithm.on_object task.input e.state; give (answer outcome.0))
  observe_scope task scope = do reply ← algorithm.on_scope task.input scope; give (answer reply)

  -- Observation
  unfoldable pub observe : ScopeKind → Task V N → Eff W (Reply V)
  unfolding query_scope observe_scope
  observe kind task = do scope ← query_scope kind task.query; observe_scope task scope

  -- Effect: an entity that is given is ensured.
  unfoldable pub affect : ScopeKind → Task V N → Eff W (Reply V)
  unfolding observe observe_scope ensure
  affect kind task = elim task.entity [
    | none ↦ observe kind task
    | some properties ↦ do
      ensured ← ensure backend task.query properties task.input
      observe_scope task (entity ensured)
  ]

  -- Assignment
  unfoldable pub assign : Task V N → Eff W (Answer V)
  unfolding apply set_changes
  assign task = do
    outcome ← algorithm.on_changes task.input []
    let (reply, changes) = outcome
    if is_some reply.error then give reply else (do
      checked ← at_time backend.now (λ now. set_changes backend.schema now changes empty_changeset)
      updated ← apply backend task.query checked
      give (record reply {
        output = elim reply.output as (λ _. Option V) [
          | some output ↦ some output
          | none ↦ backend.output_of updated
        ];
      }))
