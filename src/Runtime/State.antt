-- ===== src/Runtime/State.antt =====
-- runtime/core/src/state.js: the state of a component, over its storage and its events.
-- The storage, the emission of events, the clock, new identifiers and `difference` of
-- libraries/generic are parameters; they work on a world `W`.
use kookaburra.Prelude.{
  ℕ, String, Bool, true, false, not, ◌&&◌, Option, none, some, List, ◌==◌, if◌then◌else◌, is_some,
  or_else,
}
use kookaburra.Result.{Failure, Result, ok, err, exception, fault}
use kookaburra.Dict.{assign}
use kookaburra.Runtime.Eff.{Eff, ◌>>=◌, give, throw, after}
use kookaburra.Runtime.Entity.{
  Object, Entity, Schema, Changeset, from_record, from_id, set, objects,
}

-- `toa.core.storages.Query`, its criteria of any type `N`
pub record Query (N : Type 0) : Type 0 where
  pub id : Option String
  pub version : Option ℕ
  pub criteria : Option N

pub record Event (V : Type 0) : Type 0 where
  pub origin : Option (Object V)
  pub state : Object V
  pub changeset : List (String × V)
  pub trailers : Option (List (String × V))
  pub input : Option V

pub record Backend (W V N : Type 0) : Type 0 where
  pub schema : Schema V
  pub associated : Bool
  pub get : Query N → Eff W (Option (Object V))
  pub find : Query N → Eff W (List (Object V))
  pub store : Object V → Eff W Bool
  pub upsert : Option (Query N) → Changeset V → Eff W (Option (Object V))
  pub ensure : Option (Query N) → List (String × V) → Object V → Eff W (Option (Object V))
  pub emit : Event V → Eff W (Unit {0})
  pub now : W → ℕ
  pub new_id : W → String × W
  pub difference : Object V → Object V → Result (List (String × V))
  pub properties_of : Object V → List (String × V)
  pub output_of : Object V → Option V

abbrev pub state_not_found : ℕ
state_not_found = 302

abbrev pub state_precondition : ℕ
state_precondition = 303

abbrev pub state_concurrency : ℕ
state_concurrency = 304

-- A result, at the time of the world
abbrev pub at_time : {W A : Type 0} → (W → ℕ) → (ℕ → Result A) → Eff W A
at_time clock run = λ w. (run (clock w), w)

module _ {W V N : Type 0} (backend : Backend W V N) where
  -- `State.init`
  unfoldable pub init : String → Eff W (Entity V)
  unfolding from_id
  init id = at_time backend.now (λ now. from_id backend.schema now id)

  -- `State.init` with no identifier
  unfoldable pub init_new : Eff W (Entity V)
  unfolding init
  init_new = λ w. let (id, w') = backend.new_id w in init id w'

  -- What `State.object` makes of a record, or of `null`
  unfoldable pub object_of : Query N → Option (Object V) → Eff W (Option (Entity V))
  unfolding init
  object_of query (some found) = λ w. (ok (some (from_record (backend.now w) found)), w)
  object_of query none =
      if backend.associated
        && is_some query.id
        && not (is_some query.criteria)
        && not (is_some query.version)
      then (do entity ← init (or_else query.id ""); give (some entity))
      else if is_some query.version
      then throw (exception state_precondition "StatePreconditionException")
      else give none

  -- `State.object`
  unfoldable pub object : Query N → Eff W (Option (Entity V))
  unfolding object_of
  object query = do found ← backend.get query; object_of query found

  -- `State.objects`
  unfoldable pub find_objects : Query N → Eff W (List (Object V))
  find_objects query = do
    records ← backend.find query
    at_time backend.now (λ now. ok (objects now records))

  abbrev pub event_of : Option V → Entity V → List (String × V) → Event V
  event_of input entity changes = record {
    origin = entity.origin;
    state = entity.state;
    changeset = changes;
    trailers = entity.state.trailers;
    input = input;
  }

  -- `Entity.event`
  unfoldable pub event : Option V → Entity V → Result (Event V)
  event input entity = elim entity.origin [
    | none ↦ ok (event_of input entity (backend.properties_of entity.state))
    | some origin ↦ elim (backend.difference origin entity.state) [
      | err failure ↦ err failure
      | ok changes ↦ ok (event_of input entity changes)
    ]
  ]

  -- `const event = state.event(input)`, and its emission
  unfoldable pub announce : Option V → Entity V → Eff W (Unit {0})
  unfolding event
  announce input entity = λ w. after (event input entity, w) backend.emit

  -- `State.commit`
  unfoldable pub commit : Entity V → Option V → Eff W Bool
  unfolding announce
  commit entity input = do
    stored ← backend.store entity.state
    if stored then (do done ← announce input entity; give true) else give false

  -- The exception of `apply` where no record was updated
  unfoldable pub not_updated : Option (Query N) → Failure
  not_updated none = fault "Cannot read properties of undefined (reading 'version')"
  not_updated (some query) =
      exception (if is_some query.version then state_precondition else state_not_found) ""

  -- `State.apply`, of the changes that an assignment made
  unfoldable pub apply : Option (Query N) → Changeset V → Eff W (Object V)
  unfolding not_updated
  apply query changes = do
    result ← backend.upsert query changes
    elim result [
      | none ↦ throw (not_updated query)
      | some updated ↦ do
        done ← backend.emit (record {
          origin = none;
          state = updated;
          changeset = changes.state;
          trailers = none;
          input = none;
        })
        give updated
    ]

  -- The end of `State.ensure`: a record with another identifier was there before.
  unfoldable pub ensured : Option V → Entity V → Option (Object V) → Eff W (Entity V)
  unfolding announce
  ensured input created none = throw (fault "Cannot read properties of null (reading 'id')")
  ensured input created (some found) =
      if found.id == created.state.id
      then (do done ← announce input created; give created)
      else (λ w. (ok (from_record (backend.now w) found), w))

  -- `State.ensure`, for properties that are none of the system's
  unfoldable pub ensure : Option (Query N) → List (String × V) → Option V → Eff W (Entity V)
  unfolding init_new ensured
  ensure query properties input = do
    blank ← init_new
    created ← at_time backend.now (λ now.
        set backend.schema now
          (record blank.state { fields = assign blank.state.fields properties }) blank)
    found ← backend.ensure query properties created.state
    ensured input created found
