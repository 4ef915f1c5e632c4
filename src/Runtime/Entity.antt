-- ===== src/Runtime/Entity.antt =====
-- runtime/core/src/entities/{entity,changeset,factory,set}.js. The schema is a parameter: `fit` gives
-- the object with the defaults that validation filled in, or throws EntityContractException.
use kookaburra.Prelude.{
  ℕ, suc, String, Bool, true, false, ◌||◌, Option, none, some, List, [], if◌then◌else◌, or_else,
  is_some, map,
}
use kookaburra.Result.{Result, ok, err, ◌>>=◌, exception}

-- `_deleted`: not there, `null`, or a time
pub data Deleted : Type 0 where
  undefined null : Deleted
  since : ℕ → Deleted

-- An entity's object: its system properties, `_trailers`, and the others, of any type `V`
pub record Object (V : Type 0) : Type 0 where
  pub id : String
  pub version : ℕ
  pub created : Option ℕ
  pub updated : Option ℕ
  pub deleted : Deleted
  pub trailers : Option (List (String × V))
  pub fields : List (String × V)

pub record Entity (V : Type 0) : Type 0 where
  pub deleted : Bool
  pub origin : Option (Object V)
  pub state : Object V

-- What validation does to a value: `fit` and `fitOptional` of the schema, `match` for changesets
pub record Schema (V : Type 0) : Type 0 where
  pub fit : Object V → Result (Object V)
  pub fit_optional : Object V → Result (Object V)
  pub match : List (String × V) → Option String

abbrev pub entity_contract : ℕ
entity_contract = 212

-- `value._deleted !== null`
abbrev pub is_deleted : Deleted → Bool
is_deleted null = false
is_deleted _ = true

module _ {V : Type 0} where
  -- `Entity.#set` up to the version: trailers and the time of creation
  unfoldable pub stamp : ℕ → Object V → Object V
  stamp now value = record value {
    trailers = some (or_else value.trailers []);
    created = some (or_else value.created now);
    updated = if is_some value.created then value.updated else some (or_else value.updated now);
  }

  -- `Entity.#set` of an entity that has a state
  unfoldable pub replace_state : ℕ → Entity V → Object V → Entity V
  unfolding stamp
  replace_state now entity value = record entity {
    deleted = is_deleted value.deleted || entity.deleted;
    state = record (stamp now value) { updated = some now; version = suc value.version };
  }

  -- `new Entity(schema, record)`
  unfoldable pub from_record : ℕ → Object V → Entity V
  unfolding stamp
  from_record now value = record {
    deleted = is_deleted value.deleted;
    origin = some value;
    state = stamp now value;
  }

  -- `new Entity(schema, id)`: the object `{ id, _version: 0 }`, fitted
  unfoldable pub from_id : Schema V → ℕ → String → Result (Entity V)
  unfolding stamp
  from_id schema now id = do
    value ← schema.fit_optional (record {
      id = id;
      version = 0;
      created = none;
      updated = none;
      deleted = undefined;
      trailers = none;
      fields = [];
    })
    ok (record { deleted = is_deleted value.deleted; origin = none; state = stamp now value })

  -- `Entity.set`
  unfoldable pub set : Schema V → ℕ → Object V → Entity V → Result (Entity V)
  unfolding replace_state
  set schema now value entity = do fitted ← schema.fit value; ok (replace_state now entity fitted)

  -- `Factory.objects`, and `EntitySet.get` of it
  unfoldable pub objects : ℕ → List (Object V) → List (Object V)
  unfolding from_record
  objects now records = map (λ r. (from_record now r).state) records

-- `Changeset`: the properties that an assignment sets
pub record Changeset (V : Type 0) : Type 0 where
  pub state : List (String × V)
  pub updated : Option ℕ

abbrev pub empty_changeset : {V : Type 0} → Changeset V
empty_changeset = record { state = []; updated = none }

-- `Changeset.set`; the properties hold no `_version`, which it deletes.
unfoldable pub set_changes :
    {V : Type 0} → Schema V → ℕ → List (String × V) → Changeset V → Result (Changeset V)
set_changes schema now value changes = elim (schema.match value) [
  | some message ↦ err (exception entity_contract message)
  | none ↦ ok (record { state = value; updated = some now })
]
