-- ===== src/Runtime/Storage.antt =====
-- connectors/storages.mongodb/src/{storage,record}.js: records by their identifiers. The collection
-- of the database is a parameter, which answers or refuses; so is what passes in a second of
-- waiting. Criteria and options stand in Runtime/Criteria; logs and indexes are left out.
pub mod Waiting
use kookaburra.Prelude.{
  ℕ, zero, suc, ◌-◌, String, Bool, true, false, not, ◌&&◌, ◌||◌, Option, none, some, List, [], ◌∷◌,
  if◌then◌else◌, nat_eq, ltb, is_some,
}
use kookaburra.Result.{Result, ok, err, Failure, exception, fault}
use kookaburra.Dict.{lookup}
use kookaburra.Runtime.Eff.{Eff, ◌>>=◌, give, throw, after}
use kookaburra.Runtime.Entity.{Object, Deleted, undefined, null, since, is_deleted}

-- How the driver answers: with a value, or with an error, of which the code tells some apart
pub data Answer (A : Type 0) : Type 0 where
  acknowledged : A → Answer A
  duplicate_id : Answer A
  duplicate_key : Answer A
  refused : Answer A
  broken : String → Answer A

-- `import('mongodb').Collection`, in a world `W`; `pause` is the timeout of a second.
pub record Collection (W V : Type 0) : Type 0 where
  pub insert_one : Object V → W → Answer Bool × W
  -- `findOneAndReplace` by identifier and version: whether a record was there
  pub replace_one : String → ℕ → Object V → W → Answer Bool × W
  pub pause : W → W

abbrev pub duplicate : ℕ
duplicate = 306

module _ {W V : Type 0} (collection : Collection W V) where
  -- `Storage.add`
  unfoldable pub add : Object V → W → Answer Bool × W
  add entity = collection.insert_one entity

  -- `Storage.set`
  unfoldable pub set : Object V → W → Answer Bool × W
  set entity = collection.replace_one entity.id (entity.version - 1) entity

  -- The `try` of `store`
  unfoldable pub try_store : Object V → W → Answer Bool × W
  unfolding add set
  try_store entity w = if nat_eq entity.version 1 then add entity w else set entity w

  -- The `catch` of `store`, given how it goes on after a pause
  unfoldable pub settle_answer :
      ℕ → Answer Bool × W → (W → Option (Result Bool × W)) → Option (Result Bool × W)
  settle_answer attempt (acknowledged stored, w) again = some (ok stored, w)
  settle_answer attempt (duplicate_id, w) again = some (ok false, w)
  settle_answer attempt (duplicate_key, w) again =
      some (err (exception duplicate "DuplicateException"), w)
  settle_answer attempt (broken message, w) again = some (err (fault message), w)
  settle_answer attempt (refused, w) again =
      if ltb 10 attempt then some (err (fault "ECONNREFUSED"), w) else again (collection.pause w)

  -- `Storage.store`, with fuel for its calls of itself; they leave `attempt` at its default, 0.
  unfoldable pub store : ℕ → ℕ → Object V → W → Option (Result Bool × W)
  unfolding settle_answer
  store zero attempt entity w = none
  store (suc fuel) attempt entity w =
      settle_answer attempt (try_store entity w) (store fuel 0 entity)

-- `to` and `from` of record.js only rename `id`; a record is an object here.
-- `find` asks for the records that are not deleted.
abbrev pub live : {V : Type 0} → Object V → Bool
live record_found = not (is_deleted record_found.deleted)
