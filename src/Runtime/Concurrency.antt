-- ===== src/Runtime/Concurrency.antt =====
-- Several transitions over one collection of connectors/storages.mongodb: each reads a record or
-- starts a new object, and later writes what it made of it, in any order. What the database does
-- is stated by the laws of `IsDatabase`; `find` is what it holds.
pub mod Writes
pub mod Safety
use kookaburra.Prelude.{
  ℕ, suc, ◌≤◌, ◌<◌, String, Bool, true, false, Option, none, some, if◌then◌else◌, ◌≡◌, ◌≢◌, ◌⊎◌,
  nat_eq,
}
use kookaburra.Result.{Result, ok, err}
use kookaburra.Runtime.Entity.{Object, Entity, Schema, from_record, from_id, replace_state}
use kookaburra.Runtime.Storage.{Answer, acknowledged, Collection, try_store}

module _ {W V : Type 0} (find : W → String → Option (Object V)) where
  abbrev pub IsSame : W → W → Type 0
  IsSame w w' = (id : String) → find w' id ≡ find w id

  -- The record is there, under its identifier, and the others are as they were.
  abbrev pub IsWrite : Object V → W → W → Type 0
  IsWrite entity w w' =
      (find w' entity.id ≡ some entity)
      × ((id : String) → (id ≡ entity.id) ⊎ (find w' id ≡ find w id))

  -- What MongoDB promises of a write to one document: it is made or not, at once; it is made if it
  -- is acknowledged; an identifier is inserted once; a record is replaced where its identifier
  -- and its version are those asked for. An answer that is lost leaves open which it was.
  pub record IsDatabase (collection : Collection W V) : Type 0 where
    pub inserts :
        (entity : Object V) (w : W)
        → ((find w entity.id ≡ none) × IsWrite entity w (collection.insert_one entity w).1)
          ⊎ (((collection.insert_one entity w).0 ≢ acknowledged true)
              × IsSame w (collection.insert_one entity w).1)
    pub replaces :
        (version : ℕ) (entity : Object V) (w : W)
        → ((old : Object V) × (find w entity.id ≡ some old)
            × (old.version ≡ version)
            × IsWrite entity w (collection.replace_one entity.id version entity w).1)
          ⊎ (((collection.replace_one entity.id version entity w).0 ≢ acknowledged true)
              × IsSame w (collection.replace_one entity.id version entity w).1)

  -- What any write does to the records, `upsert` and `ensure` included: a record that it changes
  -- gets a greater version.
  abbrev pub Evolves : W → W → Type 0
  Evolves w w' =
      (id : String)
      → (find w' id ≡ find w id)
        ⊎ ((new : Object V) × (find w' id ≡ some new)
            × (new.id ≡ id)
            × (1 ≤ new.version)
            × ((old : Object V) → find w id ≡ some old → old.version < new.version))

-- What the transitions under way hold, by a number for each
pub record System (W V : Type 0) : Type 0 where
  pub world : W
  pub held : ℕ → Option (Entity V)

abbrev pub hold :
    {V : Type 0} → (ℕ → Option (Entity V)) → ℕ → Option (Entity V) → ℕ → Option (Entity V)
hold held client entity other = if nat_eq client other then entity else held other

module _ {W V : Type 0} (find : W → String → Option (Object V)) (collection : Collection W V)
    (schema : Schema V) where
  pub data Step (s : System W V) : System W V → Type 0 where
    -- `State.object` that finds a record
    reads :
        (client now : ℕ) (id : String) (found : Object V)
        → find s.world id ≡ some found
        → Step s
            (record { world = s.world; held = hold s.held client (some (from_record now found)) })
    -- `State.init`
    begins :
        (client now : ℕ) (id : String) (entity : Entity V)
        → from_id schema now id ≡ ok entity
        → entity.state.version ≡ 0
        → Step s (record { world = s.world; held = hold s.held client (some entity) })
    -- `Entity.set` and `Storage.store`, of a value that keeps its identifier and version, as the
    -- runtime wants of algorithms
    commits :
        (client now : ℕ) (entity : Entity V) (value : Object V)
        → s.held client ≡ some entity
        → value.id ≡ entity.state.id
        → value.version ≡ entity.state.version
        → Step s (record {
          world = (try_store collection (replace_state now entity value).state s.world).1;
          held = hold s.held client none;
        })
    -- Another write
    passes : (w : W) → Evolves find s.world w → Step s (record { world = w; held = s.held })

  pub data Reach (start : W) : System W V → Type 0 where
    idle : Reach start (record { world = start; held = λ client. none })
    later : {s t : System W V} → Reach start s → Step s t → Reach start t
