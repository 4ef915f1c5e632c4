-- ===== src/Runtime/Concurrency/Writes.antt =====
-- What the two writes of connectors/storages.mongodb/src/storage.js do to the records.
use kookaburra.Prelude.{
  suc, ◌-◌, ◌≤◌, ◌<◌, String, Bool, true, false, Option, none, some, if◌then◌else◌, ◌≡◌, ◌≢◌, ◌⊎◌,
  inl, inr, nat_eq, arith, refl, sym,
}
use kookaburra.Runtime.Entity.{Object}
use kookaburra.Runtime.Storage.{Answer, acknowledged, Collection, try_store}
use kookaburra.Runtime.Concurrency.{IsSame, IsWrite, IsDatabase, Evolves}

module _ {W V : Type 0} (find : W → String → Option (Object V)) where
  -- What was there before a write: nothing for the first version, else the version before
  abbrev pub IsPrior : Object V → W → Type 0
  IsPrior entity w =
      ((entity.version ≡ 1) × (find w entity.id ≡ none))
      ⊎ ((old : Object V) × (find w entity.id ≡ some old) × (suc old.version ≡ entity.version))

  -- How a write ends: it was made, or it is not acknowledged.
  abbrev pub IsOutcome : Object V → W → Answer Bool × W → Type 0
  IsOutcome entity w (reply, w') =
      (IsPrior entity w × IsWrite find entity w w')
      ⊎ ((reply ≢ acknowledged true) × IsSame find w w')

  pub write-Evolves :
      (entity : Object V) (w w' : W)
      → 1 ≤ entity.version
      → IsPrior entity w
      → IsWrite find entity w w'
      → Evolves find w w'
  write-Evolves entity w w' l prior (there, others) id = elim (others id) [
    | inl here ↦ inr (entity, rw here there, sym here, l, λ old e. older old prior (rw (← here) e))
    | inr same ↦ inl same
  ]
    where
      older :
          (old : Object V)
          → IsPrior entity w
          → find w entity.id ≡ some old
          → old.version < entity.version
      older old (inl (first, nothing)) e = cc
      older old (inr (before, found, next)) e =
          let same : before.version ≡ old.version = cc in omega (arith, next, same)

  pub outcome-Evolves :
      (entity : Object V) (w : W) (p : Answer Bool × W)
      → 1 ≤ entity.version
      → IsOutcome entity w p
      → Evolves find w p.1
  outcome-Evolves entity w (reply, w') l (inl (prior, written)) =
      write-Evolves entity w w' l prior written
  outcome-Evolves entity w (reply, w') l (inr (refused, same)) = λ id. inl (same id)

  module _ (collection : Collection W V) (db : IsDatabase find collection) where
    by_version :
        (entity : Object V) (w : W) (first : Bool)
        → 1 ≤ entity.version
        → nat_eq entity.version 1 ≡ first
        → IsOutcome entity w (
            if first
            then collection.insert_one entity w
            else collection.replace_one entity.id (entity.version - 1) entity w)
    by_version entity w true l e = elim (db.inserts entity w) [
      | inl (nothing, written) ↦ inl (inl (ground arith, nothing), written)
      | inr same ↦ inr same
    ]
    by_version entity w false l e = elim (db.replaces (entity.version - 1) entity w) [
      | inl (old, found, version, written) ↦
          inl (inr (old, found, omega (arith, version, l)), written)
      | inr same ↦ inr same
    ]

    -- The storage inserts the first version of a record and replaces the version before a later
    -- one; or it does not acknowledge the write, and leaves the records as they are.
    pub try_store-IsOutcome :
        (entity : Object V) (w : W)
        → 1 ≤ entity.version
        → IsOutcome entity w (try_store collection entity w)
    unfolding try_store
    try_store-IsOutcome entity w l = by_version entity w (nat_eq entity.version 1) l refl
