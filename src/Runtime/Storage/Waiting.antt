-- ===== src/Runtime/Storage/Waiting.antt =====
-- How long `Storage.store` tries.
use kookaburra.Prelude.{ℕ, zero, suc, ◌<◌, Bool, Option, none, ◌≡◌, ◌≢◌, refl, sym, ◌∙◌, arith}
use kookaburra.Result.{Result}
use kookaburra.Runtime.Entity.{Object}
use kookaburra.Runtime.Storage.{
  Answer, acknowledged, duplicate_id, duplicate_key, refused, broken, Collection, try_store,
  settle_answer, store,
}

module _ {W V : Type 0} (collection : Collection W V) where
  -- The world after a number of refused calls, each with its pause
  abbrev pub paused : ℕ → Object V → W → W
  paused zero entity w = w
  paused (suc n) entity w = paused n entity (collection.pause (try_store collection entity w).1)

  -- The database refuses each of the next calls.
  abbrev pub Refuses : ℕ → Object V → W → Type 0
  Refuses zero entity w = Unit
  Refuses (suc n) entity w =
      ((try_store collection entity w).0 ≡ refused)
      × Refuses n entity (collection.pause (try_store collection entity w).1)

  refused_again :
      (p : Answer Bool × W) (again : W → Option (Result Bool × W))
      → p.0 ≡ refused
      → settle_answer collection 0 p again ≡ again (collection.pause p.1)
  unfolding settle_answer
  refused_again (acknowledged s, w) again e = cc
  refused_again (duplicate_id, w) again e = cc
  refused_again (duplicate_key, w) again e = cc
  refused_again (refused, w) again e = refl
  refused_again (broken m, w) again e = cc

  -- The first answer that is no refusal ends the attempts.
  answered :
      (p : Answer Bool × W) (again other : W → Option (Result Bool × W))
      → p.0 ≢ refused
      → (settle_answer collection 0 p again ≡ settle_answer collection 0 p other)
        × (settle_answer collection 0 p again ≢ none)
  unfolding settle_answer
  answered (acknowledged s, w) again other e = (refl, λ f. cc)
  answered (duplicate_id, w) again other e = (refl, λ f. cc)
  answered (duplicate_key, w) again other e = (refl, λ f. cc)
  answered (refused, w) again other e = absurd (e refl)
  answered (broken m, w) again other e = (refl, λ f. cc)

  -- However many calls are refused, `store` returns once one is answered: one more unit of fuel
  -- than refusals is enough, and its result is that of a first call in the world then.
  pub store_enough :
      (n fuel : ℕ) (entity : Object V) (w : W)
      → Refuses n entity w
      → (try_store collection entity (paused n entity w)).0 ≢ refused
      → n < fuel
      → (store collection fuel 0 entity w ≡ store collection 1 0 entity (paused n entity w))
        × (store collection fuel 0 entity w ≢ none)
  unfolding store
  store_enough n zero entity w h k l = absurd (omega arith)
  store_enough zero (suc fuel) entity w h k l = answered _ _ _ k
  store_enough (suc n) (suc fuel) entity w (here, h) k l =
      let (same, done) =
        store_enough n fuel entity (collection.pause (try_store collection entity w).1) h k
          (omega arith) in
      let step =
        refused_again (try_store collection entity w) (store collection fuel 0 entity) here in
      (step ∙ same, λ e. done (sym step ∙ e))

  -- A flaw: each call of itself starts at attempt 0, so that the bound on attempts is never
  -- reached. While the database refuses, `store` does not return: no fuel is enough.
  pub store_waits :
      (fuel : ℕ) (entity : Object V) (w : W)
      → Refuses fuel entity w
      → store collection fuel 0 entity w ≡ none
  unfolding store
  store_waits zero entity w h = refl
  store_waits (suc fuel) entity w (here, h) =
      refused_again (try_store collection entity w) (store collection fuel 0 entity) here
      ∙ store_waits fuel entity (collection.pause (try_store collection entity w).1) h
