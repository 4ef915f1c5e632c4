-- ===== src/Runtime/Concurrency/Safety.antt =====
-- No transition overwrites what it has not read.
use kookaburra.Prelude.{
  ℕ, suc, ◌≤◌, String, Bool, true, false, Option, none, some, if◌then◌else◌, ◌≡◌, inl, inr, nat_eq,
  arith, refl, sym, ◌∙◌, ap, subst,
}
use kookaburra.Result.{ok, >>=-eq-ok}
use kookaburra.Runtime.Entity.{Object, Entity, Schema, from_record, from_id, replace_state}
use kookaburra.Runtime.Storage.{Answer, acknowledged, Collection, try_store}
use kookaburra.Runtime.Concurrency.{
  IsWrite, IsDatabase, Evolves, System, hold, Step, reads, begins, commits, passes, Reach, idle,
  later,
}
use kookaburra.Runtime.Concurrency.Writes.{IsPrior, IsOutcome, outcome-Evolves, try_store-IsOutcome}

module _ {W V : Type 0} (find : W → String → Option (Object V)) where
  -- Records stand under their identifiers, and have versions from 1 on.
  abbrev pub HasRecords : W → Type 0
  HasRecords w =
      (id : String) (found : Object V)
      → find w id ≡ some found
      → (found.id ≡ id) × (1 ≤ found.version)

  -- A record that was read is there still, or a later version of it is.
  abbrev pub IsRead : W → Object V → Object V → Type 0
  IsRead w origin state =
      (1 ≤ origin.version)
      × (state.id ≡ origin.id)
      × (state.version ≡ origin.version)
      × ((now : Object V) × (find w origin.id ≡ some now)
          × (origin.version ≤ now.version)
          × (origin.version ≡ now.version → now ≡ origin))

  abbrev pub IsCurrent : W → Option (Object V) → Object V → Type 0
  IsCurrent w none state = state.version ≡ 0
  IsCurrent w (some origin) state = IsRead w origin state

  abbrev pub IsHeld : W → Option (Entity V) → Type 0
  IsHeld w none = Unit
  IsHeld w (some entity) = IsCurrent w entity.origin entity.state

  abbrev pub Holds : System W V → Type 0
  Holds s = HasRecords s.world × ((client : ℕ) → IsHeld s.world (s.held client))

  Evolves-HasRecords : (w w' : W) → Evolves find w w' → HasRecords w → HasRecords w'
  Evolves-HasRecords w w' step h id found e = elim (step id) [
    | inl same ↦ h id found (sym same ∙ e)
    | inr (new, there, here, l, newer) ↦ let same : new ≡ found = cc in rw (← same) (here, l)
  ]

  Evolves-IsCurrent :
      (w w' : W) (origin : Option (Object V)) (state : Object V)
      → Evolves find w w'
      → IsCurrent w origin state
      → IsCurrent w' origin state
  Evolves-IsCurrent w w' none state step h = h
  Evolves-IsCurrent w w' (some origin) state step (l, id, version, (now, there, m, same)) =
      elim (step origin.id) [
        | inl still ↦ (l, id, version, (now, still ∙ there, m, same))
        | inr (new, e, here, k, newer) ↦ (
          l,
          id,
          version,
          (
            new,
            e,
            omega (arith, m, newer now there),
            λ f. absurd omega (arith, m, f, newer now there),
          ),
        )
      ]

  -- Holding one thing more keeps what the others hold.
  hold-IsHeld :
      (w : W) (held : ℕ → Option (Entity V)) (client : ℕ) (given : Option (Entity V))
      → ((other : ℕ) → IsHeld w (held other))
      → IsHeld w given
      → (other : ℕ) → IsHeld w (hold held client given other)
  hold-IsHeld w held client given h g other = by_client (nat_eq client other)
    where
      by_client : (b : Bool) → IsHeld w (if b then given else held other)
      by_client true = g
      by_client false = h other

  Evolves-IsHeld :
      (w w' : W) (given : Option (Entity V)) → Evolves find w w' → IsHeld w given → IsHeld w' given
  Evolves-IsHeld w w' none step h = tt
  Evolves-IsHeld w w' (some entity) step h =
      Evolves-IsCurrent w w' entity.origin entity.state step h

  Evolves-Holds :
      (w : W) (s : System W V)
      → Evolves find s.world w
      → Holds s
      → Holds (record { world = w; held = s.held })
  Evolves-Holds w s step (rows, held) = (
    Evolves-HasRecords s.world w step rows,
    λ client. Evolves-IsHeld s.world w (s.held client) step (held client),
  )

  hold-Holds :
      (w : W) (held : ℕ → Option (Entity V)) (client : ℕ) (given : Option (Entity V))
      → Holds (record { world = w; held = held })
      → IsHeld w given
      → Holds (record { world = w; held = hold held client given })
  hold-Holds w held client given (rows, h) g = (rows, hold-IsHeld w held client given h g)

  module _ (collection : Collection W V) (schema : Schema V) (db : IsDatabase find collection) where
    commit-Evolves :
        (now : ℕ) (entity : Entity V) (value : Object V) (w : W)
        → Evolves find w (try_store collection (replace_state now entity value).state w).1
    unfolding replace_state
    commit-Evolves now entity value w =
        let state = (replace_state now entity value).state in
        outcome-Evolves find state w (try_store collection state w) (omega arith)
          (try_store-IsOutcome find collection db state w (omega arith))

    from_id-IsHeld :
        (now : ℕ) (id : String) (entity : Entity V) (w : W)
        → from_id schema now id ≡ ok entity
        → entity.state.version ≡ 0
        → IsHeld w (some entity)
    unfolding from_id
    from_id-IsHeld now id entity w e first =
        let (value, fits, made) = >>=-eq-ok (schema.fit_optional _) _ entity e in
        let fresh : none ≡ entity.origin = cc in rw (← fresh) first

    step-Holds : {s t : System W V} → Step find collection schema s t → Holds s → Holds t
    unfolding from_record
    step-Holds {s} (reads client now id found there) (rows, held) =
        let (same, l) = rows id found there in
        hold-Holds s.world s.held client (some (from_record now found)) (rows, held)
          (l, refl, refl, (found, ap (find s.world) same ∙ there, omega arith, λ f. refl))
    step-Holds {s} (begins client now id entity e first) holds =
        hold-Holds s.world s.held client (some entity) holds
          (from_id-IsHeld now id entity s.world e first)
    step-Holds {s} (commits client now entity value e same_id same_version) holds =
        let state = (replace_state now entity value).state in
        let w = (try_store collection state s.world).1 in
        hold-Holds w s.held client none
          (Evolves-Holds w s (commit-Evolves now entity value s.world) holds) tt
    step-Holds {s} (passes w step) holds = Evolves-Holds w s step holds

    -- The invariant of any interleaving of transitions: each holds what it has read, and the
    -- storage has that record or a later version of it.
    pub reach-Holds :
        (start : W) (s : System W V)
        → HasRecords start
        → Reach find collection schema start s
        → Holds s
    reach-Holds start s rows idle = (rows, λ client. tt)
    reach-Holds start s rows (later {s = before} reach step) =
        step-Holds step (reach-Holds start before rows reach)

  -- Nobody wrote the record since it was read; a new object's identifier is still free.
  abbrev pub IsUntouched : W → Option (Object V) → Object V → Type 0
  IsUntouched w none state = find w state.id ≡ none
  IsUntouched w (some origin) state = find w origin.id ≡ some origin

  prior-IsUntouched :
      (w : W) (origin : Option (Object V)) (state : Object V) (entity : Object V)
      → HasRecords w
      → entity.id ≡ state.id
      → entity.version ≡ suc state.version
      → IsCurrent w origin state
      → IsPrior find entity w
      → IsUntouched w origin state
  prior-IsUntouched w none state entity rows id version current (inl (first, nothing)) =
      rw (← id) nothing
  prior-IsUntouched w none state entity rows id version current (inr (old, found, next)) =
      let (here, l) = rows entity.id old found in absurd (omega (arith, l, next, version, current))
  prior-IsUntouched w (some origin) state entity rows id version current (inl (first, nothing)) =
      let (l, same_id, same_version, rest) = current in
      absurd (omega (arith, first, version, same_version, l))
  prior-IsUntouched w (some origin) state entity rows id version current (inr (old, found, next)) =
      let (l, same_id, same_version, (now, there, m, same)) = current in
      let here : find w origin.id ≡ some old = ap (find w) (sym same_id ∙ sym id) ∙ found in
      let known : now ≡ old = cc in
      let old_version : now.version ≡ old.version = ap (λ o. o.version) known in
      here ∙ ap some (sym known ∙ same (omega (arith, old_version, next, version, same_version)))

  module _ (collection : Collection W V) (schema : Schema V) (db : IsDatabase find collection) where
    made :
        (entity : Object V) (w : W) (p : Answer Bool × W)
        → p.0 ≡ acknowledged true
        → IsOutcome find entity w p
        → IsPrior find entity w × IsWrite find entity w p.1
    made entity w (reply, w') e (inl written) = written
    made entity w (reply, w') e (inr (refused, same)) = absurd (refused e)

    -- No update is lost. Whatever other transitions and writes came between, a transition whose
    -- write is acknowledged has replaced the very record that it read, or has added a record
    -- under an identifier that was free; the record is then what it wrote, and no other record
    -- has changed. The algorithm keeps the identifier and the version of the object.
    pub commit_atomic :
        (start : W) (s : System W V) (client now : ℕ) (entity : Entity V) (value : Object V)
        → HasRecords start
        → Reach find collection schema start s
        → s.held client ≡ some entity
        → value.id ≡ entity.state.id
        → value.version ≡ entity.state.version
        → (try_store collection (replace_state now entity value).state s.world).0
          ≡ acknowledged true
        → IsUntouched s.world entity.origin entity.state
          × IsWrite find
              (replace_state now entity value).state
              s.world
              (try_store collection (replace_state now entity value).state s.world).1
    unfolding replace_state
    commit_atomic start s client now entity value rows reach e id version done =
        let (records, held) = reach-Holds collection schema db start s rows reach in
        let current : IsHeld s.world (some entity) = subst (IsHeld s.world) e (held client) in
        let state = (replace_state now entity value).state in
        let (prior, written) =
          made state s.world (try_store collection state s.world) done
            (try_store-IsOutcome find collection db state s.world (omega arith)) in
        (
          prior-IsUntouched s.world entity.origin entity.state state records id (ap suc version)
              current prior,
          written,
        )
