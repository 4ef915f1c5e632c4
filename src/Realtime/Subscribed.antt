-- ===== src/Realtime/Subscribed.antt =====
-- What a subscriber of a stream of events gets.
use kookaburra.Prelude.{
  ℕ, String, true, false, none, some, List, [], ◌∷◌, ◌++◌, if◌then◌else◌, ◌≡◌, ◌≢◌, inl, inr, refl,
  sym, ap, subst, ◌∙◌, ◌==◌, eq_iff, eq_refl, Bool-cases, Option-cases,
}
use kookaburra.Dict.{lookup, insert, lookup-insert, lookup-delete}
use kookaburra.Realtime.{
  Stream, State, has, new_stream, fork, decrement, create, close_fork, close_stream, deliveries,
  push, Step, creates, closes, ends, pushes, Reached, then_step,
}
use kookaburra.Realtime.Counts.{
  Counted, held, has-append, has-append_last, decrement-piped, some-injective, push-streams,
  Reached-Counted,
}

module _ {E : Type 0} where
  abbrev pub Subscribed : String → ℕ → State E → Type 0
  Subscribed key id s =
      (stream : Stream) × (lookup key s.streams ≡ some stream)
      × (stream.destroyed ≡ false)
      × (has id stream.pipes ≡ true)

  -- Another fork closes, if any does.
  abbrev pub IsOther : {s t : State E} → String → ℕ → Step s t → Type 0
  IsOther key id (creates at) = Unit
  IsOther key id (closes at other stream found has_id) = (at ≡ key) → (id ≢ other)
  IsOther key id (ends at stream found gone) = Unit
  IsOther key id (pushes at event) = Unit

  -- The states to which steps lead, the closing of the fork left out
  pub data Later (key : String) (id : ℕ) (s : State E) : State E → Type 0 where
    stays : Later key id s s
    goes :
        {t u : State E}
        → Later key id s t
        → (step : Step t u) → IsOther key id step
        → Later key id s u

  inserted :
      (s : State E) (at key : String) (new : Stream)
      → (at == key) ≡ true
      → lookup key (insert at new s.streams) ≡ some new
  inserted s at key new same =
      lookup-insert at key new s.streams
      ∙ ap (λ b. if b then some new else lookup key s.streams) same

  inserted_apart :
      (s : State E) (at key : String) (new : Stream)
      → (at == key) ≡ false
      → lookup key (insert at new s.streams) ≡ lookup key s.streams
  inserted_apart s at key new apart =
      lookup-insert at key new s.streams
      ∙ ap (λ b. if b then some new else lookup key s.streams) apart

  insert-Subscribed :
      (s : State E) (at key : String) (id : ℕ) (new : Stream)
      → Subscribed key id s
      → (at ≡ key → (new.destroyed ≡ false) × (has id new.pipes ≡ true))
      → (stream : Stream) × (lookup key (insert at new s.streams) ≡ some stream)
        × (stream.destroyed ≡ false)
        × (has id stream.pipes ≡ true)
  insert-Subscribed s at key id new (stream, found, alive, piped) h =
      elim (Bool-cases (at == key)) [
        | inl same ↦
            let (alive_new, piped_new) = h ((eq_iff at key).0 same) in
            (new, inserted s at key new same, alive_new, piped_new)
        | inr apart ↦ (stream, inserted_apart s at key new apart ∙ found, alive, piped)
      ]

  fork-piped :
      (s : State E) (key : String) (id : ℕ) (stream : Stream)
      → lookup key s.streams ≡ some stream
      → stream.destroyed ≡ false
      → has id stream.pipes ≡ true
      → ((fork s.issued (held s key)).destroyed ≡ false)
        × (has id (fork s.issued (held s key)).pipes ≡ true)
  unfolding fork
  fork-piped s key id stream found alive piped =
      rw found (alive, has-append id stream.pipes (s.issued ∷ []) piped)

  Step-Subscribed :
      (s t : State E) (key : String) (id : ℕ)
      → Counted s
      → Subscribed key id s
      → (step : Step s t) → IsOther key id step
      → Subscribed key id t
  unfolding create close_fork close_stream
  Step-Subscribed s _ key id counted (stream, found, alive, piped) (creates at) others =
      insert-Subscribed s at key id (fork s.issued (held s at)) (stream, found, alive, piped)
        (λ e. fork-piped s at id stream (ap (λ k. lookup k s.streams) e ∙ found) alive piped)
  Step-Subscribed s _ key id counted (stream, found, alive, piped)
        (closes at other closing seen has_other) others =
      insert-Subscribed s at key id (decrement other closing) (stream, found, alive, piped)
        (λ e.
          let same : stream ≡ closing =
            some-injective (sym found ∙ (ap (λ k. lookup k s.streams) (sym e) ∙ seen)) in
          decrement-piped id other closing (counted at closing seen) has_other (others e)
            (subst (λ x. x.destroyed ≡ false) same alive)
            (subst (λ x. has id x.pipes ≡ true) same piped))
  Step-Subscribed s _ key id counted (stream, found, alive, piped) (ends at ending seen gone)
        others =
      elim (Bool-cases (at == key)) [
        | inl same ↦
            let one : stream ≡ ending =
              some-injective (
                sym found ∙ (ap (λ k. lookup k s.streams) (sym ((eq_iff at key).0 same)) ∙ seen)) in
            cc (one, alive, gone)
        | inr apart ↦ (
          stream,
          lookup-delete at key s.streams
              ∙ (ap (λ b. if b then none else lookup key s.streams) apart ∙ found),
          alive,
          piped,
        )
      ]
  Step-Subscribed s _ key id counted (stream, found, alive, piped) (pushes at event) others =
      (stream, ap (lookup key) (push-streams at event s) ∙ found, alive, piped)

  -- From a reached state on, and as long as the fork does not close
  Later-Subscribed :
      (s : State E) (key : String) (id : ℕ)
      → Reached s
      → Subscribed key id s
      → (t : State E) → Later key id s t
      → Reached t × Subscribed key id t
  Later-Subscribed s key id reached subscribed _ stays = (reached, subscribed)
  Later-Subscribed s key id reached subscribed _ (goes {t} {u} before step others) =
      let (there, still) = Later-Subscribed s key id reached subscribed t before in
      (then_step there step, Step-Subscribed t u key id (Reached-Counted t there) still step others)

  create-Subscribed :
      (s : State E) (key : String)
      → ((old : Stream) → lookup key s.streams ≡ some old → old.destroyed ≡ false)
      → Subscribed key s.issued (create key s)
  unfolding create fork new_stream
  create-Subscribed s key alive = (
    fork s.issued (held s key),
    inserted s key key (fork s.issued (held s key)) (eq_refl key),
    elim (Option-cases (lookup key s.streams)) [
      | inl absent ↦ rw absent refl
      | inr (old, found) ↦ rw found (alive old found)
    ],
    has-append_last s.issued (held s key).pipes,
  )

  -- Who subscribes to a key, whose stream is not just ending, gets every event that is pushed
  -- to it, whatever other forks come and go in between, until its own fork closes.
  pub create-delivers :
      (s t : State E) (key : String) (event : E)
      → Reached s
      → ((old : Stream) → lookup key s.streams ≡ some old → old.destroyed ≡ false)
      → Later key s.issued (create key s) t
      → (pipes : List ℕ) × (has s.issued pipes ≡ true)
        × ((push key event t).delivered ≡ t.delivered ++ deliveries event pipes)
  unfolding push
  create-delivers s t key event reached alive later =
      let (there, (stream, found, lives, piped)) =
        Later-Subscribed (create key s) key s.issued (then_step reached (creates key))
          (create-Subscribed s key alive) t later in
      (stream.pipes, piped, rw (found, push, lives) refl)

  push-ending :
      (t : State E) (key : String) (event : E) (stream : Stream)
      → lookup key t.streams ≡ some stream
      → stream.destroyed ≡ true
      → push key event t ≡ t
  unfolding push
  push-ending t key event stream there ending = rw (there, push, ending) refl

  -- A fork of a stream that is destroyed, but has not said so yet, gets nothing.
  pub create-ending :
      (s : State E) (key : String) (event : E) (old : Stream)
      → lookup key s.streams ≡ some old
      → old.destroyed ≡ true
      → (push key event (create key s)).delivered ≡ s.delivered
  unfolding push create fork
  create-ending s key event old found ending =
      let t = create key s in
      let forked = fork s.issued (held s key) in
      let there : lookup key t.streams ≡ some forked = inserted s key key forked (eq_refl key) in
      let ends_too : forked.destroyed ≡ true = rw found ending in
      ap (λ u. u.delivered) (push-ending t key event forked there ends_too)
