-- ===== src/Tests/Subscriptions.antt =====
-- Concrete runs of the streams of events.
use kookaburra.Prelude.{ℕ, true, false, some, List, [], ◌∷◌, ◌++◌, ◌≡◌, refl}
use kookaburra.Dict.{lookup, insert}
use kookaburra.Realtime.{
  Stream, State, has, create, fork, new_stream, decrement, remove, close_fork, push, deliveries,
  initial, mounted, creates,
}
use kookaburra.Realtime.Subscribed.{stays, goes, create-delivers, create-ending}

abbrev one_fork : State ℕ
one_fork = create "news" initial

abbrev two_forks : State ℕ
two_forks = create "news" one_fork

absent : (old : Stream) → lookup "news" [] ≡ some old → old.destroyed ≡ false
unfolding lookup
absent old h = cc h

-- A second subscriber comes in between.
create-delivers_example :
    (pipes : List ℕ) × (has 0 pipes ≡ true)
    × ((push "news" 5 two_forks).delivered ≡ two_forks.delivered ++ deliveries 5 pipes)
create-delivers_example =
    create-delivers initial two_forks "news" 5 mounted absent (goes stays (creates "news") tt)

abbrev forked : Stream
forked = record { serial = 0; forks = 1; pipes = 0 ∷ []; destroyed = false }

-- The only fork has closed.
abbrev ending : State ℕ
ending = close_fork "news" 0 forked one_fork

create-ending_example : (push "news" 5 (create "news" ending)).delivered ≡ []
unfolding create fork new_stream close_fork decrement remove lookup insert
create-ending_example =
    create-ending ending "news" 5 (record { serial = 0; forks = 0; pipes = []; destroyed = true })
      refl refl
