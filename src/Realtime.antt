-- ===== src/Realtime.antt =====
-- extensions/realtime/components/streams/source: streams of events by key (create.ts, push.ts) that are
-- shared by forks (lib/Stream.ts). A stream's pipes are those of node:stream: what is pushed goes to
-- each, unless the stream is destroyed, and a fork that closes is unpiped. Heartbeats are left out.
pub mod Counts
pub mod Subscribed
use kookaburra.Prelude.{
  ℕ, zero, suc, ◌-◌, String, Bool, true, false, ◌||◌, Option, none, some, List, [], ◌∷◌, ◌++◌,
  if◌then◌else◌, nat_eq, map, any, or_else, ◌≡◌,
}
use kookaburra.Dict.{lookup, insert, delete}

-- A stream, by its number, and the forks that are piped
pub record Stream : Type 0 where
  pub serial : ℕ
  pub forks : ℕ
  pub pipes : List ℕ
  pub destroyed : Bool

-- `this.streams`, how many streams and forks were made, and what was delivered to which fork
pub record State (E : Type 0) : Type 0 where
  pub streams : List (String × Stream)
  pub made : ℕ
  pub issued : ℕ
  pub delivered : List (ℕ × E)

abbrev pub has : ℕ → List ℕ → Bool
has id ids = any (λ other. nat_eq other id) ids

-- Unpiping
unfoldable pub remove : ℕ → List ℕ → List ℕ
remove id [] = []
remove id (other ∷ ids) = let rest = remove id ids in if nat_eq other id then ids else other ∷ rest

unfoldable pub new_stream : ℕ → Stream
new_stream serial = record { serial = serial; forks = 0; pipes = []; destroyed = false }

-- `Stream.fork`, with `increment`
unfoldable pub fork : ℕ → Stream → Stream
fork id stream = record stream { forks = suc stream.forks; pipes = stream.pipes ++ (id ∷ []) }

-- `Stream.decrement`, at the closing of a fork
unfoldable pub decrement : ℕ → Stream → Stream
unfolding remove
decrement id stream =
    let left = stream.forks - 1 in
    record stream {
      forks = left;
      pipes = remove id stream.pipes;
      destroyed = stream.destroyed || nat_eq left 0;
    }

-- The loop of `unmount`
unfoldable pub destroy_all : List (String × Stream) → List (String × Stream)
destroy_all [] = []
destroy_all ((key, stream) ∷ streams) =
    (key, record stream { destroyed = true }) ∷ destroy_all streams

module _ {E : Type 0} where
  -- `execute`, with `createStream`; the fork is `issued`.
  unfoldable pub create : String → State E → State E
  unfolding fork new_stream
  create key s =
      let stream = or_else (lookup key s.streams) (new_stream s.made) in
      record s {
        streams = insert key (fork s.issued stream) s.streams;
        made = elim (lookup key s.streams) [ none ↦ suc s.made | some old ↦ s.made ];
        issued = suc s.issued;
      }

  -- The `close` event of a fork of the stream that the key has
  unfoldable pub close_fork : String → ℕ → Stream → State E → State E
  unfolding decrement
  close_fork key id stream s = record s { streams = insert key (decrement id stream) s.streams }

  -- The `close` event of the stream that the key has, which comes after it is destroyed
  unfoldable pub close_stream : String → State E → State E
  close_stream key s = record s { streams = delete key s.streams }

  abbrev pub deliveries : E → List ℕ → List (ℕ × E)
  deliveries event pipes = map (λ id. (id, event)) pipes

  -- `effect` of push.ts
  unfoldable pub push : String → E → State E → State E
  push key event s = elim (lookup key s.streams) [
    | none ↦ s
    | some stream ↦
        if stream.destroyed
        then s
        else record s { delivered = s.delivered ++ deliveries event stream.pipes }
  ]

  -- `unmount`
  unfoldable pub unmount : State E → State E
  unfolding destroy_all
  unmount s = record s { streams = destroy_all s.streams }

  -- What happens while the component is mounted. Forks of a stream that its key no longer has are
  -- piped to nothing; their closing changes nothing that is kept.
  pub data Step (s : State E) : State E → Type 0 where
    creates : (key : String) → Step s (create key s)
    closes :
        (key : String) (id : ℕ) (stream : Stream)
        → lookup key s.streams ≡ some stream
        → has id stream.pipes ≡ true
        → Step s (close_fork key id stream s)
    ends :
        (key : String) (stream : Stream)
        → lookup key s.streams ≡ some stream
        → stream.destroyed ≡ true
        → Step s (close_stream key s)
    pushes : (key : String) (event : E) → Step s (push key event s)

  abbrev pub initial : State E
  initial = record { streams = []; made = 0; issued = 0; delivered = [] }

  pub data Reached : State E → Type 0 where
    mounted : Reached initial
    then_step : {s t : State E} → Reached s → Step s t → Reached t
