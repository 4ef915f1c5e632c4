-- ===== src/Realtime/Counts.antt =====
-- The forks that streams count.
use kookaburra.Prelude.{
  ℕ, ◌-◌, ◌≤◌, String, true, false, none, some, List, [], ◌∷◌, ◌++◌, if◌then◌else◌, length, or_else,
  ◌≡◌, ◌≢◌, inl, inr, refl, sym, ap, subst, ◌∙◌, arith, ◌==◌, Bool-cases, Option-cases,
  length-append,
}
use kookaburra.Dict.{lookup, insert, lookup-insert, lookup-delete}
use kookaburra.Realtime.{
  Stream, State, has, remove, new_stream, fork, decrement, create, close_fork, close_stream, push,
  Step, creates, closes, ends, pushes, Reached, mounted, then_step,
}

pub has-length : (id : ℕ) (ids : List ℕ) → has id ids ≡ true → 1 ≤ length ids
has-length id [] h = cc
has-length id (other ∷ ids) h = omega arith

pub length-remove :
    (id : ℕ) (ids : List ℕ) → has id ids ≡ true → length (remove id ids) ≡ length ids - 1
unfolding remove
length-remove id [] h = cc
length-remove id (other ∷ ids) h = ground (arith, length-remove id ids, has-length id ids)

pub has-remove :
    (id other : ℕ) (ids : List ℕ)
    → other ≢ id
    → has other ids ≡ true
    → has other (remove id ids) ≡ true
unfolding remove
has-remove id other [] e h = h
has-remove id other (first ∷ ids) e h = ground (arith, has-remove id other ids e)

pub has-append : (id : ℕ) (ids others : List ℕ) → has id ids ≡ true → has id (ids ++ others) ≡ true
has-append id [] others h = cc
has-append id (other ∷ ids) others h = ground (arith, has-append id ids others)

pub has-append_last : (id : ℕ) (ids : List ℕ) → has id (ids ++ (id ∷ [])) ≡ true
has-append_last id [] = ground arith
has-append_last id (other ∷ ids) = ground (arith, has-append_last id ids)

fork-Counted :
    (id : ℕ) (stream : Stream)
    → stream.forks ≡ length stream.pipes
    → (fork id stream).forks ≡ length (fork id stream).pipes
unfolding fork
fork-Counted id stream h = omega (arith, h, length-append stream.pipes (id ∷ []))

decrement-Counted :
    (id : ℕ) (stream : Stream)
    → has id stream.pipes ≡ true
    → stream.forks ≡ length stream.pipes
    → (decrement id stream).forks ≡ length (decrement id stream).pipes
unfolding decrement
decrement-Counted id stream has_id h = omega (arith, h, length-remove id stream.pipes has_id)

pub decrement-piped :
    (id other : ℕ) (stream : Stream)
    → stream.forks ≡ length stream.pipes
    → has other stream.pipes ≡ true
    → id ≢ other
    → stream.destroyed ≡ false
    → has id stream.pipes ≡ true
    → ((decrement other stream).destroyed ≡ false) × (has id (decrement other stream).pipes ≡ true)
unfolding decrement
decrement-piped id other stream counted has_other apart alive piped =
    let left = has-remove other id stream.pipes apart piped in
    (
      ground (
        arith,
        alive,
        counted,
        length-remove other stream.pipes has_other,
        has-length id (remove other stream.pipes) left,
      ),
      left,
    )

pub some-injective : {A : Type 0} {a b : A} → some a ≡ some b → a ≡ b
some-injective e = cc

module _ {E : Type 0} where
  -- Each stream counts its forks.
  abbrev pub Counted : State E → Type 0
  Counted s =
      (key : String) (stream : Stream)
      → lookup key s.streams ≡ some stream
      → stream.forks ≡ length stream.pipes

  -- A write at a key
  insert-Counted :
      (s : State E) (at : String) (new : Stream)
      → Counted s
      → new.forks ≡ length new.pipes
      → (key : String) (stream : Stream) → lookup key (insert at new s.streams) ≡ some stream
      → stream.forks ≡ length stream.pipes
  insert-Counted s at new counted is_new key stream h =
      let seen : (if at == key then some new else lookup key s.streams) ≡ some stream =
        sym (lookup-insert at key new s.streams) ∙ h in
      elim (Bool-cases (at == key)) [
        | inl same ↦ subst (λ x. x.forks ≡ length x.pipes) (some-injective (rw same at seen)) is_new
        | inr apart ↦ counted key stream (rw apart at seen)
      ]

  -- The stream that `create` forks
  abbrev pub held : State E → String → Stream
  held s key = or_else (lookup key s.streams) (new_stream s.made)

  held-Counted :
      (s : State E) (key : String)
      → Counted s
      → (or_else (lookup key s.streams) (new_stream s.made)).forks
        ≡ length (or_else (lookup key s.streams) (new_stream s.made)).pipes
  unfolding new_stream
  held-Counted s key counted = elim (Option-cases (lookup key s.streams)) [
    | inl absent ↦ rw absent refl
    | inr (old, found) ↦ rw found (counted key old found)
  ]

  pub push-streams :
      (key : String) (event : E) (s : State E) → (push key event s).streams ≡ s.streams
  unfolding push
  push-streams key event s = ground arith

  pub Step-Counted : (s t : State E) → Counted s → Step s t → Counted t
  unfolding create close_fork close_stream
  Step-Counted s _ counted (creates key) other kept h =
      insert-Counted s key (fork s.issued (held s key)) counted
        (fork-Counted s.issued (held s key) (held-Counted s key counted)) other kept h
  Step-Counted s _ counted (closes key id stream found has_id) other kept h =
      insert-Counted s key _ counted (decrement-Counted id stream has_id (counted key stream found))
        other kept h
  Step-Counted s _ counted (ends key stream found gone) other kept h =
      let seen : (if key == other then none else lookup other s.streams) ≡ some kept =
        sym (lookup-delete key other s.streams) ∙ h in
      elim (Bool-cases (key == other)) [
        | inl same ↦ cc (rw same at seen)
        | inr apart ↦ counted other kept (rw apart at seen)
      ]
  Step-Counted s _ counted (pushes key event) other kept h =
      counted other kept (ap (lookup other) (sym (push-streams key event s)) ∙ h)

  pub Reached-Counted : (s : State E) → Reached s → Counted s
  unfolding lookup
  Reached-Counted _ mounted key stream h = cc h
  Reached-Counted _ (then_step {s} {t} before step) key stream h =
      Step-Counted s t (Reached-Counted s before) step key stream h
