-- ===== src/Scanner/Detects.antt =====
-- What the scanner detects, however the stream is cut into buffers, and what it misses.
use kookaburra.Prelude.{
  ℕ, ◌+◌, String, Bool, true, false, Option, none, some, List, [], ◌∷◌, ◌++◌, length, if◌then◌else◌,
  ◌≡◌, refl, ◌∙◌, ap, arith, Option-cases, inl, inr, length-append,
}
use kookaburra.Scanner.{
  Signature, find_signature, Scanner, verify, match_type, typed, complete, gather, process, feed,
}

-- All bytes of a stream
abbrev pub total : List (List ℕ) → List ℕ
total [] = []
total (buffer ∷ buffers) = buffer ++ total buffers

verify-size : (found : Option Signature) (s : Scanner) → (verify found s).size ≡ s.size
unfolding verify
verify-size found s = ground arith

-- Either of two states of the same size
gathered :
    (b : Bool) (x y : Scanner) {n : ℕ} → x.size ≡ n → y.size ≡ n → (if b then x else y).size ≡ n
gathered true x y h k = h
gathered false x y h k = k

module _ (acceptable : String → String → Bool) where
  match_type-size : (kind : String) (s : Scanner) → (match_type acceptable kind s).size ≡ s.size
  unfolding match_type
  match_type-size kind s = ground arith

  typed-size : (found : Option Signature) (s : Scanner) → (typed acceptable found s).size ≡ s.size
  unfolding typed
  typed-size (some x) s = match_type-size x.kind s
  typed-size none s = elim (Option-cases s.claim) [
    | inl absent ↦ rw (absent, typed) refl
    | inr (kind, claimed) ↦ rw (claimed, typed) (match_type-size kind s)
  ]

  complete-size : (s : Scanner) → (complete acceptable s).size ≡ s.size
  unfolding complete
  complete-size s =
      verify-size (find_signature s.chunks) (typed acceptable (find_signature s.chunks) s)
      ∙ typed-size (find_signature s.chunks) s

  gather-size : (buffer : List ℕ) (s : Scanner) → (gather acceptable buffer s).size ≡ s.size
  unfolding gather
  gather-size buffer s = gathered _ _ _ (complete-size _) refl

  process-size :
      (buffer : List ℕ) (s : Scanner) → (process acceptable buffer s).size ≡ s.size + length buffer
  unfolding process
  process-size buffer s =
      ground (arith, gather-size buffer (record s { size = s.size + length buffer }))

  -- The size counts every byte of the stream, whatever interrupts the scanner.
  pub feed-size :
      (buffers : List (List ℕ)) (s : Scanner)
      → (feed acceptable buffers s).size ≡ s.size + length (total buffers)
  unfolding feed
  feed-size [] s = omega arith
  feed-size (buffer ∷ buffers) s = omega (
    arith,
    feed-size buffers (process acceptable buffer s),
    process-size buffer s,
    length-append buffer (total buffers),
  )

  -- Once the header is complete, a buffer is counted and nothing else.
  process-completed :
      (buffer : List ℕ) (s : Scanner)
      → s.completed ≡ true
      → process acceptable buffer s ≡ record s { size = s.size + length buffer }
  unfolding process
  process-completed buffer s h = rw h refl

  -- A flaw: once the header is complete the limit is not looked at. However long the rest of the
  -- stream is, the scanner ends with the error that it had, so with none if it had none.
  pub feed-completed :
      (buffers : List (List ℕ)) (s : Scanner)
      → s.completed ≡ true
      → feed acceptable buffers s ≡ record s { size = s.size + length (total buffers) }
  unfolding feed
  feed-completed [] s h = ap (λ (n : ℕ). record s { size = n }) (omega arith)
  feed-completed (buffer ∷ buffers) s h =
      ap (feed acceptable buffers) (process-completed buffer s h)
      ∙ feed-completed buffers (record s { size = s.size + length buffer }) h
      ∙ ap (λ (n : ℕ). record s { size = n }) (omega (arith, length-append buffer (total buffers)))
