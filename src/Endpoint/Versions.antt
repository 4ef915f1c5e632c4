-- ===== src/Endpoint/Versions.antt =====
-- Entity tags: what their expression accepts, and when a response is not sent again.
use Prim.Native.Char.{Char, code}
use Prim.Native.String.{[], ◌∷◌}
use text.Mathlib.TextLemmas.{cons-append, nil-append}
use kookaburra.Prelude.{
  false, ◌≢◌, ℕ, ◌≤◌, String, Bool, true, ◌&&◌, Option, none, some, [], ◌∷◌, nat_eq, ◌≡◌, ◌≢◌, refl,
  sym, ◌∙◌, ap, arith, ◌⊎◌, inl, inr, Bool-cases,
}
use kookaburra.Result.{ok, ok-injective, Result-cases}
use kookaburra.Text.{◌+++◌}
use kookaburra.Endpoint.{
  replied, Message, strip_weak, is_digit, digits_before_quote, size, match_etag, version, respond,
}

-- A text of digits
abbrev pub all_digits : String → Bool
all_digits [] = true
all_digits (c ∷ text) = is_digit (code c) && all_digits text

digits_before_quote-quoted :
    (digits : String) (quote : Char)
    → code quote ≡ b'"'
    → all_digits digits ≡ true
    → digits_before_quote (digits +++ (quote ∷ "")) ≡ some digits
unfolding digits_before_quote
digits_before_quote-quoted [] quote q h = rw nil-append (ground (arith, q))
digits_before_quote-quoted (c ∷ []) quote q h = rw (cons-append, nil-append) (ground (arith, q))
digits_before_quote-quoted (c ∷ d ∷ text) quote q h =
    let ih = rw cons-append at (digits_before_quote-quoted (d ∷ text) quote q (ground arith)) in
    rw (cons-append, cons-append) (rw (ih, digits_before_quote) (ground arith))

match_etag-quoted :
    (digits : String) (quote : Char)
    → code quote ≡ b'"'
    → all_digits digits ≡ true
    → 1 ≤ size digits
    → size digits ≤ 32
    → match_etag (quote ∷ (digits +++ (quote ∷ ""))) ≡ some digits
unfolding match_etag
match_etag-quoted digits quote q h low high =
    rw (digits_before_quote-quoted digits quote q h, match_etag) (ground (arith, q))

strip_weak-quoted :
    (quote : Char) (text : String) → code quote ≡ b'"' → strip_weak (quote ∷ text) ≡ quote ∷ text
unfolding strip_weak
strip_weak-quoted quote [] q = refl
strip_weak-quoted quote (c ∷ text) q = ground (arith, q)

-- The version of a strong or a weak tag of 1 to 32 digits is the number that they stand for.
pub version-quoted :
    (parse_int : String → ℕ) (digits : String)
    → all_digits digits ≡ true
    → 1 ≤ size digits
    → size digits ≤ 32
    → (version parse_int ("\"" +++ digits +++ "\"") ≡ ok (parse_int digits))
      × (version parse_int ("W/" +++ "\"" +++ digits +++ "\"") ≡ ok (parse_int digits))
unfolding version
version-quoted parse_int digits h low high =
    let strong = strip_weak-quoted "\"" (digits +++ "\"") refl in
    let matched = match_etag-quoted digits "\"" refl h low high in
    (
      rw (cons-append, nil-append) (rw (strong, version) (rw (matched, version) refl)),
      rw (cons-append, cons-append, nil-append, cons-append, nil-append)
          (rw (matched, version, strip_weak) refl),
    )

distinct : (n k : ℕ) → nat_eq n k ≡ false → n ≢ k
distinct n k e = ground arith

-- The request's tag names the version of the reply.
abbrev pub IsNamed : (String → ℕ) → Option String → Option ℕ → Type 0
IsNamed parse_int etag v =
    (tag : String) × (etag ≡ some tag) × ((n : ℕ) × (v ≡ some n) × (version parse_int tag ≡ ok n))

module _ (parse_int : String → ℕ) {V : Type 0} (to_text : ℕ → String)
    (to_date : String → String) where
  -- A response is 304 exactly when the reply has the version that the request's tag names, and
  -- then it has no body; else it has the reply as its body.
  pub respond-not_modified :
      (etag : Option String) (body : V) (v : Option ℕ) (updated created : Option String)
      (message : Message V)
      → respond parse_int to_text to_date etag (replied body v updated created) ≡ ok message
      → ((message.status ≡ some 304) × (message.body ≡ none) × IsNamed parse_int etag v)
        ⊎ ((message.status ≡ none) × (message.body ≡ some body) × ¬ IsNamed parse_int etag v)
  unfolding respond
  respond-not_modified etag body none updated created message e = inr (
    sym (ap (λ (m : Message V). m.status) (ok-injective e)),
    sym (ap (λ (m : Message V). m.body) (ok-injective e)),
    λ (tag, h, (n', k, l)). cc,
  )
  respond-not_modified none body (some n) updated created message e = inr (
    sym (ap (λ (m : Message V). m.status) (ok-injective e)),
    sym (ap (λ (m : Message V). m.body) (ok-injective e)),
    λ (tag, h, (n', k, l)). cc,
  )
  respond-not_modified (some tag) body (some n) updated created message e =
      elim (Result-cases (version parse_int tag)) [
        | inr (failure, malformed) ↦ cc (rw (malformed, respond) at e)
        | inl (known, read) ↦ elim (Bool-cases (nat_eq n known)) [
          | inl same ↦
              let e' = ok-injective (rw (read, same, respond) at e) in
              let n_known : n ≡ known = ground (arith, same) in
              inl (
                sym (ap (λ (m : Message V). m.status) e'),
                sym (ap (λ (m : Message V). m.body) e'),
                (tag, refl, (n, refl, read ∙ ap (λ (k : ℕ). ok k) (sym n_known))),
              )
          | inr other ↦
              let e' = ok-injective (rw (read, other, respond) at e) in
              inr (
                sym (ap (λ (m : Message V). m.status) e'),
                sym (ap (λ (m : Message V). m.body) e'),
                λ (t, h, (k, l, p)). distinct n known other cc,
              )
        ]
      ]
