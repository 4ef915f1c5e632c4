-- ===== src/Query/Fits.antt =====
-- What a fitted query holds to.
use kookaburra.Prelude.{
  ℕ, ◌≤◌, String, ◌||◌, Option, none, some, ◌≡◌, refl, sym, ap, ◌∙◌, arith, ltb, ◌⊎◌, inl, inr,
  Bool-cases,
}
use kookaburra.Result.{ok, ok-injective, Result-cases}
use kookaburra.Query.{Number, nan, negative, natural, fit_number, fit_given}
use kookaburra.QuerySyntax.{Range}

-- A number that a client may choose: within the range, or not a number at all.
pub data IsFitted (range : Range) : Number → Type 0 where
  not_a_number : IsFitted range nan
  within : (n : ℕ) → range.low ≤ n → n ≤ range.high → IsFitted range (natural n)

module _ (parse_int : String → Number) where
  -- A text is fitted to the number that it is, within the range or no number at all.
  fit_number-IsFitted :
      (text : String) (range : Range) (name : String) (number : Number)
      → fit_number parse_int text range name ≡ ok number
      → (number ≡ parse_int text) × IsFitted range (parse_int text)
  unfolding fit_number
  fit_number-IsFitted text range name number e = fitted (parse_int text) refl
    where
      fitted :
          (parsed : Number) → parse_int text ≡ parsed → (number ≡ parsed) × IsFitted range parsed
      fitted nan p = (sym (ok-injective (rw (p, fit_number) at e)), not_a_number)
      fitted (negative n) p = cc (rw (p, fit_number) at e)
      fitted (natural n) p = elim (Bool-cases (ltb n range.low || ltb range.high n)) [
        | inl out ↦ cc (rw (p, out, fit_number) at e)
        | inr inside ↦ (
          sym (ok-injective (rw (p, inside, fit_number) at e)),
          within n (ground arith) (ground arith),
        )
      ]

  -- A bound that is fitted is the default where the client gives none, and else the number of the
  -- client's text, which is within the range or not a number at all.
  pub fit_given-IsFitted :
      (given : Option String) (range : Range) (name : String) (default fitted : Option Number)
      → fit_given parse_int given range name default ≡ ok fitted
      → ((given ≡ none) × (fitted ≡ default))
        ⊎ ((text : String) × (given ≡ some text)
            × (fitted ≡ some (parse_int text))
            × IsFitted range (parse_int text))
  unfolding fit_given
  fit_given-IsFitted none range name default fitted e = inl (refl, sym (ok-injective e))
  fit_given-IsFitted (some text) range name default fitted e =
      elim (Result-cases (fit_number parse_int text range name)) [
        | inl (number, fits) ↦
            (let (same, held) = fit_number-IsFitted text range name number fits in
              inr (text, refl, sym (ok-injective (rw (fits, fit_given) at e)) ∙ ap some same, held))
        | inr (failure, refused) ↦ cc (rw (refused, fit_given) at e)
      ]
