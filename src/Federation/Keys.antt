-- ===== src/Federation/Keys.antt =====
-- Which key of an issuer a signature is verified with.
use kookaburra.Prelude.{
  ◌<◌, String, Bool, true, false, Option, none, some, List, [], ◌∷◌, if◌then◌else◌, ◌≡◌, inl, inr,
  refl, ap, arith, leb, ltb, Any, Bool-cases, length, filter, is_some, ◌||◌,
}
use kookaburra.Result.{Result, ok, err, ◌>>=◌, fault, >>=-eq-ok, ok-injective}
use kookaburra.Federation.Types.{assert, JwtHeader, SigningKey}
use kookaburra.Federation.{first_key, lacks_kid, is_signing, select_key}

module _ {M : Type 0} where
  first_key-Any :
      (keys : List (SigningKey M)) (key : SigningKey M)
      → first_key keys ≡ some key
      → Any (λ k. k ≡ key) keys
  first_key-Any [] key e = cc
  first_key-Any (k ∷ keys) key e = inl cc

  lacks_kid-Any :
      (keys : List (SigningKey M)) (key : SigningKey M)
      → lacks_kid keys ≡ some key
      → Any (λ k. k ≡ key) keys
  lacks_kid-Any [] key e = cc
  lacks_kid-Any (k ∷ keys) key e = elim (Bool-cases (is_some k.kid)) [
    | inl named ↦ inr (lacks_kid-Any keys key (rw named at e))
    | inr unnamed ↦ inl (cc (rw unnamed at e))
  ]

  filter-Any :
      (test : SigningKey M → Bool) (keys : List (SigningKey M)) (key : SigningKey M)
      → Any (λ k. k ≡ key) (filter test keys)
      → Any (λ k. k ≡ key) keys
  filter-Any test [] key h = h
  filter-Any test (k ∷ keys) key h = by_test (test k) (filter-Any test keys key) h
    where
      by_test :
          (b : Bool)
          → (Any (λ x. x ≡ key) (filter test keys) → Any (λ x. x ≡ key) keys)
          → Any (λ x. x ≡ key) (if b then k ∷ filter test keys else filter test keys)
          → Any (λ x. x ≡ key) (k ∷ keys)
      by_test true later (inl here) = inl here
      by_test true later (inr there) = inr (later there)
      by_test false later there = inr (later there)

  found_key :
      (o : Option (SigningKey M)) (key : SigningKey M)
      → (elim o as (λ _. Result (SigningKey M)) [
        | none ↦ err (fault "Signing key was not found in issuer keys")
        | some k ↦ ok k
      ])
        ≡ ok key
      → o ≡ some key
  found_key none key e = cc
  found_key (some k) key e = ap some (ok-injective e)

  pub select_key-Any :
      (header : JwtHeader) (keys : List (SigningKey M)) (key : SigningKey M)
      → select_key header keys ≡ ok key
      → Any (λ k. k ≡ key) keys
  unfolding select_key
  select_key-Any header keys key e =
      let signing = filter (is_signing header.alg) keys in
      let (u0, some_found, r0) = >>=-eq-ok (assert (ltb 0 (length signing)) _) _ key e in
      let (u1, single, r1) =
        >>=-eq-ok (assert (is_some header.kid || leb (length signing) 1) _) _ key r0 in
      by_kid (is_some header.kid) (found_key _ key r1)
    where
      by_kid :
          (b : Bool)
          → (if b then first_key keys else lacks_kid (filter (is_signing header.alg) keys))
            ≡ some key
          → Any (λ k. k ≡ key) keys
      by_kid true found = first_key-Any keys key found
      by_kid false found =
          filter-Any (is_signing header.alg) keys key
            (lacks_kid-Any (filter (is_signing header.alg) keys) key found)

  -- A flaw: the identifier of a key is not looked at. A token that names any key is verified with
  -- the first key of its issuer, if there is a key to sign with its algorithm.
  pub select_key-first :
      (alg kid : String) (key : SigningKey M) (keys : List (SigningKey M))
      → 0 < length (filter (is_signing alg) (key ∷ keys))
      → select_key (record { alg = alg; kid = some kid }) (key ∷ keys) ≡ ok key
  unfolding select_key assert
  select_key-first alg kid key keys h =
      when_found (ltb 0 (length (filter (is_signing alg) (key ∷ keys)))) (ground (arith, h))
    where
      when_found :
          (b : Bool)
          → b ≡ true
          → (assert b "No acceptable signing keys found" >>= λ found. ok key) ≡ ok key
      when_found true e = refl
      when_found false e = cc
