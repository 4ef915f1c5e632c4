-- ===== src/Federation/Trusted.antt =====
-- What a token that is decoded has proved.
use kookaburra.Prelude.{
  ℕ, ◌*◌, ◌≤◌, ◌<◌, String, Bool, true, false, Option, none, some, List, [], ◌∷◌, if◌then◌else◌,
  ◌≡◌, inl, inr, refl, sym, ap, subst, ◌∙◌, arith, leb, ltb, Any, ◌==◌, eq_iff, Bool-cases, length,
}
use kookaburra.Result.{Result, ok, err, fault, >>=-eq-ok, ok-injective}
use kookaburra.Text.{◌+++◌, starts_with}
use kookaburra.Untyped.{Json, get, is_object}
use kookaburra.Federation.Types.{
  assert, Trust, JwtHeader, IdToken, required_json, as_number, text_at, number_at,
}
use kookaburra.Federation.{
  find_trust, audience_of, meets, check_secrets, not_before, validate_times, trust_of,
  validate_payload,
}

pub assert-ok : (b : Bool) (message : String) (u : Unit {0}) → assert b message ≡ ok u → b ≡ true
unfolding assert
assert-ok true message u e = refl
assert-ok false message u e = cc

abbrev pub IsOver : ℕ → Option ℕ → Type 0
IsOver now none = Unit
IsOver now (some nbf) = nbf * 1000 ≤ now

-- The token is neither expired nor from the future.
abbrev pub IsTimely : ℕ → ℕ → ℕ → Option ℕ → Type 0
IsTimely now exp iat nbf = (now < exp * 1000) × (iat * 1000 ≤ now) × (iat ≤ exp) × IsOver now nbf

-- One of the trusted issuers gave the token, for an audience that it is trusted for.
abbrev pub IsIssued : List Trust → IdToken → Type 0
IsIssued trusted claims =
    (trust : Trust) × Any (λ t. t ≡ trust) trusted
    × (trust.iss ≡ claims.iss)
    × (meets trust.aud claims.aud ≡ true)

pub find_trust-Any :
    (iss : String) (trusted : List Trust) (trust : Trust)
    → find_trust iss trusted ≡ some trust
    → Any (λ t. t ≡ trust) trusted × (trust.iss ≡ iss)
unfolding find_trust
find_trust-Any iss [] trust e = cc
find_trust-Any iss (t ∷ trusted) trust e = elim (Bool-cases (t.iss == iss)) [
  | inl same ↦
      let found : t ≡ trust = cc (rw same at e) in
      let issued : t.iss ≡ iss = ground (arith, eq_iff t.iss iss, same) in
      (inl found, ap (λ x. x.iss) (sym found) ∙ issued)
  | inr other ↦
      let (later, issued) = find_trust-Any iss trusted trust (rw other at e) in (inr later, issued)
]

pub trust_or :
    (iss : String) (found : Option Trust) (trust : Trust)
    → (elim found as (λ _. Result Trust) [
      | none ↦ err (fault ("Unknown issuer: " +++ iss))
      | some t ↦ ok t
    ])
      ≡ ok trust
    → found ≡ some trust
trust_or iss none trust e = cc
trust_or iss (some t) trust e = ap some (ok-injective e)

not_before-IsOver :
    (now : ℕ) (value : Option Json) (nbf : Option ℕ)
    → not_before now value ≡ ok nbf
    → IsOver now nbf
not_before-IsOver now none nbf e = subst (IsOver now) (ok-injective e) tt
not_before-IsOver now (some value) nbf e =
    let (n, is, rest) = >>=-eq-ok (as_number value _) _ nbf e in
    let (u, over, end) = >>=-eq-ok (assert (leb (n * 1000) now) _) _ nbf rest in
    let late = assert-ok _ _ u over in subst (IsOver now) (ok-injective end) (ground (arith, late))

validate_times-IsTimely :
    (now : ℕ) (payload : Json) (times : ℕ × ℕ × Option ℕ)
    → validate_times now payload ≡ ok times
    → IsTimely now times.0 times.1 times.2
unfolding validate_times
validate_times-IsTimely now payload times e =
    let (exp, e0, r0) = >>=-eq-ok (number_at payload "exp" _ _) _ times e in
    let (u0, fresh, r1) = >>=-eq-ok (assert (ltb now (exp * 1000)) _) _ times r0 in
    let (iat, e1, r2) = >>=-eq-ok (number_at payload "iat" _ _) _ times r1 in
    let (u1, issued, r3) = >>=-eq-ok (assert (leb (iat * 1000) now) _) _ times r2 in
    let (u2, ordered, r4) = >>=-eq-ok (assert (leb iat exp) _) _ times r3 in
    let (nbf, over, end) = >>=-eq-ok (not_before now (get "nbf" payload)) _ times r4 in
    let is_fresh = assert-ok (ltb now (exp * 1000)) _ u0 fresh in
    let is_issued = assert-ok (leb (iat * 1000) now) _ u1 issued in
    let is_ordered = assert-ok (leb iat exp) _ u2 ordered in
    let right : IsTimely now exp iat nbf = (
      ground (arith, is_fresh),
      ground (arith, is_issued),
      ground (arith, is_ordered),
      not_before-IsOver now (get "nbf" payload) nbf over,
    ) in
    subst (λ (t : ℕ × ℕ × Option ℕ). IsTimely now t.0 t.1 t.2) (ok-injective end) right

-- A payload that is valid was issued by a trusted issuer, for an audience it is trusted for, and
-- is neither expired nor from the future.
pub validate_payload-IsIssued :
    (now : ℕ) (trusted : List Trust) (header : JwtHeader) (payload : Json) (claims : IdToken)
    → validate_payload now trusted header payload ≡ ok claims
    → IsIssued trusted claims × IsTimely now claims.exp claims.iat claims.nbf
unfolding validate_payload
validate_payload-IsIssued now trusted header payload claims e =
    let (u0, some_trusted, r0) = >>=-eq-ok (assert (ltb 0 (length trusted)) _) _ claims e in
    let (u1, valid, r1) = >>=-eq-ok (assert (is_object payload) _) _ claims r0 in
    let (iss, e0, r2) = >>=-eq-ok (text_at payload "iss" _ _) _ claims r1 in
    let (raw, e1, r3) = >>=-eq-ok (required_json (get "aud" payload) _) _ claims r2 in
    let (aud, e2, r4) = >>=-eq-ok (audience_of raw) _ claims r3 in
    let (trust, known, r5) = >>=-eq-ok (trust_of iss trusted) _ claims r4 in
    let (u2, met, r6) = >>=-eq-ok (assert (meets trust.aud aud) _) _ claims r5 in
    let (u3, e3, r7) =
      >>=-eq-ok (if starts_with header.alg "HS" then check_secrets header trust else ok tt) _ claims
        r6 in
    let (sub, e4, r8) = >>=-eq-ok (text_at payload "sub" _ _) _ claims r7 in
    let (times, timely, end) = >>=-eq-ok (validate_times now payload) _ claims r8 in
    let (there, same) =
      find_trust-Any iss trusted trust (trust_or iss (find_trust iss trusted) trust known) in
    subst (λ c. IsIssued trusted c × IsTimely now c.exp c.iat c.nbf) (ok-injective end)
      (
        (trust, there, same, assert-ok (meets trust.aud aud) _ u2 met),
        validate_times-IsTimely now payload times timely,
      )
