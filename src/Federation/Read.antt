-- ===== src/Federation/Read.antt =====
-- The claims of a token are those of its payload.
use kookaburra.Prelude.{
  ℕ, ◌*◌, String, Option, none, some, List, [], ◌∷◌, if◌then◌else◌, ◌≡◌, refl, ap, subst, ◌∙◌, leb,
  ltb, length, Option-cases, inl, inr,
}
use mathlib.Core.Option.{some-injective}
use kookaburra.Result.{Result, ok, err, fault, >>=-eq-ok, ok-injective}
use kookaburra.Text.{starts_with, split_on}
use kookaburra.Untyped.{
  Json, null, truth, number, text, array, object, Items, no_items, item, get, is_object, texts_of,
}
use kookaburra.Federation.Types.{
  assert, Trust, JwtHeader, RawToken, Services, Audience, one, many, IdToken, required_json,
  as_text, as_number, text_at, number_at,
}
use kookaburra.Federation.{
  parse_parts, decode_jwt, audience_of, meets, check_secrets, not_before, validate_times, trust_of,
  validate_payload,
}

abbrev items_of : List String → Items
items_of [] = no_items
items_of (t ∷ ts) = item (text t) (items_of ts)

-- How an audience is written
abbrev audience_json : Audience → Json
audience_json (one t) = text t
audience_json (many ts) = array (items_of ts)

abbrev maybe_number : Option ℕ → Option Json
maybe_number none = none
maybe_number (some n) = some (number n)

-- The claims are those of the payload, under their names.
pub record IsRead (payload : Json) (claims : IdToken) : Type 0 where
  pub iss : get "iss" payload ≡ some (text claims.iss)
  pub aud : get "aud" payload ≡ some (audience_json claims.aud)
  pub sub : get "sub" payload ≡ some (text claims.sub)
  pub exp : get "exp" payload ≡ some (number claims.exp)
  pub iat : get "iat" payload ≡ some (number claims.iat)
  pub nbf : get "nbf" payload ≡ maybe_number claims.nbf

required :
    (found : Option Json) (message : String) (value : Json)
    → required_json found message ≡ ok value
    → found ≡ some value
required none message value e = cc
required (some v) message value e = ap some (ok-injective e)

is_text : (value : Json) (wrong t : String) → as_text value wrong ≡ ok t → value ≡ text t
is_text (text s) wrong t e = ap text (ok-injective e)
is_text null wrong t e = cc
is_text (truth b) wrong t e = cc
is_text (number n) wrong t e = cc
is_text (array items) wrong t e = cc
is_text (object fields) wrong t e = cc

is_number :
    (value : Json) (wrong : String) (n : ℕ) → as_number value wrong ≡ ok n → value ≡ number n
is_number (number m) wrong n e = ap number (ok-injective e)
is_number null wrong n e = cc
is_number (truth b) wrong n e = cc
is_number (text s) wrong n e = cc
is_number (array items) wrong n e = cc
is_number (object fields) wrong n e = cc

text_at-get :
    (payload : Json) (key absent wrong t : String)
    → text_at payload key absent wrong ≡ ok t
    → get key payload ≡ some (text t)
text_at-get payload key absent wrong t e =
    let (found, there, rest) = >>=-eq-ok (required_json (get key payload) absent) _ t e in
    required _ absent found there ∙ ap some (is_text found wrong t rest)

number_at-get :
    (payload : Json) (key absent wrong : String) (n : ℕ)
    → number_at payload key absent wrong ≡ ok n
    → get key payload ≡ some (number n)
number_at-get payload key absent wrong n e =
    let (found, there, rest) = >>=-eq-ok (required_json (get key payload) absent) _ n e in
    required _ absent found there ∙ ap some (is_number found wrong n rest)

texts_of-items : (items : Items) (ts : List String) → texts_of items ≡ some ts → items ≡ items_of ts
unfolding texts_of
texts_of-items no_items ts e = ap items_of (some-injective _ _ e)
texts_of-items (item (text t) rest) ts e = elim (Option-cases (texts_of rest)) [
  | inl missing ↦ cc (rw missing at e)
  | inr (later, found) ↦
      ap (item (text t)) (texts_of-items rest later found)
      ∙ ap items_of (some-injective _ _ (rw found at e))
]
texts_of-items (item null rest) ts e = cc
texts_of-items (item (truth b) rest) ts e = cc
texts_of-items (item (number n) rest) ts e = cc
texts_of-items (item (array items) rest) ts e = cc
texts_of-items (item (object fields) rest) ts e = cc

audience_of-json :
    (raw : Json) (aud : Audience) → audience_of raw ≡ ok aud → raw ≡ audience_json aud
audience_of-json (text t) aud e = ap audience_json (ok-injective e)
audience_of-json (array items) aud e = by_texts (texts_of items) refl e
  where
    by_texts :
        (found : Option (List String))
        → texts_of items ≡ found
        → (elim found as (λ _. Result Audience) [
          | none ↦ err (fault "Payload aud is not a string nor an array of strings")
          | some ts ↦ ok (many ts)
        ])
          ≡ ok aud
        → array items ≡ audience_json aud
    by_texts none h e = cc
    by_texts (some ts) h e =
        ap array (texts_of-items items ts h) ∙ ap audience_json (ok-injective e)
audience_of-json null aud e = cc
audience_of-json (truth b) aud e = cc
audience_of-json (number n) aud e = cc
audience_of-json (object fields) aud e = cc

not_before-get :
    (now : ℕ) (value : Option Json) (nbf : Option ℕ)
    → not_before now value ≡ ok nbf
    → value ≡ maybe_number nbf
not_before-get now none nbf e = ap maybe_number (ok-injective e)
not_before-get now (some value) nbf e =
    let (n, is, rest) = >>=-eq-ok (as_number value _) _ nbf e in
    let (u, over, end) = >>=-eq-ok (assert (leb (n * 1000) now) _) _ nbf rest in
    ap some (is_number value _ n is) ∙ ap maybe_number (ok-injective end)

-- The times that are validated are those of the payload.
validate_times-get :
    (now : ℕ) (payload : Json) (times : ℕ × ℕ × Option ℕ)
    → validate_times now payload ≡ ok times
    → (get "exp" payload ≡ some (number times.0))
      × (get "iat" payload ≡ some (number times.1))
      × (get "nbf" payload ≡ maybe_number times.2)
unfolding validate_times
validate_times-get now payload times e =
    let (exp, e0, r0) = >>=-eq-ok (number_at payload "exp" _ _) _ times e in
    let (u0, fresh, r1) = >>=-eq-ok (assert (ltb now (exp * 1000)) _) _ times r0 in
    let (iat, e1, r2) = >>=-eq-ok (number_at payload "iat" _ _) _ times r1 in
    let (u1, issued, r3) = >>=-eq-ok (assert (leb (iat * 1000) now) _) _ times r2 in
    let (u2, ordered, r4) = >>=-eq-ok (assert (leb iat exp) _) _ times r3 in
    let (nbf, over, end) = >>=-eq-ok (not_before now (get "nbf" payload)) _ times r4 in
    subst
      (λ (t : ℕ × ℕ × Option ℕ).
        (get "exp" payload ≡ some (number t.0))
        × (get "iat" payload ≡ some (number t.1))
        × (get "nbf" payload ≡ maybe_number t.2))
      (ok-injective end)
      (
        number_at-get payload "exp" _ _ exp e0,
        number_at-get payload "iat" _ _ iat e1,
        not_before-get now (get "nbf" payload) nbf over,
      )

pub validate_payload-IsRead :
    (now : ℕ) (trusted : List Trust) (header : JwtHeader) (payload : Json) (claims : IdToken)
    → validate_payload now trusted header payload ≡ ok claims
    → IsRead payload claims
unfolding validate_payload
validate_payload-IsRead now trusted header payload claims e =
    let (u0, some_trusted, r0) = >>=-eq-ok (assert (ltb 0 (length trusted)) _) _ claims e in
    let (u1, valid, r1) = >>=-eq-ok (assert (is_object payload) _) _ claims r0 in
    let (iss, e0, r2) = >>=-eq-ok (text_at payload "iss" _ _) _ claims r1 in
    let (raw, e1, r3) = >>=-eq-ok (required_json (get "aud" payload) _) _ claims r2 in
    let (aud, e2, r4) = >>=-eq-ok (audience_of raw) _ claims r3 in
    let (trust, known, r5) = >>=-eq-ok (trust_of iss trusted) _ claims r4 in
    let (u2, met, r6) = >>=-eq-ok (assert (meets trust.aud aud) _) _ claims r5 in
    let (u3, e3, r7) =
      >>=-eq-ok (if starts_with header.alg "HS" then check_secrets header trust else ok tt) _ claims
        r6 in
    let (sub, e4, r8) = >>=-eq-ok (text_at payload "sub" _ _) _ claims r7 in
    let (times, timely, end) = >>=-eq-ok (validate_times now payload) _ claims r8 in
    let (exp_is, iat_is, nbf_is) = validate_times-get now payload times timely in
    subst (IsRead payload) (ok-injective end) (record {
      iss = text_at-get payload "iss" _ _ iss e0;
      aud = required _ _ raw e1 ∙ ap some (audience_of-json raw aud e2);
      sub = text_at-get payload "sub" _ _ sub e4;
      exp = exp_is;
      iat = iat_is;
      nbf = nbf_is;
    })

abbrev first_text : List String → Option String
first_text [] = none
first_text (t ∷ ts) = some t

-- The parts of a token are those of its text between dots: the header and the payload, which are
-- parsed, and the signature, which may not be there.
pub record IsText {M : Type 0} (services : Services M) (encoded : String) (token : RawToken)
    : Type 0 where
  pub rest : List String
  pub parts : split_on b'.' encoded ≡ token.raw_header ∷ token.raw_payload ∷ rest
  pub header : services.parse token.raw_header ≡ ok token.header
  pub payload : services.parse token.raw_payload ≡ ok token.payload
  pub signature : token.signature ≡ first_text rest

module _ {M : Type 0} (services : Services M) where
  parsed-IsText :
      (encoded raw_header raw_payload : String) (rest : List String) (token : RawToken)
      → split_on b'.' encoded ≡ raw_header ∷ raw_payload ∷ rest
      → parse_parts services raw_header raw_payload (first_text rest) ≡ ok token
      → IsText services encoded token
  parsed-IsText encoded raw_header raw_payload rest token h e =
      let (header, of_header, r0) = >>=-eq-ok (services.parse raw_header) _ token e in
      let (payload, of_payload, r1) = >>=-eq-ok (services.parse raw_payload) _ token r0 in
      subst (IsText services encoded) (ok-injective r1) (record {
        rest = rest;
        parts = h;
        header = of_header;
        payload = of_payload;
        signature = refl;
      })

  by_parts :
      (encoded : String) (parts : List String) (token : RawToken)
      → split_on b'.' encoded ≡ parts
      → decode_jwt services encoded ≡ ok token
      → IsText services encoded token
  unfolding decode_jwt
  by_parts encoded [] token h e = cc (rw (h, decode_jwt) at e)
  by_parts encoded (raw_header ∷ []) token h e =
      let (header, found, r0) =
        >>=-eq-ok (services.parse raw_header) _ token (rw (h, decode_jwt) at e) in
      cc r0
  by_parts encoded (raw_header ∷ raw_payload ∷ []) token h e =
      parsed-IsText encoded raw_header raw_payload [] token h (rw (h, decode_jwt) at e)
  by_parts encoded (raw_header ∷ raw_payload ∷ signature ∷ rest) token h e =
      parsed-IsText encoded raw_header raw_payload (signature ∷ rest) token h
        (rw (h, decode_jwt) at e)

  pub decode_jwt-IsText :
      (encoded : String) (token : RawToken)
      → decode_jwt services encoded ≡ ok token
      → IsText services encoded token
  decode_jwt-IsText encoded token e = by_parts encoded _ token refl e
