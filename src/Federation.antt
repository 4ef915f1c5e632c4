-- ===== src/Federation.antt =====
-- extensions/exposition/components/identity.federation/source/lib/jwt.ts: the validation of the
-- tokens of other issuers. Decoding of JSON, the cryptography, `new URL` and what issuers answer are
-- parameters. Numbers of a token are natural: times are whole seconds, the clock gives milliseconds.
pub mod Types
pub mod Trusted
pub mod Keys
pub mod Read
pub mod Signed
use kookaburra.Prelude.{
  ℕ, ◌*◌, String, Bool, true, false, not, ◌&&◌, ◌||◌, Option, none, some, List, [], ◌∷◌,
  if◌then◌else◌, leb, ltb, any, filter, includes, is_some, ◌==◌, length,
}
use kookaburra.Result.{Result, ok, err, ◌>>=◌, fault}
use kookaburra.Text.{◌+++◌, split_on, starts_with}
use kookaburra.Dict.{lookup}
use kookaburra.Untyped.{Json, text, array, get, is_object, texts_of}
use kookaburra.Federation.Types.{
  assert, Trust, JwtHeader, Audience, one, many, IdToken, RawToken, SigningKey, Fetched, Services,
  missing_part, required_json, as_number, text_at, number_at, ends_in_hs,
}

-- `/^RS256|HS\d{3}$/`
abbrev pub is_algorithm : String → Bool
is_algorithm alg = starts_with alg "RS256" || ends_in_hs alg

-- `trusted.find((config) => config.iss === iss)`
unfoldable pub find_trust : String → List Trust → Option Trust
find_trust iss [] = none
find_trust iss (trust ∷ others) =
    let later = find_trust iss others in if trust.iss == iss then some trust else later

abbrev pub kid_of : Option Json → Result (Option String)
kid_of none = ok none
kid_of (some (text kid)) = ok (some kid)
kid_of (some _) = err (fault "kid must be a string if present")

-- `validateJwtHeader`
unfoldable pub validate_header : Json → Result JwtHeader
validate_header header = do
  valid ← assert (is_object header) "Header is not an object"
  alg ← text_at header "alg" "Header is missing alg" "Header alg is not a string"
  known ← assert (is_algorithm alg) ("Unknown algorithm " +++ alg)
  kid ← kid_of (get "kid" header)
  ok (record { alg = alg; kid = kid })

abbrev pub audience_of : Json → Result Audience
audience_of (text t) = ok (one t)
audience_of (array items) = elim (texts_of items) [
  | none ↦ err (fault "Payload aud is not a string nor an array of strings")
  | some ts ↦ ok (many ts)
]
audience_of _ = err (fault "Payload aud is not a string nor an array of strings")

-- The audience is one of those that an issuer is trusted for.
unfoldable pub meets : Option (List String) → Audience → Bool
meets none audience = true
meets (some trusted) (one t) = includes trusted t
meets (some trusted) (many ts) = any (includes ts) trusted

-- The secrets by their names, for an algorithm of an issuer
unfoldable pub secrets_for : Trust → String → Result (List (String × String))
secrets_for trust alg = elim trust.secrets [
  | none ↦ err (fault ("We don't have known secrets for " +++ trust.iss))
  | some secrets ↦ elim (lookup alg secrets) [
    | none ↦ err (fault ("No known secrets for " +++ alg))
    | some named ↦ ok named
  ]
]

-- The check of the secrets, for a symmetric algorithm
unfoldable pub check_secrets : JwtHeader → Trust → Result (Unit {0})
unfolding secrets_for
check_secrets header trust = do
  named ← secrets_for trust header.alg
  elim header.kid [
    | none ↦ ok tt
    | some kid ↦ assert (is_some (lookup kid named)) ("No secret " +++ kid +++ " provided")
  ]

abbrev pub not_before : ℕ → Option Json → Result (Option ℕ)
not_before now none = ok none
not_before now (some value) = do
  nbf ← as_number value "Payload nbf is not a number"
  valid ← assert (leb (nbf * 1000) now) "Token is not valid yet"
  ok (some nbf)

-- The times of `validateJwtPayload`: `exp`, `iat` and `nbf`
unfoldable pub validate_times : ℕ → Json → Result (ℕ × ℕ × Option ℕ)
validate_times now payload = do
  exp ← number_at payload "exp" "Payload is missing exp" "Payload exp is not a number"
  fresh ← assert (ltb now (exp * 1000)) "Token is expired"
  iat ← number_at payload "iat" "Payload is missing iat" "Payload iat is not a number"
  issued ← assert (leb (iat * 1000) now) "Token was issued in the future"
  ordered ← assert (leb iat exp) "Payload exp is before iat"
  nbf ← not_before now (get "nbf" payload)
  ok (exp, iat, nbf)

abbrev pub trust_of : String → List Trust → Result Trust
trust_of iss trusted = elim (find_trust iss trusted) [
  | none ↦ err (fault ("Unknown issuer: " +++ iss))
  | some trust ↦ ok trust
]

-- `validateJwtPayload`
unfoldable pub validate_payload : ℕ → List Trust → JwtHeader → Json → Result IdToken
unfolding validate_times check_secrets meets find_trust
validate_payload now trusted header payload = do
  some_trusted ← assert (ltb 0 (length trusted)) "No trusted issuers provided"
  valid ← assert (is_object payload) "Payload is not an object"
  iss ← text_at payload "iss" "Payload is missing iss" "Payload iss is not a string"
  raw_aud ← required_json (get "aud" payload) "Payload is missing aud"
  aud ← audience_of raw_aud
  issuer ← trust_of iss trusted
  met ← assert (meets issuer.aud aud) "Unknown audience"
  secret ← if starts_with header.alg "HS" then check_secrets header issuer else ok tt
  sub ← text_at payload "sub" "Payload is missing sub" "Payload sub is not a string"
  times ← validate_times now payload
  ok (record { iss = iss; aud = aud; sub = sub; exp = times.0; iat = times.1; nbf = times.2 })

abbrev pub first_secret : List (String × String) → Option String
first_secret [] = none
first_secret ((kid, secret) ∷ named) = some secret

-- `kid !== undefined ? secrets[kid] : Object.values(secrets)[0]`
abbrev pub secret_of : Option String → List (String × String) → Option String
secret_of none named = first_secret named
secret_of (some kid) named = lookup kid named

abbrev pub first_key : {M : Type 0} → List (SigningKey M) → Option (SigningKey M)
first_key [] = none
first_key (key ∷ keys) = some key

abbrev pub lacks_kid : {M : Type 0} → List (SigningKey M) → Option (SigningKey M)
lacks_kid [] = none
lacks_kid (key ∷ keys) = let later = lacks_kid keys in if is_some key.kid then later else some key

abbrev pub is_signing : {M : Type 0} → String → SigningKey M → Bool
is_signing alg key = key.purpose == "sig" && elim key.alg [ none ↦ false | some a ↦ a == alg ]

-- The key that a signature is verified with: `kid === undefined ? signingKeys.find(…) : keys[0]`
unfoldable pub select_key : {M : Type 0} → JwtHeader → List (SigningKey M) → Result (SigningKey M)
select_key header keys =
    let signing = filter (is_signing header.alg) keys in
    do
      found ← assert (ltb 0 (length signing)) "No acceptable signing keys found"
      single ←
          assert (is_some header.kid || leb (length signing) 1)
            "Signing key selection is not deterministic"
      elim (if is_some header.kid then first_key keys else lacks_kid signing) [
        | none ↦ err (fault "Signing key was not found in issuer keys")
        | some key ↦ ok key
      ]

module _ {M : Type 0} (services : Services M) where
  abbrev pub parse_parts : String → String → Option String → Result RawToken
  parse_parts raw_header raw_payload signature = do
    header ← services.parse raw_header
    payload ← services.parse raw_payload
    ok (record {
      header = header;
      payload = payload;
      raw_header = raw_header;
      raw_payload = raw_payload;
      signature = signature;
    })

  -- `decodeJwt`
  unfoldable pub decode_jwt : String → Result RawToken
  unfolding split_on
  decode_jwt token = elim (split_on b'.' token) [
    | [] ↦ missing_part
    | raw_header ∷ [] ↦ do header ← services.parse raw_header; missing_part
    | raw_header ∷ raw_payload ∷ [] ↦ parse_parts raw_header raw_payload none
    | raw_header ∷ raw_payload ∷ signature ∷ _ ↦ parse_parts raw_header raw_payload (some signature)
  ]

  -- `validateSignature` with a secret of the issuer
  unfoldable pub check_hmac : JwtHeader → IdToken → RawToken → List Trust → Result (Unit {0})
  unfolding secrets_for find_trust
  check_hmac header payload token trusted = do
    issuer ← trust_of payload.iss trusted
    named ← secrets_for issuer header.alg
    secret ← elim (secret_of header.kid named) [
      | none ↦ err (fault "The key argument must be given")
      | some s ↦ ok s
    ]
    digest ← services.hmac header.alg secret (token.raw_header +++ "." +++ token.raw_payload)
    elim token.signature [
      | none ↦ err (fault "Signature does not match")
      | some signature ↦ assert (signature == digest) "Signature does not match"
    ]

  abbrev pub body_of : {B : Type 0} → String → Fetched B → Result B
  body_of message answer = do
    done ← assert answer.is_ok (message +++ answer.status_text)
    answer.json

  -- The keys that an issuer publishes
  unfoldable pub issuer_keys : String → Result (List (SigningKey M))
  issuer_keys iss = do
    url ← services.discovery_url iss
    discovery ← services.get_discovery url
    keys_url ← body_of "Failed to fetch OpenID configuration: " discovery
    answer ← services.get_keys keys_url
    body_of "Failed to fetch issuer keys: " answer

  -- `validateSignature` with a key of the issuer
  unfoldable pub check_rsa : JwtHeader → IdToken → RawToken → Result (Unit {0})
  unfolding issuer_keys select_key
  check_rsa header payload token = do
    keys ← issuer_keys payload.iss
    key ← select_key header keys
    elim token.signature [
      | none ↦ err (fault "The signature argument must be given")
      | some signature ↦ do
        valid ←
            services.verify_rsa key.material (token.raw_header +++ "." +++ token.raw_payload)
              signature
        assert valid "Failed to validate signature"
    ]

  -- `validateSignature`
  unfoldable pub validate_signature :
      JwtHeader → IdToken → RawToken → List Trust → Result (Unit {0})
  unfolding check_hmac check_rsa
  validate_signature header payload token trusted =
      if starts_with header.alg "HS"
      then check_hmac header payload token trusted
      else check_rsa header payload token

  -- `decode`
  unfoldable pub decode : ℕ → List Trust → String → Result IdToken
  unfolding decode_jwt validate_header validate_payload validate_signature
  decode now trusted encoded = do
    token ← decode_jwt encoded
    header ← validate_header token.header
    payload ← validate_payload now trusted header token.payload
    valid ← validate_signature header payload token trusted
    ok payload
