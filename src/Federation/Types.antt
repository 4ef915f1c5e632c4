-- ===== src/Federation/Types.antt =====
-- The types of extensions/exposition/components/identity.federation/source/lib/jwt.ts, the services that
-- it uses, and its small tests of untyped values.
use Prim.Native.Char.{Char, code}
use Prim.Native.String.{[], ◌∷◌}
use kookaburra.Prelude.{
  ℕ, String, Bool, true, false, ◌&&◌, Option, none, some, List, if◌then◌else◌, leb,
}
use kookaburra.Result.{Result, ok, err, ◌>>=◌, fault}
use kookaburra.Text.{starts_with}
use kookaburra.Untyped.{Json, number, text, get}

-- `assert.ok`
unfoldable pub assert : Bool → String → Result (Unit {0})
assert true message = ok tt
assert false message = err (fault message)

-- `Trust` of types/configuration.ts
pub record Trust : Type 0 where
  pub iss : String
  pub aud : Option (List String)
  pub secrets : Option (List (String × List (String × String)))

pub record JwtHeader : Type 0 where
  pub alg : String
  pub kid : Option String

-- The claims of a payload that are validated; `aud` is a text or a list.
pub data Audience : Type 0 where
  one : String → Audience
  many : List String → Audience

pub record IdToken : Type 0 where
  pub iss : String
  pub aud : Audience
  pub sub : String
  pub exp : ℕ
  pub iat : ℕ
  pub nbf : Option ℕ

pub record RawToken : Type 0 where
  pub header : Json
  pub payload : Json
  pub raw_header : String
  pub raw_payload : String
  pub signature : Option String

-- A key of an issuer, its material of any type `M`
pub record SigningKey (M : Type 0) : Type 0 where
  pub purpose : String
  pub kid : Option String
  pub alg : Option String
  pub material : M

-- An answer over HTTP with its body decoded
pub record Fetched (B : Type 0) : Type 0 where
  pub is_ok : Bool
  pub status_text : String
  pub json : Result B

-- `JSON.parse` of a decoded part, `new URL`, `get` of lib/get.ts, and `node:crypto`
pub record Services (M : Type 0) : Type 0 where
  pub parse : String → Result Json
  pub discovery_url : String → Result String
  pub get_discovery : String → Result (Fetched String)
  pub get_keys : String → Result (Fetched (List (SigningKey M)))
  pub hmac : String → String → String → Result String
  pub verify_rsa : M → String → String → Result Bool

abbrev pub missing_part : {B : Type 0} → Result B
missing_part = err (fault "The first argument must be of type string")

abbrev pub required_json : Option Json → String → Result Json
required_json none message = err (fault message)
required_json (some value) message = ok value

abbrev pub as_text : Json → String → Result String
as_text (text t) message = ok t
as_text value message = err (fault message)

abbrev pub as_number : Json → String → Result ℕ
as_number (number n) message = ok n
as_number value message = err (fault message)

-- `assert.ok('key' in value)`, and the type of what is there
abbrev pub text_at : Json → String → String → String → Result String
text_at value key absent wrong = do
  found ← required_json (get key value) absent
  as_text found wrong

abbrev pub number_at : Json → String → String → String → Result ℕ
number_at value key absent wrong = do
  found ← required_json (get key value) absent
  as_number found wrong

abbrev pub is_digit : Char → Bool
is_digit c = leb 48 (code c) && leb (code c) 57

-- `/HS\d{3}$/`
unfoldable pub ends_in_hs : String → Bool
ends_in_hs [] = false
ends_in_hs (h ∷ rest) = let later = ends_in_hs rest in if is_hs (h ∷ rest) then true else later
  where
    is_hs : String → Bool
    is_hs (h ∷ (s ∷ (a ∷ (b ∷ (c ∷ []))))) =
        starts_with (h ∷ (s ∷ [])) "HS" && (is_digit a && is_digit b && is_digit c)
    is_hs _ = false
