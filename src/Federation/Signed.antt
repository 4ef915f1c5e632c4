-- ===== src/Federation/Signed.antt =====
-- Who signed a token that is decoded.
use kookaburra.Prelude.{String, true, some, List, ◌≡◌, Any}
use kookaburra.Result.{Result, ok}
use kookaburra.Text.{◌+++◌}
use kookaburra.Federation.Types.{Trust, JwtHeader, IdToken, RawToken, SigningKey, Services}
use kookaburra.Federation.{secrets_for, secret_of, issuer_keys}

module _ {M : Type 0} (services : Services M) where
  abbrev pub signed_text : RawToken → String
  signed_text token = token.raw_header +++ "." +++ token.raw_payload

  -- The signature of a token was made with a secret shared with its issuer, which is trusted, or
  -- with a key that its issuer publishes.
  pub data IsSigned (trusted : List Trust) (header : JwtHeader) (claims : IdToken)
      (token : RawToken) : Type 0 where
    by_secret :
        (trust : Trust) (named : List (String × String)) (secret signature : String)
        → Any (λ t. t ≡ trust) trusted
        → trust.iss ≡ claims.iss
        → secrets_for trust header.alg ≡ ok named
        → secret_of header.kid named ≡ some secret
        → token.signature ≡ some signature
        → services.hmac header.alg secret (signed_text token) ≡ ok signature
        → IsSigned trusted header claims token
    by_key :
        (keys : List (SigningKey M)) (key : SigningKey M) (signature : String)
        → issuer_keys services claims.iss ≡ ok keys
        → Any (λ k. k ≡ key) keys
        → token.signature ≡ some signature
        → services.verify_rsa key.material (signed_text token) signature ≡ ok true
        → IsSigned trusted header claims token
