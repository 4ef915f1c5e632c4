-- ===== src/Tokens/Footer.antt =====
-- The key that the footer of a sealed token names.
use kookaburra.Prelude.{ℕ, String, Bool, true, Option, none, some, [], ◌∷◌, ◌≡◌, refl, ◌∙◌, ap, ltb}
use kookaburra.Text.{◌+++◌, split_on}
use kookaburra.Text.Laws.{Lacks, split_on-append, split_on-Lacks}
use kookaburra.Tokens.{value, Payload, Configuration, Crypto, key_id}

-- The time has not come, if there is one.
abbrev pub lasts : ℕ → Option ℕ → Bool
lasts now none = true
lasts now (some time) = ltb now time

abbrev dotted : String → String → String
dotted part rest = part +++ String.◌∷◌ "." rest

-- `v3.local.body.footer`
abbrev pub token_text : String → String → String
token_text body footer = dotted "v3" (dotted "local" (dotted body footer))

-- What PASETO documents of a payload that is sealed at a time: the token has a body and a footer,
-- both in base64 for URLs, which has no dots; the footer is the identifier that was given, and the
-- payload is opened with the secret that it was sealed with until it expires.
pub record IsSound {S : Type 0} (crypto : Crypto S) (now : ℕ) (payload : Payload)
    (secret id : String) : Type 0 where
  pub body : String
  pub footer : String
  pub text : crypto.seal now payload secret id ≡ token_text body footer
  pub plain_body : Lacks b'.' body
  pub plain_footer : Lacks b'.' footer
  pub names : crypto.read_footer footer ≡ some id
  pub opens :
      (later : ℕ)
      → lasts later payload.exp ≡ true
      → crypto.open_token later (crypto.seal now payload secret id) secret
        ≡ some (record { payload = payload; iat = now })

split_on-token_text :
    (body footer : String)
    → Lacks b'.' body
    → Lacks b'.' footer
    → split_on b'.' (token_text body footer) ≡ "v3" ∷ "local" ∷ body ∷ footer ∷ []
split_on-token_text body footer h k =
    split_on-append b'.' "v3" (dotted "local" (dotted body footer)) "." (λ e. cc, (λ e. cc, tt))
      refl
    ∙ ap (λ parts. "v3" ∷ parts)
        (split_on-append b'.' "local" (dotted body footer) "."
            (λ e. cc, (λ e. cc, (λ e. cc, (λ e. cc, (λ e. cc, tt))))) refl
          ∙ ap (λ parts. "local" ∷ parts)
              (split_on-append b'.' body footer "." h refl
                ∙ ap (λ parts. body ∷ parts) (split_on-Lacks b'.' footer k)))

module _ {S : Type 0} (crypto : Crypto S) (configuration : Configuration) (now : ℕ) where
  -- The key of a token is read from the footer.
  pub key_id-token_text :
      (body footer id : String)
      → Lacks b'.' body
      → Lacks b'.' footer
      → crypto.read_footer footer ≡ some id
      → key_id crypto configuration now (token_text body footer) ≡ value id
  unfolding key_id
  key_id-token_text body footer id h k names =
      rw (split_on-token_text body footer h k, key_id) (rw names refl)
