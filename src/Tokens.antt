-- ===== src/Tokens.antt =====
-- extensions/exposition/components/identity.tokens/source/{encrypt,decrypt,authenticate}.ts: tokens
-- that carry an identity. PASETO, the reading of a token's footer (base64 and JSON), the LRU cache,
-- the component identity.keys and the stored revocations are parameters. Times are milliseconds.
pub mod Footer
pub mod Issued
pub mod Issue
pub mod Lifetimes
use kookaburra.Prelude.{
  ℕ, ◌+◌, ◌*◌, String, Bool, true, false, not, ◌&&◌, ◌||◌, Option, none, some, List, [], ◌∷◌, ◌==◌,
  if◌then◌else◌, is_some, any, ltb, nat_eq, or_else,
}
use kookaburra.Text.{◌+++◌, split_on, starts_with}
use kookaburra.Dict.{lookup}

-- `Maybe<T>`: a value, or an `Err` by its code
pub data Maybe (A : Type 0) : Type 0 where
  value : A → Maybe A
  error : String → Maybe A

infixl 5 ◌>>=◌
abbrev pub ◌>>=◌ : {A B : Type 0} → Maybe A → (A → Maybe B) → Maybe B
error code >>= rest = error code
value a >>= rest = rest a

-- `Identity` of a token
pub record Bearer : Type 0 where
  pub id : String
  pub roles : List String
  pub permissions : Option (List (String × List String))

-- `Claims`; `iat` is set by PASETO.
pub record Payload : Type 0 where
  pub bearer : Bearer
  pub iss : String
  pub exp : Option ℕ

pub record Claims : Type 0 where
  pub payload : Payload
  pub iat : ℕ

pub record NamedKey : Type 0 where
  pub id : String
  pub secret : String

-- `Key` of decrypt.ts
pub record Key : Type 0 where
  pub secret : String
  pub owner : Option String

pub record EncryptInput : Type 0 where
  pub authority : String
  pub bearer : Bearer
  pub lifetime : Option ℕ
  pub scopes : Option (List String)
  pub permissions : Option (List (String × List String))
  pub key : Option NamedKey

pub record DecryptOutput : Type 0 where
  pub claims : Claims
  pub refresh : Bool

-- `configuration`: the keys, the latest first, the lifetime and the time after which a token is stale
pub record Configuration : Type 0 where
  pub latest : NamedKey
  pub others : List (String × String)
  pub lifetime : ℕ
  pub stale_after : ℕ

-- PASETO, and the footer's reading; a cache `S` of remote keys
pub record Crypto (S : Type 0) : Type 0 where
  pub seal : ℕ → Payload → String → String → String
  pub open_token : ℕ → String → String → Option Claims
  pub read_footer : String → Option String
  pub get : S → String → Option (Option Key)
  pub put : S → String → Option Key → S
  pub observe : String → Option Key

-- `within`
unfoldable pub within : List String → String → Bool
unfolding starts_with
within roles scope = any (λ role. (role == scope) || starts_with scope (role +++ ":")) roles

abbrev pub all_within : List String → List String → Bool
all_within roles [] = true
all_within roles (scope ∷ scopes) = within roles scope && all_within roles scopes

-- The fourth part of the token: `const [, , , footer] = token.split('.')`
abbrev pub fourth : List String → Option String
fourth (a ∷ b ∷ c ∷ footer ∷ rest) = some footer
fourth _ = none

module _ {S : Type 0} (crypto : Crypto S) (configuration : Configuration) (now : ℕ) where
  -- The payload that `encrypt` seals
  unfoldable pub payload_of : EncryptInput → Payload
  payload_of input =
      let lifetime : ℕ = elim input.lifetime [
        | none ↦ configuration.lifetime * 1000
        | some seconds ↦ seconds * 1000
      ] in
      record {
        bearer = record {
          id = input.bearer.id;
          roles = or_else input.scopes input.bearer.roles;
          permissions = input.permissions;
        };
        iss = input.authority;
        exp = if nat_eq lifetime 0 then none else some (now + lifetime);
      }

  -- `Effect.execute` of encrypt.ts
  unfoldable pub encrypt : EncryptInput → Maybe String
  unfolding payload_of
  encrypt input =
      let accessible : Bool = elim input.scopes [
        | none ↦ true
        | some scopes ↦ all_within input.bearer.roles scopes
      ] in
      if accessible
      then (let key = or_else input.key configuration.latest in
          value (crypto.seal now (payload_of input) key.secret key.id))
      else error "INACCESSIBLE_SCOPE"

  -- `kid`
  unfoldable pub key_id : String → Maybe String
  unfolding split_on
  key_id token = elim (fourth (split_on b'.' token)) [
    | none ↦ error "INVALID_TOKEN"
    | some footer ↦ elim (crypto.read_footer footer) [
      | none ↦ error "INVALID_TOKEN"
      | some kid ↦ value kid
    ]
  ]

  -- `keys`, filled by `mount`: the keys of the configuration
  unfoldable pub local_key : String → Option Key
  local_key kid =
      elim (lookup kid
        ((configuration.latest.id, configuration.latest.secret) ∷ configuration.others)) [
          | none ↦ none
          | some secret ↦ some (record { secret = secret; owner = none })
        ]

  -- The cache after `if (!this.cache.has(kid)) this.cache.set(kid, …)`
  unfoldable pub fetch : S → String → S
  fetch cache kid =
      if is_some (crypto.get cache kid) then cache else crypto.put cache kid (crypto.observe kid)

  -- `key`, with the cache that it leaves
  unfoldable pub find_key : S → String → S × Maybe Key
  unfolding local_key fetch
  find_key cache kid = elim (local_key kid) [
    | some key ↦ (cache, value key)
    | none ↦
        let cache' = fetch cache kid in
        (
          cache',
          elim (crypto.get cache' kid) [
            | some (some key) ↦ value key
            | some none ↦ error "INVALID_KEY"
            | none ↦ error "INVALID_KEY"
          ],
        )
  ]

  -- `execute` of decrypt.ts from the key on
  unfoldable pub open_with : String → String → Key → Maybe DecryptOutput
  open_with token kid key = elim (crypto.open_token now token key.secret) [
    | none ↦ error "INVALID_TOKEN"
    | some claims ↦ elim key.owner [
      | none ↦ value (record { claims = claims; refresh = not (kid == configuration.latest.id) })
      | some owner ↦
          if claims.payload.bearer.id == owner
          then value (record { claims = claims; refresh = false })
          else error "FORGED_KEY"
    ]
  ]

  -- `Computation.execute` of decrypt.ts
  unfoldable pub decrypt : S → String → S × Maybe DecryptOutput
  unfolding key_id find_key open_with
  decrypt cache token = elim (key_id token) [
    | error code ↦ (cache, error code)
    | value kid ↦
        let (cache', found) = find_key cache kid in
        (cache', found >>= λ key. open_with token kid key)
  ]

  -- `stale`
  unfoldable pub is_stale : Claims → Bool
  is_stale claims =
      is_some claims.payload.exp && ltb (claims.iat + configuration.stale_after * 1000) now

  module _ (revoked_at : String → Option ℕ) where
    -- `revocation?.revokedAt !== undefined && iat < revocation.revokedAt`
    unfoldable pub is_revoked : Claims → Bool
    is_revoked claims = elim (revoked_at claims.payload.bearer.id) [
      | none ↦ false
      | some time ↦ ltb claims.iat time
    ]

    -- `execute` of authenticate.ts behind `decrypt`
    unfoldable pub accept : String → DecryptOutput → Maybe (Bearer × Bool)
    unfolding is_stale is_revoked
    accept authority output =
        if not (output.claims.payload.iss == authority)
        then error "AUTHORITY_MISMATCH"
        else if is_stale output.claims && is_revoked output.claims
        then error "TOKEN_REVOKED"
        else value (output.claims.payload.bearer, is_stale output.claims || output.refresh)

    -- `Computation.execute` of authenticate.ts
    unfoldable pub authenticate : S → String → String → S × Maybe (Bearer × Bool)
    unfolding decrypt accept
    authenticate cache authority token =
        let (cache', opened) = decrypt cache token in (cache', opened >>= accept authority)
