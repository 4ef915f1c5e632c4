-- ===== src/Tokens/Issue.antt =====
-- extensions/exposition/components/identity.tokens/source/{issue,revoke}.ts: tokens that an identity
-- issues with a key of their own. The components identity.keys and identity.roles are parameters;
-- `now` and `later` are the times that issue.ts and encrypt.ts read.
use kookaburra.Prelude.{
  ℕ, ◌+◌, ◌*◌, String, Option, none, some, List, if◌then◌else◌, nat_eq, or_else,
}
use kookaburra.Text.{◌+++◌}
use kookaburra.Runtime.Eff.{Eff, ◌>>=◌, give}
use kookaburra.Tokens.{Maybe, value, error, NamedKey, EncryptInput, Configuration, Crypto, encrypt}

-- `Input` and `Output`
pub record IssueInput : Type 0 where
  pub authority : String
  pub identity : String
  pub label : String
  pub lifetime : Option ℕ
  pub scopes : Option (List String)
  pub permissions : Option (List (String × List String))

pub record IssueOutput : Type 0 where
  pub kid : String
  pub exp : Option ℕ
  pub token : String

pub record KeyInput : Type 0 where
  pub identity : String
  pub label : String
  pub expires : Option ℕ

-- `keys.create` and `roles.list`
pub record Remotes (W : Type 0) : Type 0 where
  pub create : KeyInput → Eff W NamedKey
  pub list : String → ℕ → Eff W (List String)

-- `Entity` of revoke.ts
pub record Revocable : Type 0 where
  pub revoked_at : Option ℕ

unfoldable pub revoke : ℕ → Revocable → Revocable
revoke now object = record object { revoked_at = some now }

module _ {S W : Type 0} (crypto : Crypto S) (configuration : Configuration) (remotes : Remotes W)
    (now later : ℕ) where
  -- `lifetime`, with that of `mount`
  unfoldable pub lifetime_of : IssueInput → ℕ
  lifetime_of input = or_else input.lifetime (configuration.lifetime * 1000)

  -- `expires`
  unfoldable pub expires_of : IssueInput → Option ℕ
  unfolding lifetime_of
  expires_of input =
      if nat_eq (lifetime_of input) 0 then none else some (now + lifetime_of input * 1000)

  -- The input of `encrypt`
  unfoldable pub sealing : IssueInput → NamedKey → List String → EncryptInput
  sealing input key roles = record {
    authority = input.authority;
    bearer = record { id = input.identity; roles = roles; permissions = none };
    lifetime = some (lifetime_of input);
    scopes = input.scopes;
    permissions = input.permissions;
    key = some key;
  }

  -- What `execute` returns for the token
  unfoldable pub issued : IssueInput → NamedKey → Maybe String → Maybe IssueOutput
  issued input key (error code) = error code
  issued input key (value token) =
      value (record { kid = key.id; exp = expires_of input; token = token })

  -- `Effect.execute` of issue.ts
  unfoldable pub issue : IssueInput → Eff W (Maybe IssueOutput)
  unfolding expires_of sealing issued
  issue input = do
    key ←
        remotes.create
          (record { identity = input.identity; label = input.label; expires = expires_of input })
    roles ← remotes.list ("identity==" +++ input.identity) 1024
    give (issued input key (encrypt crypto configuration later (sealing input key roles)))
