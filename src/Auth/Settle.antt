-- ===== src/Auth/Settle.antt =====
-- directives/auth/{Authorization,Incept}.ts: what the family adds to a response. The reading of a
-- body's property and the inception by an identity provider are parameters. The source settles the
-- directives at once; here one follows the other.
pub mod Issues
use kookaburra.Prelude.{
  String, Bool, true, false, not, ◌&&◌, Option, none, some, List, [], ◌∷◌, ◌==◌, if◌then◌else◌,
  or_else,
}
use kookaburra.Result.{Result, ok, err, ◌>>=◌, bad_request, fault, unprocessable_entity}
use kookaburra.Text.{◌+++◌}
use kookaburra.Dict.{insert}
use kookaburra.Auth.Types.{
  Identity, AuthDirective, incept, Context, Provider, provider_of, primary, supports_inception,
  split,
}
use kookaburra.Auth.Authorize.{get_roles}
use kookaburra.Auth.Family.{Response, Remotes}

-- What Incept uses besides the family's remotes: a property of a body, which is undefined, or no
-- text, or a text; and the result of `incept`, an error or an identity.
pub record Inception (B : Type 0) : Type 0 where
  pub property_of : B → String → Option (Option String)
  pub incepted : Provider → String → String → String → Result (Option Identity)

-- `identity.scheme === PRIMARY && !identity.refresh`
unfoldable pub is_current : Identity → Bool
is_current identity =
    (elim identity.scheme as (λ _. Bool) [ none ↦ false | some scheme ↦ scheme == primary ])
    && not identity.refresh

module _ {F B : Type 0} (remotes : Remotes F B) (inception : Inception B) where
  -- `Incept.incept`
  unfoldable pub incept_identity : String → String → String → Result Identity
  unfolding split
  incept_identity authority header id = do
    (scheme, credentials) ← split remotes.outside.lower header
    elim (provider_of scheme) [
      | none ↦ err (bad_request "Authentication scheme is not supported")
      | some provider ↦
          if not (supports_inception provider)
          then err (bad_request "Authentication scheme does not support identity inception")
          else (do
            found ← inception.incepted provider authority id credentials
            elim found [
              | none ↦ err (unprocessable_entity "")
              | some identity ↦ ok (record identity { scheme = some scheme; roles = some [] })
            ])
    ]

  -- The identity that `Incept.settle` sets for an identifier
  unfoldable pub identity_for : Context F → String → Result Identity
  unfolding incept_identity
  identity_for context id = elim context.authorization [
    | some header ↦ incept_identity context.authority header id
    | none ↦
        ok (record { id = id; roles = some []; permissions = none; scheme = none; refresh = true })
  ]

  -- `response.body?.[this.property ?? 'id']`
  unfoldable pub property_in : Option String → Option B → Option (Option String)
  property_in property none = none
  property_in property (some body) = inception.property_of body (or_else property "id")

  -- `Incept.settle`
  unfoldable pub settle_incept : Option String → Context F → Response B → Result (Context F)
  unfolding identity_for property_in
  settle_incept property context response = elim (property_in property response.body) [
    | none ↦ ok context
    | some none ↦ err (fault "Response body property expected to be a string")
    | some (some id) ↦ do
      identity ← identity_for context id
      ok (record context { identity = some identity })
  ]

  -- `directive.settle?.(context, response)` of each
  unfoldable pub settle_all : List (AuthDirective F) → Context F → Response B → Result (Context F)
  unfolding settle_incept
  settle_all [] context response = ok context
  settle_all (incept property ∷ rest) context response = do
    changed ← settle_incept property context response
    settle_all rest changed response
  settle_all (directive ∷ rest) context response = settle_all rest context response

  -- The end of `settle`: a token for the identity
  unfoldable pub issue : Context F → Identity → Response B → Result (Response B)
  unfolding get_roles
  issue context identity response = do
    roles ← get_roles remotes.outside identity
    token ← remotes.encrypt context.authority (record identity { roles = some roles })
    ok (record response {
      headers =
          insert "cache-control" "no-store"
            (insert "authorization" ("Token " +++ token) response.headers);
    })

  -- `Authorization.settle`
  unfoldable pub settle :
      List (AuthDirective F) → Context F → Response B → Result (Response B × Context F)
  unfolding settle_all is_current issue
  settle directives context response = do
    settled ← settle_all directives context response
    elim settled.identity [
      | none ↦ ok (response, settled)
      | some identity ↦
          if is_current identity
          then ok (response, settled)
          else (do issued ← issue settled identity response; ok (issued, settled))
    ]
