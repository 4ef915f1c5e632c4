-- ===== src/Auth/Family.antt =====
-- directives/auth/Authorization.ts: the family. The components that authenticate, tell of bans
-- and encrypt tokens, `minimatch`, and what Incept does in `settle` are parameters.
pub mod Grants
use kookaburra.Prelude.{
  String, Bool, true, false, not, ◌&&◌, ◌||◌, Option, none, some, List, [], ◌∷◌, ◌++◌, ◌==◌,
  if◌then◌else◌, is_some, any, ℕ,
}
use kookaburra.Result.{Result, ok, err, forbidden, unauthorized, ◌>>=◌}
use kookaburra.Text.{◌+++◌}
use kookaburra.Sort.{sort_by, kind_first}
use kookaburra.Dict.{insert}
use kookaburra.Rtd.Node.{Params}
use kookaburra.Auth.Types.{
  Identity, AuthDirective, Context, Provider, input, incept, echo, split, create, provider_of,
  primary,
}
use kookaburra.Auth.Authorize.{Outside, authorize, get_roles}

-- `OutgoingMessage`: the status, the headers by their names in lower case, and the body
pub record Response (B : Type 0) : Type 0 where
  pub status : Option ℕ
  pub headers : List (String × String)
  pub body : Option B

pub record Remotes (F B : Type 0) : Type 0 where
  pub outside : Outside F
  -- The result of `authenticate`: an error, or an identity and `refresh`
  pub authenticate : Provider → String → String → Result (Option (Identity × Bool))
  pub banned : String → Result Bool
  pub encrypt : String → Identity → Result String
  pub minimatch : String → String → Bool
  pub identity_body : Identity → B

-- `directive.priority`: 0 for Input, 1 for the others
abbrev pub is_input : {F : Type 0} → AuthDirective F → Bool
is_input (input _) = true
is_input _ = false

module _ {F B : Type 0} (remotes : Remotes F B) where
  -- The end of `Authorization.resolve`, from the result of `authenticate`
  unfoldable pub admit : String → Option (Identity × Bool) → Result (Option Identity)
  admit scheme none = ok none
  admit scheme (some (identity, refresh)) = do
    out ← (if scheme == primary then ok false else remotes.banned identity.id)
    if out
        then err (unauthorized "")
        else ok (some (record identity { scheme = some scheme; refresh = refresh }))

  -- `Authorization.resolve` from the scheme on
  unfoldable pub resolve_scheme : String → String → String → Result (Option Identity)
  unfolding admit
  resolve_scheme authority scheme credentials = elim (provider_of scheme) [
    | none ↦ err (unauthorized ("Unknown authentication scheme '" +++ scheme +++ "'"))
    | some provider ↦ remotes.authenticate provider authority credentials >>= admit scheme
  ]

  -- `Authorization.resolve`
  unfoldable pub resolve : String → Option String → Result (Option Identity)
  unfolding resolve_scheme
  resolve authority none = ok none
  resolve authority (some header) = split remotes.outside.lower header >>= λ (scheme, credentials).
      resolve_scheme authority scheme credentials

  -- `Authorization.permitted`
  unfoldable pub permitted : Context F → Bool
  permitted context = elim context.identity [
    | none ↦ true
    | some identity ↦ elim identity.permissions [
      | none ↦ true
      | some permissions ↦
          any
            (λ (pattern, methods).
              any (λ method. (method == "*") || (method == context.verb)) methods
              && remotes.minimatch context.url pattern)
            permissions
    ]
  ]

  -- `directive.reply?.(context) ?? null`; the identity is there when Echo authorizes.
  unfoldable pub reply : AuthDirective F → Context F → Option (Response B)
  unfolding create
  reply (incept none) context = some (record {
    status = none;
    headers = [];
    body = some (remotes.identity_body (create remotes.outside.new_id context.authorization));
  })
  reply echo context = elim context.identity [
    | none ↦ none
    | some identity ↦ some (record {
      status = if is_some identity.scheme then none else some 201;
      headers = [];
      body = some (remotes.identity_body identity);
    })
  ]
  reply _ context = none

  -- The loop of `preflight`, and what is thrown behind it
  unfoldable pub decide :
      List (AuthDirective F) → Bool → Context F → Params → Result (Option (Response B) × Context F)
  unfolding permitted reply
  decide [] known context params =
      err (if is_some context.identity then forbidden "" else unauthorized "")
  decide (directive ∷ rest) known context params =
      elim (authorize remotes.outside directive known context params) [
        | err failure ↦ err failure
        | ok (true, changed) ↦
            if permitted changed then ok (reply directive changed, changed) else err (forbidden "")
        | ok (false, changed) ↦ decide rest (is_some changed.identity) changed params
      ]

  -- `Authorization.preflight`
  unfoldable pub preflight :
      List (AuthDirective F) → Context F → Params → Result (Option (Response B) × Context F)
  unfolding decide
  preflight directives context params = do
    identity ← resolve context.authority context.authorization
    decide (sort_by (kind_first is_input) directives) (is_some identity)
        (record context { identity = identity }) params
