-- ===== src/Auth/Authorize.antt =====
-- directives/auth/{Anonymous,Anyone,Id,Role,Rule,Incept,Scheme,Echo,Delegate,Input}.ts: what each
-- directive decides. The roles of an identity (the component identity.roles), new identifiers,
-- `toLowerCase` and the matching of claims are parameters.
-- A directive is given the identity of the context as it was when the family began, which is the
-- context's own object unless it was null: `known` says whether it was there.
use kookaburra.Prelude.{
  String, Bool, true, false, not, ◌&&◌, Option, none, some, List, [], ◌∷◌, ◌++◌, ◌==◌,
  if◌then◌else◌, is_some,
}
use kookaburra.Result.{Result, ok, err, forbidden, ◌>>=◌}
use kookaburra.Text.{◌+++◌}
use kookaburra.Rtd.Node.{Params}
use kookaburra.Gateway.{value_of}
use kookaburra.Auth.Types.{
  Identity, AuthDirective, AuthDirectives, Context, anonymous, anyone, id_is, role, rule, incept,
  scheme_is, echo, delegate, claims, input, done, and_then, embed, check, split, create,
}
use kookaburra.Auth.Role.{match_roles}

-- What the directives use of other components
pub record Outside (F : Type 0) : Type 0 where
  pub list_roles : String → Result (List String)
  pub new_id : String
  pub lower : String → String
  pub capital : String → String
  pub match_claims : F → Identity → Context F → Params → Bool

module _ {F : Type 0} (outside : Outside F) where
  -- The identity as the directive was given it
  abbrev pub given : Bool → Context F → Option Identity
  given known context = if known then context.identity else none

  -- `identity.roles ??= await Role.get(identity, discovery)`
  unfoldable pub get_roles : Identity → Result (List String)
  get_roles identity = elim identity.roles [
    | some roles ↦ ok roles
    | none ↦ outside.list_roles identity.id
  ]

  abbrev pub with_roles : Context F → Identity → List String → Context F
  with_roles context identity roles = record context {
    identity = some (record identity { roles = some roles });
  }

  unfoldable pub authorize_role :
      List String → Option Identity → Context F → Params → Result (Bool × Context F)
  unfolding get_roles match_roles
  authorize_role declared none context params = ok (false, context)
  authorize_role declared (some identity) context params = do
    roles ← get_roles identity
    matched ← match_roles declared roles params
    ok (matched, with_roles context identity roles)

  unfoldable pub authorize_delegate :
      String → Option Identity → Context F → Result (Bool × Context F)
  unfolding get_roles
  authorize_delegate property none context = ok (false, context)
  authorize_delegate property (some identity) context = do
    roles ← get_roles identity
    let changed = with_roles context identity roles
    ok (true, record changed { transforms = changed.transforms ++ embed property ∷ [] })

  unfoldable pub authorize_scheme : String → Context F → Result (Bool × Context F)
  unfolding split
  authorize_scheme scheme context = elim context.authorization [
    | none ↦ ok (false, context)
    | some header ↦ do
      (given_scheme, credentials) ← split outside.lower header
      if given_scheme == outside.lower scheme
          then ok (false, context)
          else err (
              forbidden (
                outside.capital scheme
                +++ " authentication scheme is required to access this resource"))
  ]

  unfoldable pub authorize_echo : Option Identity → Context F → Context F × Bool
  unfolding create
  authorize_echo identity context =
      if not (is_some identity) && is_some context.authorization
      then (context, false)
      else elim context.identity [
        | some present ↦ (context, true)
        | none ↦ (record context { identity = some (create outside.new_id none) }, true)
      ]

  unfoldable pub authorize_id : String → Option Identity → Params → Bool
  unfolding value_of
  authorize_id parameter none params = false
  authorize_id parameter (some identity) params = elim (value_of parameter params) [
    | none ↦ false
    | some value ↦ value == identity.id
  ]

  unfoldable pub authorize_claims : F → Option Identity → Context F → Params → Bool
  authorize_claims expected none context params = false
  authorize_claims expected (some identity) context params =
      outside.match_claims expected identity context params

  -- The next directive of a rule is asked only if this one authorizes.
  unfoldable pub and_also :
      Result (Bool × Context F)
      → (Context F → Result (Bool × Context F))
      → Result (Bool × Context F)
  and_also (err failure) next = err failure
  and_also (ok (true, context)) next = next context
  and_also (ok (false, context)) next = ok (false, context)

  unfoldable mutual
    -- `directive.authorize`
    pub authorize : AuthDirective F → Bool → Context F → Params → Result (Bool × Context F)
    authorize (anonymous allow) known context params =
        ok (if is_some context.authorization then false else allow, context)
    authorize (anyone allow) known context params = ok (is_some context.identity && allow, context)
    authorize (id_is parameter) known context params =
        ok (authorize_id parameter (given known context) params, context)
    authorize (role declared) known context params =
        authorize_role declared (given known context) context params
    authorize (rule directives) known context params = authorize_all directives known context params
    authorize (incept property) known context params =
        ok (not (is_some (given known context)), context)
    authorize (scheme_is scheme) known context params = authorize_scheme scheme context
    authorize echo known context params =
        let (changed, allow) = authorize_echo (given known context) context in ok (allow, changed)
    authorize (delegate property) known context params =
        authorize_delegate property (given known context) context
    authorize (claims expected) known context params =
        ok (authorize_claims expected (given known context) context params, context)
    authorize (input statements) known context params =
        ok (false, record context { transforms = context.transforms ++ check statements ∷ [] })

    -- `Rule.authorize`
    pub authorize_all : AuthDirectives F → Bool → Context F → Params → Result (Bool × Context F)
    authorize_all done known context params = ok (true, context)
    authorize_all (and_then directive rest) known context params =
        and_also (authorize directive known context params)
          (λ changed. authorize_all rest known changed params)
