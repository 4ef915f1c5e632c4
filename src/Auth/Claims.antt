-- ===== src/Auth/Claims.antt =====
-- directives/auth/Federation.ts: the claims of an identity that an issuer vouches for. The host name
-- of a URL is a parameter; `new URL` throws where there is none.
pub mod Domains
use Prim.Native.Char.{code}
use Prim.Native.String
use Prim.Native.String.{◌∷◌}
use kookaburra.Prelude.{
  String, Bool, true, false, Option, none, some, List, if◌then◌else◌, any, includes, ◌==◌, nat_eq,
  or_else,
}
use mathlib.Core.List
use kookaburra.Result.{Result, ok, err, ◌>>=◌, fault}
use kookaburra.Text.{◌+++◌, starts_with}
use kookaburra.Dict.{lookup}

-- The value of a claim: a text, a list of texts, or none
pub data Claim : Type 0 where
  missing : Claim
  single : String → Claim
  several : List String → Claim

pub data Matcher : Type 0 where
  by_authority : Matcher
  by_domain : Matcher
  by_parameter : String → Matcher
  by_value : String → Matcher

-- `text.slice(1)`
abbrev pub tail : String → String
tail String.[] = ""
tail (c ∷ rest) = rest

-- `toMatcher`
unfoldable pub to_matcher : String → Result Matcher
unfolding starts_with
to_matcher expression =
    if starts_with expression ":"
    then (if tail expression == "authority"
        then ok by_authority
        else if tail expression == "domain"
        then ok by_domain
        else err (fault ("Unknown `auth:claims` syntax: " +++ expression)))
    else if starts_with expression "/:"
    then ok (by_parameter (tail (tail expression)))
    else ok (by_value expression)

-- `matches`
unfoldable pub matches_claim : Claim → String → Bool
matches_claim missing reference = false
matches_claim (single value) reference = value == reference
matches_claim (several values) reference = includes values reference

-- `text.slice(-suffix.length) === suffix` for a suffix that is not empty
unfoldable pub ends_with : String → String → Bool
ends_with String.[] suffix = "" == suffix
ends_with (c ∷ text) suffix =
    let later = ends_with text suffix in if (c ∷ text) == suffix then true else later

-- `text.slice(text.indexOf('.'))`, if there is a dot
unfoldable pub from_dot : String → Option String
from_dot String.[] = none
from_dot (c ∷ text) =
    let later = from_dot text in if nat_eq (code c) b'.' then some (c ∷ text) else later

-- The host from its first dot on, or all of it
unfoldable pub basename : String → String
unfolding from_dot
basename hostname = or_else (from_dot hostname) hostname

module _ (hostname_of : Option String → Result String) (authority : String) where
  -- `codomain`; the last `basename.length` characters of a text are all of it for an empty base name.
  unfoldable pub codomain : Option String → Result Bool
  unfolding basename ends_with
  codomain iss = do
    hostname ← hostname_of iss
    ok (
        if basename hostname == ""
        then authority == ""
        else ends_with authority (basename hostname))

  -- `value.some((iss) => codomain(iss, context))`
  unfoldable pub some_codomain : List String → Result Bool
  unfolding codomain
  some_codomain List.[] = ok false
  some_codomain (List.◌∷◌ iss rest) = do
    here ← codomain (some iss)
    if here then ok true else some_codomain rest

  -- The matcher that `toMatcher` makes, given the parameters of the route
  unfoldable pub match_claim : List (String × String) → Matcher → Claim → Result Bool
  unfolding some_codomain matches_claim
  match_claim parameters by_authority value = ok (matches_claim value authority)
  match_claim parameters by_domain missing = codomain none
  match_claim parameters by_domain (single iss) = codomain (some iss)
  match_claim parameters by_domain (several values) = some_codomain values
  match_claim parameters (by_parameter name) value =
      ok (any (λ p. if p.0 == name then matches_claim value p.1 else false) parameters)
  match_claim parameters (by_value expression) value = ok (matches_claim value expression)

  abbrev pub claim_at : String → List (String × Claim) → Claim
  claim_at key claims = elim (lookup key claims) [ none ↦ missing | some value ↦ value ]

  -- The loop of `Federation.authorize`
  unfoldable pub match_all :
      List (String × Matcher) → List (String × Claim) → List (String × String) → Result Bool
  unfolding match_claim lookup
  match_all List.[] claims parameters = ok true
  match_all (List.◌∷◌ (key, matcher) rest) claims parameters = do
    here ← match_claim parameters matcher (claim_at key claims)
    if here then match_all rest claims parameters else ok false

  -- `Federation.authorize`, of an identity with claims or none
  unfoldable pub authorize_federated :
      List (String × Matcher)
      → Option (List (String × Claim))
      → List (String × String)
      → Result Bool
  unfolding match_all
  authorize_federated matchers none parameters = ok false
  authorize_federated matchers (some claims) parameters = match_all matchers claims parameters
