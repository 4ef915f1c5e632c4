-- ===== src/Tests/Access.antt =====
-- Concrete roles, identities and cache directives.
use kookaburra.Prelude.{
  String, true, false, not, Option, none, some, List, [], ◌∷◌, ◌++◌, ◌≡◌, refl, filter, is_some,
}
use kookaburra.Result.{ok}
use kookaburra.Text.{starts_with, cut}
use kookaburra.Dict.{lookup, insert}
use kookaburra.Sort.{sort_by, insert_by}
use kookaburra.Auth.Types.{Identity, AuthDirective, anonymous, anyone, Context, provider_of, split}
use kookaburra.Auth.Role.{covers}
use kookaburra.Auth.Authorize.{authorize, get_roles}
use kookaburra.Auth.Family.{
  Remotes, is_input, admit, resolve_scheme, resolve, permitted, reply, decide, preflight, Response,
}
use kookaburra.Auth.Family.Grants.{IsAuthentic, Granted, resolve-IsAuthentic, preflight-Granted}
use kookaburra.Cache.{Headers, Control, new_control, disabled, mask, occurs, word_here}
use kookaburra.Auth.Settle.{Inception, settle as settle_family, settle_all, is_current, issue}
use kookaburra.Cache.Laws.{MayWrite, IsNeutral}

below : covers "app" "app:users" ≡ true
unfolding covers starts_with
below = refl

lower : covers "app:users" "app:users:read" ≡ true
unfolding covers starts_with
lower = refl

abbrev bob : Identity
bob = record { id = "bob"; roles = none; permissions = none; scheme = none; refresh = false }

abbrev remotes : Remotes String String
remotes = record {
  outside = record {
    list_roles = λ id. ok [];
    new_id = "new";
    lower = λ text. text;
    capital = λ text. text;
    match_claims = λ claims identity context params. false;
  };
  authenticate = λ provider authority credentials. ok (some (bob, true));
  banned = λ id. ok false;
  encrypt = λ authority identity. ok "";
  minimatch = λ url pattern. true;
  identity_body = λ identity. identity.id;
}

abbrev known : Identity
known = record bob { scheme = some "basic"; refresh = true }

resolves : resolve remotes "nex" (some "basic abc") ≡ ok (some known)
unfolding resolve resolve_scheme admit split cut provider_of
resolves = refl

resolve-IsAuthentic_example : IsAuthentic remotes [] "nex" "basic abc" known
resolve-IsAuthentic_example = resolve-IsAuthentic remotes [] "nex" "basic abc" known resolves

abbrev context : Context String
context = record {
  authority = "nex";
  authorization = some "basic abc";
  verb = "GET";
  url = "/";
  identity = none;
  transforms = [];
}

abbrev directives : List (AuthDirective String)
directives = anonymous true ∷ anyone true ∷ []

passes :
    preflight remotes directives context [] ≡ ok (none, record context { identity = some known })
unfolding preflight decide authorize permitted reply resolve resolve_scheme admit split cut
    provider_of sort_by insert_by
passes = refl

preflight-Granted_example :
    (identity : Option Identity) × (resolve remotes context.authority context.authorization
      ≡ ok identity)
    × Granted remotes []
        (filter is_input directives ++ filter (λ d. not (is_input d)) directives)
        (is_some identity)
        (record context { identity = identity })
        none
        (record context { identity = some known })
preflight-Granted_example =
    preflight-Granted remotes [] directives context (record context { identity = some known }) none
      passes

abbrev stored : Headers
stored = ("cache-control", "no-store") ∷ []

abbrev control : Control
control = new_control false "max-age=10"

not_stored : disabled stored ≡ true
unfolding disabled mask occurs word_here starts_with lookup
not_stored = refl

writes : MayWrite "GET" []
unfolding disabled lookup
writes = (refl, refl)

neutral : IsNeutral "max-age=10"
unfolding mask occurs word_here starts_with
neutral = (refl, refl)

abbrev inception : Inception String
inception = record {
  property_of = λ body property. some (some body);
  incepted = λ provider authority id credentials. ok none;
}

abbrev created : Response String
created = record { status = some 201; headers = []; body = some "bob" }

abbrev signed_in : Context String
signed_in = record context { identity = some known }

abbrev with_token : Response String
with_token = record created {
  headers = ("authorization", "Token ") ∷ ("cache-control", "no-store") ∷ [];
}

settles : settle_family remotes inception directives signed_in created ≡ ok (with_token, signed_in)
unfolding settle_family settle_all is_current issue get_roles insert
settles = refl
