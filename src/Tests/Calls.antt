-- ===== src/Tests/Calls.antt =====
-- Concrete tokens, bodies and calls of operations.
use kookaburra.Prelude.{ℕ, String, false, Option, none, some, List, [], ◌∷◌, map, ◌≡◌, ◌≢◌, refl}
use kookaburra.Result.{ok}
use kookaburra.Text.{◌+++◌, split_on}
use kookaburra.Dict.{lookup, assign, insert}
use kookaburra.Rtd.Node.{Params}
use kookaburra.Query.{HttpQuery, Number, nan, fit, split, take_declared}
use kookaburra.QuerySyntax.{Query, semicolon}
use kookaburra.Tokens.{
  value, Bearer, Payload, EncryptInput, Configuration, Crypto, key_id, local_key, find_key,
  open_with, decrypt, is_stale, is_revoked, accept, authenticate,
}
use kookaburra.Tokens.Issued.{IsAccepted, authenticate-IsAccepted}
use kookaburra.Io.{object, Outgoing, Output}
use kookaburra.Endpoint.{
  undefined, fields, Request, replied, Message, fit_input, embed, embed_route, create_input,
  assign_parameters, version, respond, match_etag, digits_before_quote, strip_weak,
}

abbrev bob : Bearer
bob = record { id = "bob"; roles = "app" ∷ []; permissions = none }

abbrev scoped : EncryptInput
scoped = record {
  authority = "nex";
  bearer = bob;
  lifetime = none;
  scopes = some ("app:read" ∷ []);
  permissions = none;
  key = none;
}

abbrev configuration : Configuration
configuration = record {
  latest = record { id = "k1"; secret = "s1" };
  others = [];
  lifetime = 60;
  stale_after = 10;
}

abbrev sealed : Payload
sealed = record {
  bearer = record { id = "bob"; roles = "app:read" ∷ []; permissions = none };
  iss = "nex";
  exp = some 60100;
}

-- PASETO for one payload
abbrev crypto : Crypto (List String)
crypto = record {
  seal = λ now payload secret kid. "v3.local.body." +++ kid;
  open_token = λ now token secret. some (record { payload = sealed; iat = 100 });
  read_footer = λ footer. some footer;
  get = λ cache kid. none;
  put = λ cache kid key. cache;
  observe = λ kid. none;
}

abbrev never : String → Option ℕ
never id = none

authenticates :
    authenticate crypto configuration 100 never [] "nex" "v3.local.body.k1"
    ≡ ([], value (sealed.bearer, false))
unfolding authenticate accept is_stale is_revoked decrypt key_id split_on find_key local_key
    open_with lookup
authenticates = refl

authenticate-IsAccepted_example :
    IsAccepted crypto configuration 100 never [] [] "nex" "v3.local.body.k1" sealed.bearer false
authenticate-IsAccepted_example =
    authenticate-IsAccepted crypto configuration 100 never [] [] "nex" "v3.local.body.k1"
      sealed.bearer false authenticates

abbrev titled : Output
titled = record { disabled = false; permissions = "title" ∷ [] }

abbrev sent : Outgoing ℕ
sent = record { status = some 200; body = object (("title", 1) ∷ ("secret", 2) ∷ []) }

abbrev titles : List (List (String × ℕ))
titles = (("title", 1) ∷ []) ∷ []

abbrev no_query : Query
no_query = record { query = none; closed = false; prepend = semicolon; is_queryable = false }

abbrev search : HttpQuery
search = record { entries = []; version = none }

abbrev parse : String → Number
parse text = nan

abbrev valid : HttpQuery → Option String
valid query = none

abbrev text_of : Option String → String
text_of none = "undefined"
text_of (some text) = text

abbrev route : Params
route = ("id", some "1") ∷ []

abbrev fitted : Request String
fitted = record { input = fields (("id", "1") ∷ []); query = none }

fits :
    (fit_input parse valid text_of no_query (fields (("id", "2") ∷ [])) search route ≡ ok fitted)
    × (fit_input parse valid text_of no_query undefined search route ≡ ok fitted)
unfolding fit_input embed_route embed create_input assign_parameters assign insert fit split
    take_declared
fits = (refl, refl)

named : lookup "id" (map (λ (n, v). (n, text_of v)) route) ≢ none
unfolding lookup
named e = cc

abbrev three : String → ℕ
three digits = 3

abbrev digit : ℕ → String
digit n = "3"

abbrev date : String → String
date text = text

abbrev unmodified : Message String
unmodified = record { status = some 304; headers = ("etag", "\"3\"") ∷ []; body = none }

abbrev tag : Option String
tag = some "\"3\""

abbrev third : Option ℕ
third = some 3

responds : respond three digit date tag (replied "pot" (some 3) none none) ≡ ok unmodified
unfolding respond version match_etag digits_before_quote strip_weak
responds = refl
