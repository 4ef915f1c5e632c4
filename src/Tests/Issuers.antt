-- ===== src/Tests/Issuers.antt =====
-- A token that an issuer signed with a shared secret.
use kookaburra.Prelude.{
  Option, true, ℕ, String, false, none, some, [], ◌∷◌, ◌≡◌, refl, arith, if◌then◌else◌, ◌==◌,
}
use kookaburra.Result.{Result, ok, err, fault}
use kookaburra.Text.{◌+++◌}
use kookaburra.Auth.Claims.{codomain}
use kookaburra.Auth.Claims.Domains.{codomain_siblings}
use kookaburra.Untyped.{Json, text, number, object, no_members, member}
use kookaburra.Federation.Types.{Trust, one, IdToken, SigningKey, Services}
use kookaburra.Federation.Keys.{select_key-first}
use kookaburra.Federation.{select_key}

abbrev pub partner : Trust
partner = record {
  iss = "partner";
  aud = some ("app" ∷ []);
  secrets = some (("HS256", ("k1", "secret") ∷ []) ∷ []);
}

abbrev pub header_json : Json
header_json = object (member "alg" (text "HS256") (member "kid" (text "k1") no_members))

abbrev pub payload_json : Json
payload_json = object (
    member "iss" (text "partner") (
      member "aud" (text "app") (
        member "sub" (text "me") (member "exp" (number 20) (member "iat" (number 10) no_members)))))

abbrev pub no_network : Services ℕ
no_network = record {
  parse = λ part. if part == "h" then ok header_json else ok payload_json;
  discovery_url = λ iss. err (fault "Invalid URL");
  get_discovery = λ url. err (fault "ENOTFOUND");
  get_keys = λ url. err (fault "ENOTFOUND");
  hmac = λ alg secret signed. ok "s";
  verify_rsa = λ key signed signature. ok false;
}

abbrev pub claims : IdToken
claims = record { iss = "partner"; aud = one "app"; sub = "me"; exp = 20; iat = 10; nbf = none }

abbrev pub key_named : String → ℕ → SigningKey ℕ
key_named kid material = record {
  purpose = "sig";
  kid = some kid;
  alg = some "RS256";
  material = material;
}

select_key-first_example :
    select_key
      (record { alg = "RS256"; kid = some "new" })
      (key_named "old" 1 ∷ key_named "new" 2 ∷ [])
    ≡ ok (key_named "old" 1)
select_key-first_example =
    select_key-first "RS256" "new" (key_named "old" 1) (key_named "new" 2 ∷ []) (omega arith)

abbrev pub other_host : Option String → Result String
other_host iss = ok "x.com"

codomain_siblings_example :
    codomain other_host ("bank" +++ (String.◌∷◌ "." "com")) (some "https://x.com") ≡ ok true
codomain_siblings_example =
    codomain_siblings other_host "https://x.com" "x" "bank" "com" "." (λ e. cc, tt) refl refl
