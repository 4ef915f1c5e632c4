-- ===== src/Auth/Types.antt =====
-- directives/auth/{types,schemes,split,create}.ts
use Prim.Native.String.{[]}
use kookaburra.Prelude.{
  String, Bool, true, false, Option, none, some, List, [], ◌==◌, if◌then◌else◌,
}
use kookaburra.Result.{Result, ok, err, unauthorized}
use kookaburra.Text.{cut}

-- `Identity`; `scheme` is `null` for transient identities.
pub record Identity : Type 0 where
  pub id : String
  pub roles : Option (List String)
  pub permissions : Option (List (String × List String))
  pub scheme : Option String
  pub refresh : Bool

mutual
  -- The directives by their constructors; the declarations of `claims` are of any type `F`.
  pub data AuthDirective (F : Type 0) : Type 0 where
    anonymous : Bool → AuthDirective F
    anyone : Bool → AuthDirective F
    id_is : String → AuthDirective F
    role : List String → AuthDirective F
    rule : AuthDirectives F → AuthDirective F
    incept : Option String → AuthDirective F
    scheme_is : String → AuthDirective F
    echo : AuthDirective F
    delegate : String → AuthDirective F
    claims : F → AuthDirective F
    input : Statements F → AuthDirective F

  pub data AuthDirectives (F : Type 0) : Type 0 where
    done : AuthDirectives F
    and_then : AuthDirective F → AuthDirectives F → AuthDirectives F

  -- `Statement[]` of Input.ts: the properties and the directives of each
  pub data Statements (F : Type 0) : Type 0 where
    no_statements : Statements F
    statement : List String → AuthDirectives F → Statements F → Statements F

-- What a directive adds to `pipelines.body`
pub data Transform (F : Type 0) : Type 0 where
  embed : String → Transform F
  check : Statements F → Transform F

-- What the directives read and change of the context
pub record Context (F : Type 0) : Type 0 where
  pub authority : String
  pub authorization : Option String
  pub verb : String
  pub url : String
  pub identity : Option Identity
  pub transforms : List (Transform F)

-- schemes.ts
pub data Provider : Type 0 where
  basic tokens federation : Provider

unfoldable pub provider_of : String → Option Provider
provider_of scheme =
    if scheme == "basic"
    then some basic
    else if scheme == "token"
    then some tokens
    else if scheme == "bearer"
    then some federation
    else none

abbrev pub primary : String
primary = "token"

abbrev pub supports_inception : Provider → Bool
supports_inception basic = true
supports_inception tokens = false
supports_inception federation = true

-- split.ts, given `toLowerCase`
unfoldable pub split : (String → String) → String → Result (String × String)
unfolding cut
split lower authorization = elim (cut b' ' authorization) [
  | none ↦ err (unauthorized "Malformed authorization header")
  | some (scheme, value) ↦ ok (lower scheme, value)
]

-- create.ts, given the new identifier: `credentials?.split(' ')[0] ?? null` is the scheme.
unfoldable pub create : String → Option String → Identity
unfolding cut
create new_id credentials = record {
  id = new_id;
  roles = some [];
  permissions = none;
  scheme = elim credentials [
    | none ↦ none
    | some text ↦ some (elim (cut b' ' text) [ none ↦ text | some (before, behind) ↦ before ])
  ];
  refresh = false;
}
