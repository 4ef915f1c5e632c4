-- ===== src/Octets/Actions.antt =====
-- What the actions of extensions/exposition/source/directives/octets read, call and return.
use kookaburra.Prelude.{ℕ, String, Option, none, some, List, [], ◌∷◌}
use kookaburra.Text.{◌+++◌}
use kookaburra.Runtime.Eff.{Eff}
use kookaburra.Storages.{Metadata, Maybe, Stream}
use kookaburra.Octets.Component.{PutInput, Stored, Permission}
use kookaburra.Octets.Workflow.{Step, Report}

-- What the actions read of a request
pub record Input : Type 0 where
  pub method : String
  pub url : String
  pub headers : List (String × String)
  pub body : List (List ℕ)
  pub subtype : Option String
  pub authority : String
  pub bearer : Option String

-- The operations of octets.storage
pub record Operations (W : Type 0) : Type 0 where
  pub put : PutInput → Eff W Stored
  pub get : String → String → Eff W (Maybe Stream)
  pub head : String → String → Eff W (Maybe Metadata)
  pub delete : String → String → Eff W Unit

-- A body: an entry, bytes, the reports of a workflow, those behind an entry, or a generator of reports
pub data Body (W V : Type 0) : Type 0 where
  metadata : Metadata → Body W V
  bytes : List ℕ → Body W V
  reports : List (Report V) → Body W V
  parts : Metadata → List (Report V) → Body W V
  generated : Eff W (List (Report V)) → Body W V

pub record Output (W V : Type 0) : Type 0 where
  pub status : Option ℕ
  pub headers : List (String × String)
  pub body : Option (Body W V)

-- The options of the directives
pub record PutOptions : Type 0 where
  pub location : Option String
  pub accept : Option String
  pub limit : ℕ
  pub limit_text : String
  pub trust : Option (List Permission)
  pub workflow : Option (List (List Step))

abbrev pub plain : {W V : Type 0} → Body W V → Output W V
plain body = record { status = none; headers = []; body = some body }

-- `new Headers({ … })`
abbrev pub headers_of : (ℕ → String) → Metadata → List (String × String)
headers_of print m =
    ("content-type", m.kind)
    ∷ ("content-length", print m.size)
    ∷ ("etag", "\"" +++ m.checksum +++ "\"")
    ∷ []
