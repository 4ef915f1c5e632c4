-- ===== src/Basic/SignIn.antt =====
-- extensions/exposition/components/identity.basic/source/{authenticate,incept}.ts: credentials as a
-- client sends them. Decoding of base64, comparison of hashes, and the operations `observe` and
-- `transit` of the component are parameters.
use kookaburra.Prelude.{String, Bool, Option, none, some, List, [], ◌∷◌, if◌then◌else◌, or_else}
use kookaburra.Text.{◌+++◌, split_on}
use kookaburra.Runtime.Eff.{Eff, ◌>>=◌, give}
use kookaburra.Basic.{Credentials, TransitInput, TransitOutput, refused}

-- What `observe` gives
pub data Observed : Type 0 where
  failed : String → Observed
  nothing : Observed
  object : Credentials → Observed

-- The operations of the component, the password's pepper, and libraries
pub record Local (W : Type 0) : Type 0 where
  pub decode64 : String → String
  pub observe : String → Eff W Observed
  pub transit : TransitInput → String → Eff W TransitOutput
  pub compare : String → Option String → Eff W Bool
  pub pepper : String

-- An identity, or an error by its code
pub data SignedIn : Type 0 where
  signed_in : String → SignedIn
  rejected : String → SignedIn

-- `const [username, password] = ….split(':')`
unfoldable pub first_two : List String → String × Option String
first_two [] = ("", none)
first_two (username ∷ []) = (username, none)
first_two (username ∷ password ∷ rest) = (username, some password)

module _ {W : Type 0} (local : Local W) where
  unfoldable pub credentials_of : String → String × Option String
  unfolding first_two split_on
  credentials_of credentials = first_two (split_on b':' (local.decode64 credentials))

  -- `computation` behind `observe`; `undefined` joined to a text is a word of its own.
  unfoldable pub verify : Option String → Observed → Eff W SignedIn
  verify password (failed code) = give (rejected code)
  verify password nothing = give (rejected "NOT_FOUND")
  verify password (object credentials) = do
    matches ← local.compare (or_else password "undefined" +++ local.pepper) credentials.password
    give (if matches then signed_in credentials.id else rejected "PASSWORD_MISMATCH")

  -- `computation` of authenticate.ts
  unfoldable pub authenticate : String → String → Eff W SignedIn
  unfolding credentials_of verify
  authenticate authority credentials =
      let parts = credentials_of credentials in
      local.observe ("authority==" +++ authority +++ ";username=='" +++ parts.0 +++ "'")
      >>= verify parts.1

  unfoldable pub transit_with : String → String → String → Option String → Eff W TransitOutput
  transit_with authority id username none = give (refused "INVALID_CREDENTIALS")
  transit_with authority id username (some password) =
      local.transit
        (record { authority = authority; username = some username; password = some password }) id

  -- `effect` of incept.ts
  unfoldable pub incept : String → String → String → Eff W TransitOutput
  unfolding credentials_of transit_with
  incept authority id credentials =
      let parts = credentials_of credentials in transit_with authority id parts.0 parts.1
