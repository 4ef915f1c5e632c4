-- ===== src/Basic.antt =====
-- extensions/exposition/components/identity.basic/source/transit.ts: a change of basic credentials.
-- Hashing, salts, the revocation of tokens and regular expressions are parameters.
pub mod Accepted
pub mod SignIn
pub mod Passwords
use kookaburra.Prelude.{
  ℕ, String, Bool, true, false, not, ◌&&◌, Option, none, some, List, ◌⊎◌, inl, inr, if◌then◌else◌,
  any, nat_eq, ◌==◌,
}
use kookaburra.Result.{Result, ok, err}
use kookaburra.Text.{◌+++◌}
use kookaburra.Runtime.Eff.{Eff, ◌>>=◌, give, after}

-- `Entity` of types.ts
pub record Credentials : Type 0 where
  pub id : String
  pub version : ℕ
  pub authority : Option String
  pub username : Option String
  pub password : Option String

pub record TransitInput : Type 0 where
  pub authority : String
  pub username : Option String
  pub password : Option String

pub data TransitOutput : Type 0 where
  refused : String → TransitOutput
  accepted : String → TransitOutput

-- What `mount` takes from the configuration, and the services that are called
pub record Mounted (W : Type 0) : Type 0 where
  pub rounds : ℕ
  pub pepper : String
  pub principal : Option String
  pub username_rx : List (String → Bool)
  pub password_rx : List (String → Bool)
  pub revoke : String → Eff W (Unit {0})
  pub gen_salt : ℕ → Eff W String
  pub hash : String → String → Eff W String

-- `invalid`
unfoldable pub invalid : String → List (String → Bool) → Bool
invalid value expressions = any (λ test. not (test value)) expressions

-- `===` of names that may be `undefined`
abbrev pub same_name : Option String → Option String → Bool
same_name none none = true
same_name (some a) (some b) = a == b
same_name _ _ = false

module _ {W : Type 0} (mounted : Mounted W) where
  -- `if (existent) … else …`
  unfoldable pub begin : TransitInput → Credentials → Eff W Credentials
  begin input object =
      if nat_eq object.version 0
      then give (record object { authority = some input.authority })
      else (do done ← mounted.revoke object.id; give object)

  -- `if (input.username !== undefined)`: an error, or the object changed
  unfoldable pub set_username : Bool → Option String → Credentials → String ⊎ Credentials
  unfolding invalid
  set_username existent none object = inr object
  set_username existent (some username) object =
      if existent && same_name object.username mounted.principal
      then inl "PRINCIPAL_LOCKED"
      else if invalid username mounted.username_rx
      then inl "INVALID_USERNAME"
      else inr (record object { username = some username })

  -- `if (input.password !== undefined)`
  unfoldable pub set_password : Option String → Credentials → Eff W (TransitOutput × Credentials)
  unfolding invalid
  set_password none object = give (accepted object.id, object)
  set_password (some password) object =
      if invalid password mounted.password_rx
      then give (refused "INVALID_PASSWORD", object)
      else (do
        salt ← mounted.gen_salt mounted.rounds
        hashed ← mounted.hash (password +++ mounted.pepper) salt
        give (accepted object.id, record object { password = some hashed }))

  -- `Transition.execute`
  unfoldable pub execute : TransitInput → Credentials → Eff W (TransitOutput × Credentials)
  unfolding begin set_username set_password
  execute input object = do
    begun ← begin input object
    elim (set_username (not (nat_eq object.version 0)) input.username begun) [
      | inl code ↦ give (refused code, begun)
      | inr named ↦ set_password input.password named
    ]
