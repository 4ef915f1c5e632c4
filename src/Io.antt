-- ===== src/Io.antt =====
-- directives/io/{IO,Input,Output}.ts of extensions/exposition/source: which properties of a body
-- pass into and out of a component. Values of properties are of any type `V`; the schema of
-- messages and of declarations is checked by the shape of the data here.
pub mod Permitted
use kookaburra.Prelude.{
  ℕ, String, Bool, true, false, not, ◌||◌, Option, none, some, List, [], ◌∷◌, ◌==◌, if◌then◌else◌,
  is_some, includes, filter, find?, leb, map,
}
use kookaburra.Result.{Result, ok, err, ◌>>=◌, bad_request, fault}
use kookaburra.Text.{◌+++◌}

-- `Message`: an object by its properties
abbrev pub Message : Type 0 → Type 0
Message V = List (String × V)

-- A body: none, a stream, a value that is no object, an object, or a list of objects
pub data Body (V : Type 0) : Type 0 where
  absent : Body V
  stream : Body V
  scalar : V → Body V
  object : Message V → Body V
  objects : List (Message V) → Body V

-- `OutgoingMessage` with what `io` reads of it
pub record Outgoing (V : Type 0) : Type 0 where
  pub status : Option ℕ
  pub body : Body V

-- `Output` and its fields; `omitted` only decides whether a warning is logged.
pub record Output : Type 0 where
  pub disabled : Bool
  pub permissions : List String

-- `Permissions` of an output: a switch or a list
pub data Declared : Type 0 where
  switch : Bool → Declared
  listed : List String → Declared

-- The constructor of Output.
unfoldable pub new_output : Declared → Output
new_output (switch on) = record { disabled = on; permissions = [] }
new_output (listed permissions) = record { disabled = false; permissions = permissions }

-- `message.status !== undefined && message.status >= 300`
abbrev pub is_error : Option ℕ → Bool
is_error none = false
is_error (some status) = leb 300 status

abbrev pub no_permissions : List String → Bool
no_permissions [] = true
no_permissions (key ∷ keys) = false

module _ {V : Type 0} where
  -- `Output.fit`
  unfoldable pub keep : List String → Message V → Message V
  keep permissions message = filter (λ (key, _). includes permissions key) message

  -- The body that a restriction leaves
  unfoldable pub restrict_body : List String → Body V → Body V
  unfolding keep
  restrict_body permissions absent = absent
  restrict_body permissions stream = stream
  restrict_body permissions (scalar v) = absent
  restrict_body permissions (object message) =
      if no_permissions permissions then absent else object (keep permissions message)
  restrict_body permissions (objects messages) =
      if no_permissions permissions then absent else objects (map (keep permissions) messages)

  -- The function that `Output.restriction` returns
  unfoldable pub restrict : Output → Outgoing V → Outgoing V
  unfolding restrict_body
  restrict output message =
      if output.disabled || is_error message.status
      then message
      else record message { body = restrict_body output.permissions message.body }

  -- `Input.violation` of one object
  unfoldable pub violation : List String → Message V → Option String
  violation permissions [] = none
  violation permissions ((key, v) ∷ message) =
      let later = violation permissions message in
      if not (includes permissions key) then some key else later

  -- `Input.violation` of a list
  unfoldable pub first_violation : List String → List (Message V) → Option String
  unfolding violation
  first_violation permissions [] = none
  first_violation permissions (message ∷ messages) = elim (violation permissions message) [
    | some key ↦ some key
    | none ↦ first_violation permissions messages
  ]

  -- `if (property !== undefined) throw …`
  unfoldable pub refuse : Option String → Body V → Result (Body V)
  refuse (some key) body = err (bad_request ("Unexpected input: " +++ key))
  refuse none body = ok body

  -- `Input.check`
  unfoldable pub check : List String → Body V → Result (Body V)
  unfolding first_violation refuse
  check permissions absent = ok absent
  check permissions stream = err (bad_request "Invalid request body")
  check permissions (scalar v) = err (bad_request "Invalid request body")
  check permissions (object message) = refuse (violation permissions message) (object message)
  check permissions (objects messages) =
      refuse (first_violation permissions messages) (objects messages)

  -- The transforms of a context: `pipelines.body` and `pipelines.response`
  unfoldable pub pass_body : List (List String) → Body V → Result (Body V)
  unfolding check
  pass_body [] body = ok body
  pass_body (permissions ∷ rest) body = do checked ← check permissions body; pass_body rest checked

  unfoldable pub pass_response : List Output → Outgoing V → Outgoing V
  unfolding restrict
  pass_response [] message = message
  pass_response (output ∷ rest) message = pass_response rest (restrict output message)

-- A directive of the family
pub data IoDirective : Type 0 where
  input : List String → IoDirective
  output : Output → IoDirective

-- The pipelines of a context: the permissions of inputs, and outputs
pub record Pipelines : Type 0 where
  pub body : List (List String)
  pub response : List Output

abbrev pub append_one {ℓ} : {A : Type ℓ} → List A → A → List A
append_one [] x = x ∷ []
append_one (y ∷ ys) x = y ∷ append_one ys x

-- `DENIAL`
abbrev pub denial : Output
denial = new_output (listed [])

unfoldable pub attach : IoDirective → Pipelines → Pipelines
attach (input permissions) pipelines = record pipelines {
  body = append_one pipelines.body permissions;
}
attach (output restriction) pipelines = record pipelines {
  response = append_one pipelines.response restriction;
}

-- `IO.preflight`: the loop, with `restricted`, and the denial behind it
unfoldable pub attach_all : List IoDirective → Bool → Pipelines → Pipelines
unfolding attach new_output
attach_all [] restricted pipelines =
    if restricted then pipelines else attach (output denial) pipelines
attach_all (input permissions ∷ rest) restricted pipelines =
    attach_all rest restricted (attach (input permissions) pipelines)
attach_all (output restriction ∷ rest) restricted pipelines =
    attach_all rest true (attach (output restriction) pipelines)

unfoldable pub preflight : List IoDirective → Pipelines → Pipelines
unfolding attach_all
preflight directives pipelines = attach_all directives false pipelines
