-- ===== src/Octets.antt =====
-- extensions/exposition/source/directives/octets/Octets.ts: which action a request to stored streams
-- runs. The actions are in Octets/Actions, the workflows in Octets/Workflow, and the component that
-- they call in Octets/Component.
pub mod Workflow
pub mod Component
pub mod Actions
pub mod Reads
pub mod Writes
pub mod Deletes
pub mod Entries
pub mod Stored
use Prim.Native.Char.{code}
use Prim.Native.String.{[], ◌∷◌}
use kookaburra.Prelude.{
  ℕ, String, Bool, true, false, not, Option, none, some, List, [], ◌∷◌, if◌then◌else◌, nat_eq, ◌==◌,
}
use kookaburra.Result.{Result, ok, err, ◌>>=◌, fault, not_found}

-- The text's last character is `c`.
unfoldable pub ends_in : ℕ → String → Bool
ends_in c [] = false
ends_in c (d ∷ []) = nat_eq (code d) c
ends_in c (d ∷ e ∷ text) = ends_in c (e ∷ text)

-- An instance of `Context` with its storage, or another directive, by its `targeted`
pub data Directive (A : Type 0) : Type 0 where
  context : String → Directive A
  action : (targeted : Bool) → A → Directive A

-- The loop of `preflight`: the first context, and the one action
pub record Chosen (A : Type 0) : Type 0 where
  pub storage : Option String
  pub act : Option (Bool × A)

unfoldable pub choose : {A : Type 0} → List (Directive A) → Chosen A → Result (Chosen A)
choose [] chosen = ok chosen
choose (context name ∷ directives) chosen =
    choose directives (record chosen {
      storage = elim chosen.storage [ none ↦ some name | some first ↦ some first ];
    })
choose (action targeted a ∷ directives) chosen = elim chosen.act [
  | none ↦ choose directives (record chosen { act = some (targeted, a) })
  | some other ↦ err (fault "Octets action is ambiguous")
]

abbrev same_flag : Bool → Bool → Bool
same_flag true b = b
same_flag false b = not b

-- The guards of `preflight` behind the loop: the action to apply, with its storage
unfoldable pub guard_action : {A : Type 0} → String → Chosen A → Result (Option (String × A))
unfolding ends_in
guard_action url chosen = elim chosen.act [
  | none ↦ ok none
  | some (targeted, a) ↦ elim chosen.storage [
    | none ↦ err (fault "Octets context is not defined")
    | some name ↦
        if same_flag targeted (not (ends_in b'/' url))
        then ok (some (name, a))
        else err (not_found "Trailing slash")
  ]
]

-- `preflight`, up to the application of the action
unfoldable pub preflight : {A : Type 0} → String → List (Directive A) → Result (Option (String × A))
unfolding choose guard_action
preflight url directives = do
  chosen ← choose directives (record { storage = none; act = none })
  guard_action url chosen
