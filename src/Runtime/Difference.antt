-- ===== src/Runtime/Difference.antt =====
-- libraries/generic/source/difference.js: what changed from one object to another. An array is an
-- object of its items by their indices, as `Object.keys` has it.
pub mod Throws
pub mod Tells
pub mod Sound
use kookaburra.Prelude.{
  ℕ, String, Bool, true, false, not, ◌&&◌, Option, none, some, List, [], ◌∷◌, ◌==◌, if◌then◌else◌,
  nat_eq, is_some,
}
use kookaburra.Result.{Result, ok, err, ◌>>=◌, fault}

mutual
  pub data Value : Type 0 where
    null : Value
    truth : Bool → Value
    number : ℕ → Value
    text : String → Value
    nest : Members → Value

  pub data Members : Type 0 where
    no_members : Members
    member : String → Value → Members → Members

mutual
  -- A changed property: its new value, or `undefined`; or what changed in it
  pub data Change : Type 0 where
    put : Option Value → Change
    within : Changes → Change

  pub data Changes : Type 0 where
    no_changes : Changes
    change : String → Change → Changes → Changes

-- `object[key]`
unfoldable pub property : String → Members → Option Value
property key no_members = none
property key (member k value rest) =
    let later = property key rest in if k == key then some value else later

-- `typeof`
abbrev pub type_of : Option Value → String
type_of none = "undefined"
type_of (some null) = "object"
type_of (some (truth b)) = "boolean"
type_of (some (number n)) = "number"
type_of (some (text t)) = "string"
type_of (some (nest fields)) = "object"

abbrev pub same_truth : Bool → Bool → Bool
same_truth true b = b
same_truth false b = not b

-- `===`, of values that are not both objects
unfoldable pub same_value : Value → Option Value → Bool
same_value null (some null) = true
same_value (truth a) (some (truth b)) = same_truth a b
same_value (number a) (some (number b)) = nat_eq a b
same_value (text a) (some (text b)) = a == b
same_value _ _ = false

-- `diff[key] = …`, or no change
abbrev pub noted : String → Option Change → Changes → Changes
noted key none later = later
noted key (some c) later = change key c later

abbrev pub join_changes : Changes → Changes → Changes
join_changes no_changes others = others
join_changes (change key c rest) others = change key c (join_changes rest others)

-- The properties of the second object that the first lacks
unfoldable pub added : Members → Members → Changes
unfolding property
added fields no_members = no_changes
added fields (member key value rest) =
    let later = added fields rest in
    if is_some (property key fields) then later else change key (put (some value)) later

-- The third test of the loop
abbrev pub compared : Value → Option Value → Option Change
compared value other = if same_value value other then none else some (put other)

abbrev pub not_an_object : {B : Type 0} → Result B
not_an_object = err (fault "Cannot convert undefined or null to object")

unfoldable mutual
  -- The loop's body, for a property of the first object
  pub changed : Value → Option Value → Result (Option Change)
  changed (nest fields) (some (nest others)) = do
    inner ← differences fields others
    ok (some (within (join_changes inner (added fields others))))
  changed (nest fields) (some null) = not_an_object
  changed (nest fields) other = ok (some (put other))
  changed value other =
      ok (if type_of (some value) == type_of other then compared value other else some (put other))

  -- The loop over the properties of the first object
  pub differences : Members → Members → Result Changes
  differences no_members others = ok no_changes
  differences (member key value rest) others = do
    here ← changed value (property key others)
    later ← differences rest others
    ok (noted key here later)

-- `difference`
unfoldable pub difference : Members → Members → Result Changes
unfolding differences added
difference fields others = do
  own ← differences fields others
  ok (join_changes own (added fields others))
