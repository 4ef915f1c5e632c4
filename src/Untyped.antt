-- ===== src/Untyped.antt =====
-- Untyped values, as `JSON.parse` gives them.
use kookaburra.Prelude.{
  ℕ, String, Bool, true, false, Option, none, some, List, [], ◌∷◌, ◌==◌, if◌then◌else◌,
}

mutual
  pub data Json : Type 0 where
    null : Json
    truth : Bool → Json
    number : ℕ → Json
    text : String → Json
    array : Items → Json
    object : Members → Json

  pub data Items : Type 0 where
    no_items : Items
    item : Json → Items → Items

  pub data Members : Type 0 where
    no_members : Members
    member : String → Json → Members → Members

-- `value !== null && typeof value === 'object'`
abbrev pub is_object : Json → Bool
is_object (array items) = true
is_object (object fields) = true
is_object _ = false

unfoldable pub member_at : String → Members → Option Json
member_at key no_members = none
member_at key (member k value rest) =
    let later = member_at key rest in if k == key then some value else later

-- `value[key]` where `key in value`, of keys that are no index and no inherited name
abbrev pub get : String → Json → Option Json
get key (object fields) = member_at key fields
get key _ = none

-- The items, if each is a string
unfoldable pub texts_of : Items → Option (List String)
texts_of no_items = some []
texts_of (item (text t) rest) = elim (texts_of rest) [ none ↦ none | some ts ↦ some (t ∷ ts) ]
texts_of (item _ rest) = none
