-- ===== src/Text.antt =====
-- The string methods that the sources use, by code points: `split` by one character, `join`,
-- `startsWith`, and `toLowerCase` on ASCII letters.
pub mod Laws
use Prim.Native.Char.{Char, code}
use Prim.Native.String
use Prim.Native.String.{[], ◌∷◌}
use kookaburra.Prelude.{
  ℕ, String, Bool, true, false, ◌&&◌, Option, none, some, List, [], ◌∷◌, nat_eq, if◌then◌else◌, leb,
}

infixr 65 ◌+++◌
abbrev pub ◌+++◌ : String → String → String
◌+++◌ = String.◌++◌

abbrev pub prepend : Char → List String → List String
prepend ch [] = (ch ∷ "") ∷ []
prepend ch (part ∷ parts) = (ch ∷ part) ∷ parts

-- `text.split(separator)` for a separator of one character
unfoldable pub split_on : ℕ → String → List String
split_on sep [] = "" ∷ []
split_on sep (ch ∷ text) =
    let rest = split_on sep text in if nat_eq (code ch) sep then "" ∷ rest else prepend ch rest

-- `parts.join(separator)`
unfoldable pub join : String → List String → String
join sep [] = ""
join sep (part ∷ []) = part
join sep (part ∷ next ∷ parts) = part +++ sep +++ join sep (next ∷ parts)

-- `text.indexOf(c)` for one character, with what stands before and behind it
unfoldable pub cut : ℕ → String → Option (String × String)
cut c [] = none
cut c (ch ∷ text) =
    let rest = cut c text in
    if nat_eq (code ch) c
    then some ("", text)
    else elim rest [ none ↦ none | some (before, behind) ↦ some (ch ∷ before, behind) ]

unfoldable pub starts_with : String → String → Bool
starts_with text [] = true
starts_with [] (c ∷ prefix) = false
starts_with (d ∷ text) (c ∷ prefix) = nat_eq (code d) (code c) && starts_with text prefix

-- The text has the character.
unfoldable pub has_char : ℕ → String → Bool
has_char c [] = false
has_char c (d ∷ text) = let rest = has_char c text in if nat_eq (code d) c then true else rest
