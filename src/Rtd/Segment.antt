-- ===== src/Rtd/Segment.antt =====
-- extensions/exposition/source/RTD/segment.ts: the fragments of a path and the segments of a
-- route. `fragment: null` is the constructor `variable`, with its placeholder.
pub mod Laws
use Prim.Native.Char.{code}
use Prim.Native.String.{[], ◌∷◌}
use kookaburra.Prelude.{
  String, Bool, Option, none, some, List, [], ◌∷◌, map, nat_eq, ◌==◌, if◌then◌else◌,
}
use kookaburra.Text.{split_on}

pub data Segment : Type 0 where
  literal : String → Segment
  variable : Option String → Segment

-- `if (parts[parts.length - 1] === '') parts.length--`
unfoldable pub drop_trailing : List String → List String
drop_trailing [] = []
drop_trailing (part ∷ []) = if part == "" then [] else part ∷ []
drop_trailing (part ∷ next ∷ parts) = part ∷ drop_trailing (next ∷ parts)

-- `parts.splice(1)`
abbrev pub splice_one : List String → List String
splice_one [] = []
splice_one (part ∷ parts) = parts

unfoldable pub fragment : String → List String
unfolding split_on drop_trailing
fragment path = splice_one (drop_trailing (split_on b'/' path))

unfoldable pub parse : String → Segment
parse [] = literal ""
parse (c ∷ name) =
    if nat_eq (code c) b':'
    then variable (some name)
    else if (c ∷ name) == "*"
    then variable none
    else literal (c ∷ name)

unfoldable pub segment : String → List Segment
unfolding fragment parse
segment path = map parse (fragment path)
