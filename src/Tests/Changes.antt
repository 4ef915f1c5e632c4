-- ===== src/Tests/Changes.antt =====
-- A difference of two objects.
use kookaburra.Prelude.{some, ◌≡◌, refl}
use kookaburra.Result.{ok}
use kookaburra.Runtime.Difference.{
  number, text, nest, Members, no_members, member, put, within, Changes, no_changes, change,
  property, same_value, added, changed, differences, difference,
}
use kookaburra.Runtime.Difference.Tells.{change_at, Tells, Distinct}
use kookaburra.Runtime.Difference.Sound.{difference-Tells}

abbrev before : Members
before = member "a" (number 1) (member "b" (nest (member "c" (text "x") no_members)) no_members)

abbrev behind : Members
behind =
    member "a" (number 1)
      (member "b" (nest (member "c" (text "y") no_members)) (member "d" (number 2) no_members))

abbrev told : Changes
told =
    change "b" (within (change "c" (put (some (text "y"))) no_changes))
      (change "d" (put (some (number 2))) no_changes)

differs : difference before behind ≡ ok told
unfolding difference differences changed same_value added property
differs = refl

names_once : Distinct before
unfolding Distinct property
names_once = (refl, tt, (refl, (refl, tt, tt), tt))

difference-Tells_example : Tells (property "d" before) (property "d" behind) (change_at "d" told)
difference-Tells_example = difference-Tells before behind told names_once differs "d"
