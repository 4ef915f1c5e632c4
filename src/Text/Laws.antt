-- ===== src/Text/Laws.antt =====
-- Laws of the string methods.
use Prim.Native.Char.{Char, code}
use Prim.Native.String.{[], ◌∷◌}
use text.Mathlib.TextLemmas.{nil-append, cons-append}
use kookaburra.Prelude.{ℕ, String, ◌≡◌, ◌≢◌, refl, [], ◌∷◌, arith}
use kookaburra.Text.{◌+++◌, split_on}

-- No character of the text is `c`.
abbrev pub Lacks : ℕ → String → Type 0
Lacks c [] = Unit
Lacks c (ch ∷ text) = (code ch ≢ c) × Lacks c text

-- A text without the separator is its own first part.
pub split_on-append :
    (sep : ℕ) (part rest : String) (ch : Char)
    → Lacks sep part
    → code ch ≡ sep
    → split_on sep (part +++ (ch ∷ rest)) ≡ part ∷ split_on sep rest
unfolding split_on
split_on-append sep [] rest ch h e = rw nil-append (ground arith)
split_on-append sep (d ∷ part) rest ch (p, h) e =
    rw cons-append (ground (arith, split_on-append sep part rest ch h e))

pub split_on-Lacks : (sep : ℕ) (part : String) → Lacks sep part → split_on sep part ≡ part ∷ []
unfolding split_on
split_on-Lacks sep [] h = refl
split_on-Lacks sep (d ∷ part) (p, h) = ground (arith, split_on-Lacks sep part h)
