-- ===== src/Rtd/Segment/Laws.antt =====
-- Printing a path and reading it back.
use Prim.Native.String.{[], ◌∷◌}
use text.Mathlib.TextLemmas.{nil-append, cons-append, append-nil}
use kookaburra.Prelude.{String, ◌≡◌, ◌≢◌, refl, ap, List, [], ◌∷◌, arith, All, eq_iff, ◌∙◌, ◌++◌}
use kookaburra.Text.{◌+++◌, split_on}
use kookaburra.Text.Laws.{Lacks, split_on-append, split_on-Lacks}
use kookaburra.Rtd.Segment.{drop_trailing, fragment}

-- The path that names the parts, each behind a slash, with or without a slash at its end.
abbrev pub path_of : List String → String → String
path_of [] end = end
path_of (part ∷ parts) end = "/" +++ (part +++ path_of parts end)

-- A part of a path: not empty and without a slash.
abbrev pub IsPart : String → Type 0
IsPart part = (part ≢ "") × Lacks b'/' part

slash_first : (text : String) → split_on b'/' ("/" +++ text) ≡ "" ∷ split_on b'/' text
unfolding split_on
slash_first text = rw (cons-append, nil-append) refl

split_on-path_of :
    (part : String) (parts : List String)
    → Lacks b'/' part
    → All IsPart parts
    → split_on b'/' (part +++ path_of parts "/") ≡ part ∷ (parts ++ "" ∷ [])
split_on-path_of part [] l h = split_on-append b'/' part "" _ l refl ∙ unfold split_on in refl
split_on-path_of part (next ∷ parts) l ((p, k), h) =
    rw (cons-append, nil-append)
      (split_on-append b'/' part _ _ l refl ∙ ap (λ r. part ∷ r) (split_on-path_of next parts k h))

split_on-path_of_open :
    (part : String) (parts : List String)
    → Lacks b'/' part
    → All IsPart parts
    → split_on b'/' (part +++ path_of parts "") ≡ part ∷ parts
split_on-path_of_open part [] l h = rw append-nil (split_on-Lacks b'/' part l)
split_on-path_of_open part (next ∷ parts) l ((p, k), h) =
    rw (cons-append, nil-append)
      (split_on-append b'/' part _ _ l refl
        ∙ ap (λ r. part ∷ r) (split_on-path_of_open next parts k h))

drop_trailing-concat :
    (part : String) (parts : List String) → drop_trailing (part ∷ (parts ++ "" ∷ [])) ≡ part ∷ parts
unfolding drop_trailing
drop_trailing-concat part [] = refl
drop_trailing-concat part (next ∷ parts) = ap (λ r. part ∷ r) (drop_trailing-concat next parts)

drop_trailing-full :
    (part : String) (parts : List String)
    → part ≢ ""
    → All IsPart parts
    → drop_trailing (part ∷ parts) ≡ part ∷ parts
unfolding drop_trailing
drop_trailing-full part [] n h = ground (arith, eq_iff part "")
drop_trailing-full part (next ∷ parts) n (p, h) =
    ap (λ r. part ∷ r) (drop_trailing-full next parts p.0 h)

closed_path : (parts : List String) → All IsPart parts → fragment (path_of parts "/") ≡ parts
unfolding fragment
closed_path parts h =
    rw
      (
        ← nil-append (path_of parts "/"),
        split_on-path_of "" parts tt h,
        drop_trailing-concat "" parts,
      )
      refl

open_path : (parts : List String) → All IsPart parts → fragment (path_of parts "") ≡ parts
unfolding fragment drop_trailing split_on
open_path [] h = refl
open_path (part ∷ parts) (p, h) =
    rw
      (
        ← nil-append (path_of (part ∷ parts) ""),
        split_on-path_of_open "" (part ∷ parts) tt (p, h),
        drop_trailing-full part parts p.0 h,
      )
      refl

-- A path printed from parts that are not empty and hold no slash is split into those parts,
-- whether or not it ends with a slash.
pub fragment-path_of :
    (parts : List String)
    → All IsPart parts
    → (fragment (path_of parts "/") ≡ parts) × (fragment (path_of parts "") ≡ parts)
fragment-path_of parts h = (closed_path parts h, open_path parts h)
