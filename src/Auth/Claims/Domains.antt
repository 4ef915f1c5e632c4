-- ===== src/Auth/Claims/Domains.antt =====
-- Which identities the claims of a directive let pass, and which domains are one.
use Prim.Native.Char.{Char, code}
use Prim.Native.String.{[], ◌∷◌}
use text.Mathlib.TextLemmas.{nil-append, cons-append}
use kookaburra.Prelude.{
  String, true, false, Option, some, ◌==◌, ◌≡◌, refl, arith, eq_refl, eq_iff, Bool-cases, inl, inr,
}
use kookaburra.Result.{Result, ok}
use kookaburra.Text.{◌+++◌}
use kookaburra.Text.Laws.{Lacks}
use kookaburra.Auth.Claims.{ends_with, from_dot, basename, codomain}

ends_with-same : (text : String) → ends_with text text ≡ true
unfolding ends_with
ends_with-same [] = refl
ends_with-same (c ∷ text) = ground (arith, eq_refl (c ∷ text))

ends_with-append : (front suffix : String) → ends_with (front +++ suffix) suffix ≡ true
unfolding ends_with
ends_with-append [] suffix = rw nil-append (ends_with-same suffix)
ends_with-append (c ∷ front) suffix = rw cons-append (ground (arith, ends_with-append front suffix))

from_dot-append :
    (name top : String) (dot : Char)
    → Lacks b'.' name
    → code dot ≡ b'.'
    → from_dot (name +++ (dot ∷ top)) ≡ some (dot ∷ top)
unfolding from_dot
from_dot-append [] top dot h e = rw nil-append (ground (arith, e))
from_dot-append (c ∷ name) top dot (p, h) e =
    rw cons-append (ground (arith, from_dot-append name top dot h e))

not_empty : (c : Char) (text : String) → ((c ∷ text) == "") ≡ false
not_empty c text = elim (Bool-cases ((c ∷ text) == "")) [
  | inl same ↦ let equal : (c ∷ text) ≡ "" = ground (arith, eq_iff (c ∷ text) "", same) in cc
  | inr apart ↦ apart
]

-- A flaw: hosts with one name before the first dot are of one domain. An issuer at `name.top` is
-- taken for one of the domain of every authority `other.top`, also where `top` is a public suffix.
pub codomain_siblings :
    (hostname_of : Option String → Result String) (iss name other top : String) (dot : Char)
    → Lacks b'.' name
    → code dot ≡ b'.'
    → hostname_of (some iss) ≡ ok (name +++ (dot ∷ top))
    → codomain hostname_of (other +++ (dot ∷ top)) (some iss) ≡ ok true
unfolding codomain basename
codomain_siblings hostname_of iss name other top dot h d e =
    rw (e, from_dot-append name top dot h d, ends_with-append other (dot ∷ top), not_empty dot top)
      refl
