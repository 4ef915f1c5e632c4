-- ===== src/Auth/Role.antt =====
-- directives/auth/Role.ts: matching the roles of an identity against those that a method wants.
use Prim.Native.Char.{code}
use Prim.Native.String.{[], ◌∷◌}
use mathlib.Core.Path.{subst}
use text.Mathlib.TextLemmas.{cons-append}
use kookaburra.Prelude.{
  ℕ, String, Bool, true, not, ◌&&◌, ◌||◌, Option, none, some, List, [], ◌∷◌, ◌==◌, if◌then◌else◌,
  any, leb, nat_eq, ◌≡◌, refl, arith, eq_iff, inl, inr, Bool-cases, sym, ◌↔◌, Any,
}
use kookaburra.Result.{Result, ok, err, fault, ◌>>=◌}
use kookaburra.Text.{◌+++◌, starts_with, has_char}
use kookaburra.Rtd.Node.{Params}
use kookaburra.Gateway.{value_of}

-- `expected === role || expected.startsWith(role + ':')`
unfoldable pub covers : String → String → Bool
unfolding starts_with
covers role expected = (expected == role) || starts_with expected (role +++ ":")

-- The loop of `Role.match`
unfoldable pub matches : List String → List String → Bool
unfolding covers
matches roles required = any (λ role. any (covers role) required) roles

abbrev pub is_word : ℕ → Bool
is_word c =
    (leb b'0' c && leb c b'9')
    || (leb b'A' c && leb c b'Z')
    || (leb b'a' c && leb c b'z')
    || nat_eq c b'_'

abbrev pub put_before : String → Result String → Result String
put_before front (ok text) = ok (front +++ text)
put_before front (err failure) = err failure

-- The value that `{key}` stands for, before the rest of the role
unfoldable pub replace_key : Params → String → Result String → Result String
unfolding value_of
replace_key params key rest = elim (value_of key params) [
  | none ↦ err (fault ("Role requires '" +++ key +++ "' route parameter"))
  | some value ↦ put_before value rest
]

-- `role.replaceAll(/{(\w+)}/g, …)`; the first argument after the parameters is what has been read
-- behind an open brace.
unfoldable pub substitute : Params → Option String → String → Result String
unfolding replace_key
substitute params none [] = ok ""
substitute params (some key) [] = ok ("{" +++ key)
substitute params none (c ∷ text) =
    let opened = substitute params (some "") text in
    let plain = put_before (c ∷ "") (substitute params none text) in
    if nat_eq (code c) b'{' then opened else plain
substitute params (some key) (c ∷ text) =
    let opened = put_before ("{" +++ key) (substitute params (some "") text) in
    let longer = substitute params (some (key +++ (c ∷ ""))) text in
    let closed = replace_key params key (substitute params none text) in
    let plain = put_before ("{" +++ key +++ (c ∷ "")) (substitute params none text) in
    if nat_eq (code c) b'{'
    then opened
    else if is_word (code c)
    then longer
    else if nat_eq (code c) b'}' && not (key == "")
    then closed
    else plain

unfoldable pub substitute_all : Params → List String → Result (List String)
unfolding substitute
substitute_all params [] = ok []
substitute_all params (role ∷ roles) = do
  value ← substitute params none role
  rest ← substitute_all params roles
  ok (value ∷ rest)

-- `Role.match` with the roles that the directive declares: those with a brace are substituted.
unfoldable pub match_roles : List String → List String → Params → Result Bool
unfolding substitute_all matches
match_roles declared roles params =
    if any (has_char b'{') declared
    then (do required ← substitute_all params declared; ok (matches roles required))
    else ok (matches roles declared)

starts_with_refl : (text more : String) → starts_with (text +++ more) text ≡ true
unfolding starts_with
starts_with_refl [] more = refl
starts_with_refl (c ∷ text) more = rw cons-append (ground (arith, starts_with_refl text more))

starts_with_trans :
    (a b c : String) → starts_with b a ≡ true → starts_with c b ≡ true → starts_with c a ≡ true
unfolding starts_with
starts_with_trans [] b c h k = refl
starts_with_trans (x ∷ a) [] c h k = cc
starts_with_trans (x ∷ a) (y ∷ b) [] h k = cc
starts_with_trans (x ∷ a) (y ∷ b) (z ∷ c) h k = ground (arith, starts_with_trans a b c)

starts_with-front :
    (role text : String) → starts_with text (role +++ ":") ≡ true → starts_with text role ≡ true
unfolding starts_with
starts_with-front [] text h = refl
starts_with-front (x ∷ role) [] h = cc (rw cons-append at h)
starts_with-front (x ∷ role) (y ∷ text) h =
    let h' = rw cons-append at h in ground (arith, starts_with-front role text)

-- Scopes nest: a role that covers another covers all that the other covers.
pub covers_trans : (a b c : String) → covers a b ≡ true → covers b c ≡ true → covers a c ≡ true
unfolding covers
covers_trans a b c h k = elim (Bool-cases (b == a)) [
  | inl same ↦ subst (λ r. ((c == r) || starts_with c (r +++ ":")) ≡ true) ((eq_iff b a).0 same) k
  | inr below ↦ elim (Bool-cases (c == b)) [
    | inl same' ↦
        subst (λ r. ((r == a) || starts_with r (a +++ ":")) ≡ true) (sym ((eq_iff c b).0 same')) h
    | inr below' ↦ ground (arith, starts_with_trans (a +++ ":") b c, starts_with-front b c)
  ]
]

any_iff : {A : Type 0} (p : A → Bool) (xs : List A) → (any p xs ≡ true) ↔ Any (λ x. p x ≡ true) xs
any_iff p [] = (λ e. cc, λ e. absurd e)
any_iff p (x ∷ xs) =
    let (to, from) = any_iff p xs in
    (
      λ e. elim (Bool-cases (p x)) [
        | inl here ↦ inl here
        | inr not_here ↦ inr (to (rw not_here at e))
      ],
      λ e. elim e [ inl here ↦ rw here refl | inr later ↦ ground (arith, from later) ],
    )

-- The roles match exactly when one of them covers one of those wanted.
pub matches_iff :
    (roles required : List String)
    → (matches roles required ≡ true)
      ↔ Any (λ role. Any (λ expected. covers role expected ≡ true) required) roles
unfolding matches
matches_iff [] required = (λ e. cc, λ e. absurd e)
matches_iff (role ∷ roles) required =
    let (to, from) = matches_iff roles required in
    let (here_to, here_from) = any_iff (covers role) required in
    (
      λ e. elim (Bool-cases (any (covers role) required)) [
        | inl here ↦ inl (here_to here)
        | inr not_here ↦ inr (to (rw not_here at e))
      ],
      λ e. elim e [ inl here ↦ rw (here_from here) refl | inr later ↦ ground (arith, from later) ],
    )
