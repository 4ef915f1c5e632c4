-- ===== src/Cache/Laws.antt =====
-- What the cache directives write.
use kookaburra.Prelude.{
  String, Bool, true, false, some, List, [], ◌∷◌, includes, ◌≡◌, refl, arith, Bool-cases,
  Option-cases, inl, inr, ◌∙◌,
}
use kookaburra.Text.{◌+++◌}
use kookaburra.Dict.{lookup, insert, lookup-insert}
use kookaburra.Cache.{
  Headers, append_header, mask, Control, new_control, disabled, settle_control, set, settle,
}

-- A response that must not be stored is left as it is, whatever the directives.
pub settle-no_store :
    (controls : List Control) (verb : String) (authenticated : Bool) (headers : Headers)
    → disabled headers ≡ true
    → (settle controls verb authenticated headers).1 ≡ headers
unfolding settle set
settle-no_store [] verb authenticated headers h = ground arith
settle-no_store (c ∷ rest) verb authenticated headers h = ground arith

lookup-append_vary :
    (value : String) (headers : Headers)
    → lookup "cache-control" (append_header "vary" value headers) ≡ lookup "cache-control" headers
unfolding append_header
lookup-append_vary value headers = elim (Option-cases (lookup "vary" headers)) [
  | inl absent ↦ rw (absent, append_header) (lookup-insert "vary" "cache-control" value headers)
  | inr (present, there) ↦
      rw (there, append_header)
        (lookup-insert "vary" "cache-control" (present +++ ", " +++ value) headers)
]

-- Where a control is written, the header is its value.
written :
    (c : Control) (verb : String) (authenticated : Bool) (headers : Headers) (text : String)
    → includes ("GET" ∷ "HEAD" ∷ "OPTIONS" ∷ []) verb ≡ true
    → disabled headers ≡ false
    → (settle_control c authenticated).control ≡ some text
    → (lookup "cache-control" (set c verb authenticated headers).1 ≡ some text)
      × ((set c verb authenticated headers).0 ≡ settle_control c authenticated)
unfolding set
written c verb authenticated headers text g h e =
    rw (g, h)
      (
        elim (Bool-cases (settle_control c authenticated).vary) [
          | inl varies ↦
              rw (varies, e)
                (lookup-append_vary "authorization" (insert "cache-control" text headers)
                  ∙ lookup-insert "cache-control" "cache-control" text headers)
          | inr fixed ↦ rw (fixed, e) (lookup-insert "cache-control" "cache-control" text headers)
        ],
        refl,
      )

abbrev pub MayWrite : String → Headers → Type 0
MayWrite verb headers =
    (includes ("GET" ∷ "HEAD" ∷ "OPTIONS" ∷ []) verb ≡ true) × (disabled headers ≡ false)

-- A text that is neither public nor private
abbrev pub IsNeutral : String → Type 0
IsNeutral value = ((mask value).public ≡ false) × ((mask value).private ≡ false)

neutral_control :
    (value : String)
    → IsNeutral value
    → settle_control (new_control false value) true
      ≡ record { exact = false; value = value; control = some ("private, " +++ value); vary = true }
unfolding settle_control new_control
neutral_control value (p, q) = rw (p, q) refl

-- For an identity, a directive that has not been used writes its value behind `private`, if the
-- value is neither public nor private, and from then on lets responses vary by authorization.
pub set-private :
    (value verb : String) (headers : Headers)
    → MayWrite verb headers
    → IsNeutral value
    → (lookup "cache-control" (set (new_control false value) verb true headers).1
        ≡ some ("private, " +++ value))
      × ((set (new_control false value) verb true headers).0.vary ≡ true)
set-private value verb headers (g, h) n =
    let (text, state) =
      written (new_control false value) verb true headers ("private, " +++ value) g h
        (rw (neutral_control value n) refl) in
    (text, rw (state, neutral_control value n) refl)

anonymous_control :
    (value : String)
    → settle_control (new_control false value) false
      ≡ record { exact = false; value = value; control = some value; vary = false }
unfolding settle_control new_control
anonymous_control value = refl

-- A flaw: the value is kept from the first request that is answered. If that one has no identity,
-- a later response to an identity gets the bare value, not marked private.
pub set-leaks :
    (value verb later_verb : String) (headers later_headers : Headers)
    → MayWrite verb headers
    → MayWrite later_verb later_headers
    → lookup "cache-control"
        (set (set (new_control false value) verb false headers).0 later_verb true later_headers).1
      ≡ some value
unfolding settle_control new_control
set-leaks value verb later_verb headers later_headers (g, h) (g', h') =
    let state = (written (new_control false value) verb false headers value g h refl).1 in
    rw (state, anonymous_control value)
      (written (record { exact = false; value = value; control = some value; vary = false })
        later_verb true later_headers value g' h' refl).0
