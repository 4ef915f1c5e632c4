-- ===== src/Cache.antt =====
-- extensions/exposition/source/directives/cache/{Control,Exact,Cache}.ts: the cache-control header.
-- Headers are texts by their names in lower case.
pub mod Laws
use Prim.Native.Char.{code}
use Prim.Native.String.{[], ◌∷◌}
use kookaburra.Prelude.{
  ℕ, String, Bool, true, false, not, ◌&&◌, ◌||◌, Option, none, some, List, [], ◌∷◌, if◌then◌else◌,
  or_else, includes,
}
use kookaburra.Result.{Result, ok, err, fault}
use kookaburra.Text.{◌+++◌, starts_with}
use kookaburra.Dict.{lookup, insert}
use kookaburra.Auth.Role.{is_word}

abbrev pub Headers : Type 0
Headers = List (String × String)

-- `headers.append(name, value)`
unfoldable pub append_header : String → String → Headers → Headers
append_header name value headers = elim (lookup name headers) [
  | none ↦ insert name value headers
  | some present ↦ insert name (present +++ ", " +++ value) headers
]

abbrev pub begins_word : String → Bool
begins_word [] = false
begins_word (c ∷ text) = is_word (code c)

-- `\bword\b` holds at the start of the text, whose words are taken off together.
unfoldable pub word_here : String → String → Bool
word_here [] text = not (begins_word text)
word_here (c ∷ word) [] = false
word_here (c ∷ word) (d ∷ text) = starts_with (d ∷ "") (c ∷ "") && word_here word text

-- The word stands in the text between word boundaries; `inside` says that a word character stands
-- before the text.
unfoldable pub occurs : String → Bool → String → Bool
unfolding word_here
occurs word inside [] = false
occurs word inside (c ∷ text) =
    (not inside && word_here word (c ∷ text)) || occurs word (is_word (code c)) text

-- The bits of `mask`: a directive in upper case is matched by the expression, and counts nothing.
pub record Mask : Type 0 where
  pub public : Bool
  pub private : Bool
  pub no_cache : Bool
  pub no_store : Bool

unfoldable pub mask : String → Mask
unfolding occurs
mask value = record {
  public = occurs "public" false value;
  private = occurs "private" false value;
  no_cache = occurs "no-cache" false value;
  no_store = occurs "no-store" false value;
}

-- `Control`, or `Exact`, which keeps its value as it is
pub record Control : Type 0 where
  pub exact : Bool
  pub value : String
  pub control : Option String
  pub vary : Bool

unfoldable pub new_control : Bool → String → Control
new_control exact value = record { exact = exact; value = value; control = none; vary = false }

-- `Control.disabled`
unfoldable pub disabled : Headers → Bool
disabled headers = elim (lookup "cache-control" headers) [
  | none ↦ false
  | some value ↦ (mask value).no_store
]

-- `resolve`: the header's value, and `vary` behind it
unfoldable pub resolve : Control → Bool → String × Bool
resolve c authenticated =
    if c.exact || not authenticated
    then (c.value, c.vary)
    else (let m = mask c.value in
        let vary = m.private || c.vary in
        if m.public && not m.no_cache
        then ("no-cache, " +++ c.value, vary)
        else if not m.public && not m.private
        then ("private, " +++ c.value, true)
        else (c.value, vary))

-- `this.control ??= this.resolve(context)`
unfoldable pub settle_control : Control → Bool → Control
unfolding resolve
settle_control c authenticated = elim c.control [
  | some text ↦ c
  | none ↦
      let (text, vary) = resolve c authenticated in record c { control = some text; vary = vary }
]

-- `Control.set`: `authenticated` is `request.identity !== null`.
unfoldable pub set : Control → String → Bool → Headers → Control × Headers
unfolding settle_control disabled append_header
set c verb authenticated headers =
    if not (includes ("GET" ∷ "HEAD" ∷ "OPTIONS" ∷ []) verb)
    then (c, headers)
    else (let settled = settle_control c authenticated in
        if disabled headers
        then (settled, headers)
        else (let written = insert "cache-control" (or_else settled.control "") headers in
            (
              settled,
              if settled.vary then append_header "vary" "authorization" written else written,
            )))

-- `Cache.settle`: the first directive sets the headers; without one, an identity makes them private.
unfoldable pub settle : List Control → String → Bool → Headers → List Control × Headers
unfolding set
settle [] verb authenticated headers = (
  [],
  if authenticated && not (disabled headers)
      then append_header "vary" "authorization" (insert "cache-control" "private" headers)
      else headers,
)
settle (c ∷ rest) verb authenticated headers =
    let (c', headers') = set c verb authenticated headers in (c' ∷ rest, headers')

-- `Cache.create`
unfoldable pub create : String → String → Result Control
create name value =
    if includes ("control" ∷ []) name
    then ok (new_control false value)
    else if includes ("exact" ∷ []) name
    then ok (new_control true value)
    else err (fault ("Directive 'cache:" +++ name +++ "' is not implemented"))
