-- ===== src/Rtd/Parse/Mapping.antt =====
-- extensions/exposition/source/RTD/syntax/parse.ts: directives, and the mapping of a method.
use Prim.Native.Char.{code}
use kookaburra.Prelude.{
  ℕ, zero, suc, not, String, Bool, true, false, ◌&&◌, ◌||◌, Option, none, some, List, [], ◌∷◌, ◌==◌,
  if◌then◌else◌, leb, nat_eq, is_some, or_else,
}
use kookaburra.Result.{Result, ok, err, ◌>>=◌, fault}
use kookaburra.Text.{split_on}
use kookaburra.Dict.{lookup}
use kookaburra.Rtd.Factory.{Directive, SyntaxMethod}
use kookaburra.Untyped.{
  Json, number, text, array, object, no_items, item, Members, no_members, member, member_at,
}

-- `mapping[key] = value`
unfoldable pub set_member : String → Json → Members → Members
set_member key value no_members = member key value no_members
set_member key value (member k v rest) =
    let later = set_member key value rest in
    if k == key then member key value rest else member k v later

abbrev pub verbs : List String
verbs = "GET" ∷ "HEAD" ∷ "POST" ∷ "PUT" ∷ "PATCH" ∷ "DELETE" ∷ "LOCK" ∷ "UNLOCK" ∷ []

-- `\w`
abbrev pub is_word : ℕ → Bool
is_word c =
    (leb b'0' c && leb c b'9')
    || (leb b'A' c && leb c b'Z')
    || (leb b'a' c && leb c b'z')
    || nat_eq c b'_'

-- `^\w{1,n}$`, given that there was a character before
unfoldable pub word_within : ℕ → String → Bool
word_within n String.[] = true
word_within zero (String.◌∷◌ c rest) = false
word_within (suc n) (String.◌∷◌ c rest) = is_word (code c) && word_within n rest

abbrev pub is_name : String → Bool
is_name name = word_within 32 name && not (name == "")

-- `parseDirective`
unfoldable pub parse_directive : List (String × String) → String → Json → Option (Directive Json)
unfolding lookup split_on word_within
parse_directive shortcuts key value = elim (split_on b':' (or_else (lookup key shortcuts) key)) [
  | family ∷ name ∷ [] ↦
      if is_name family && is_name name
      then some (record { family = family; name = name; value = value })
      else none
  | _ ↦ none
]

-- `parseDirectives`: the directives among the properties of a mapping, and the other properties
unfoldable pub parse_directives : List (String × String) → Members → List (Directive Json) × Members
unfolding parse_directive
parse_directives shortcuts no_members = ([], no_members)
parse_directives shortcuts (member key value rest) =
    let (directives, others) = parse_directives shortcuts rest in
    elim (parse_directive shortcuts key value) [
      | none ↦ (directives, member key value others)
      | some directive ↦ (directive ∷ directives, others)
    ]

-- `mapping.endpoint.split('.').reverse()`, its first three parts
abbrev pub last_parts : List String → List String → List String
last_parts seen [] = seen
last_parts seen (part ∷ parts) = last_parts (part ∷ seen) parts

unfoldable pub place_endpoint : List String → Members → Members
unfolding set_member member_at
place_endpoint (endpoint ∷ component ∷ []) mapping = set_member "endpoint" (text endpoint) (
    set_member "namespace" (or_else (member_at "namespace" mapping) (text "default"))
      (set_member "component" (text component) mapping))
place_endpoint (endpoint ∷ component ∷ namespace ∷ _) mapping =
    set_member "endpoint" (text endpoint)
      (set_member "namespace" (text namespace) (set_member "component" (text component) mapping))
place_endpoint _ mapping = mapping

-- `parseEndpoint`
unfoldable pub parse_endpoint : Members → Result Members
unfolding place_endpoint split_on
parse_endpoint mapping = elim (member_at "endpoint" mapping) [
  | none ↦ ok mapping
  | some (text endpoint) ↦ ok (place_endpoint (last_parts [] (split_on b'.' endpoint)) mapping)
  | some _ ↦ err (fault "mapping.endpoint.split is not a function")
]

-- `expandRange`
abbrev pub expand_range : ℕ → Json
expand_range n = object (
    member "value" (number n)
      (member "range" (array (item (number n) (item (number n) no_items))) no_members))

-- `if (typeof query.limit === 'number') …`, and so for `omit`
unfoldable pub expand_at : String → Members → Members
unfolding set_member member_at
expand_at key query = elim (member_at key query) [
  | some (number n) ↦ set_member key (expand_range n) query
  | _ ↦ query
]

-- `parseQuery`; a query that is no object has no properties.
unfoldable pub parse_query_part : Members → Members
unfolding expand_at
parse_query_part mapping = elim (member_at "query" mapping) [
  | some (object query) ↦
      set_member "query" (object (expand_at "omit" (expand_at "limit" query))) mapping
  | _ ↦ mapping
]

-- `typeof value === 'string' ? { endpoint: value } : value`; the schema of a mapping refuses others.
abbrev pub mapping_of : Json → Result Members
mapping_of (text endpoint) = ok (member "endpoint" (text endpoint) no_members)
mapping_of (object mapping) = ok mapping
mapping_of _ = err (fault "must be object")

-- `parseMethod`
unfoldable pub parse_method :
    List (String × String) → String → Json → Result (SyntaxMethod Json Members)
unfolding parse_endpoint parse_query_part parse_directives
parse_method shortcuts verb value = do
  given ← mapping_of value
  mapping ← parse_endpoint given
  let (directives, others) = parse_directives shortcuts (parse_query_part mapping)
  ok (record {
    verb = verb;
    has_endpoint = is_some (member_at "endpoint" others);
    mapping = some others;
    directives = directives;
  })
