-- ===== src/Octets/Component.antt =====
-- extensions/exposition/components/octets.storage/operations/{get,head,put,delete}.js: the component
-- that the actions call, over the storages of a context. Parsing of numbers and URLs, resolving of
-- paths, trimming, and downloads are parameters.
use Prim.Native.Char.{code}
use Prim.Native.String.{[], ◌∷◌, count}
use kookaburra.Prelude.{
  ℕ, String, Bool, true, false, not, ◌&&◌, ◌||◌, Option, none, some, List, [], ◌∷◌, if◌then◌else◌,
  nat_eq, leb, ◌==◌, or_else, ◌⊎◌, inl, inr,
}
use kookaburra.Result.{fault}
use kookaburra.Text.{split_on, cut}
use kookaburra.Dict.{lookup, insert}
use kookaburra.Runtime.Eff.{Eff, ◌>>=◌, give, throw}
use kookaburra.Storages.{Metadata, Maybe, got, refused, Refusal, Options, Stream}

-- An error of `put`: one of its own, or the storage's
pub data PutError : Type 0 where
  invalid_id wrong_length untrusted unavailable : PutError
  of_storage : Refusal → PutError

pub data Stored : Type 0 where
  entry : Metadata → Stored
  error : PutError → Stored

-- An element of `trust`: an origin, or a regular expression
pub data Permission : Type 0 where
  exactly : String → Permission
  like : (String → Bool) → Permission

-- `content-attributes` may come as one text or as several.
pub data Header : Type 0 where
  single : String → Header
  several : List String → Header

-- The fields of the input that `put` reads; `location` and `limit` are the directive's.
pub record PutInput : Type 0 where
  pub storage : String
  pub url : String
  pub headers : List (String × String)
  pub body : List (List ℕ)
  pub location : Option String
  pub accept : Option String
  pub limit : Option ℕ
  pub trust : Option (List Permission)

-- A storage of the context, by its methods
pub record Storage (W : Type 0) : Type 0 where
  pub put : String → List (List ℕ) → Options → Eff W (Maybe Metadata)
  pub get : String → Eff W (Maybe Stream)
  pub head : String → Eff W (Maybe Metadata)
  pub delete : String → Eff W Unit

abbrev pub stored_of : Maybe Metadata → Stored
stored_of (got metadata) = entry metadata
stored_of (refused refusal) = error (of_storage refusal)

abbrev pub single_header : Option String → Option Header
single_header none = none
single_header (some value) = some (single value)

-- Libraries, and the download of content
pub record Services (W : Type 0) : Type 0 where
  pub trim : String → String
  pub parse_int : Option String → Option ℕ
  pub origin_of : String → Option String
  pub resolve : String → String → String
  pub fetch : String → Eff W (Option (List (List ℕ)))

-- `[a-zA-Z0-9-_]`
unfoldable pub is_id_char : ℕ → Bool
is_id_char c =
    (leb b'a' c && leb c b'z')
    || (leb b'A' c && leb c b'Z')
    || (leb b'0' c && leb c b'9')
    || nat_eq c b'-'
    || nat_eq c b'_'

unfoldable pub has_id_chars : String → Bool
unfolding is_id_char
has_id_chars [] = true
has_id_chars (c ∷ text) = is_id_char (code c) && has_id_chars text

-- `ID_RX`
unfoldable pub is_id : String → Bool
unfolding has_id_chars
is_id text = leb 1 (count text) && leb (count text) 32 && has_id_chars text

module _ {W : Type 0} (services : Services W) where
  -- The loop of `parseAttributes`
  unfoldable pub parse_pairs : List (String × String) → List String → List (String × String)
  parse_pairs attributes [] = attributes
  parse_pairs attributes (pair ∷ pairs) = elim (cut b'=' pair) [
    | none ↦ parse_pairs (insert (services.trim pair) "true" attributes) pairs
    | some parts ↦
        parse_pairs (insert (services.trim parts.0) (services.trim parts.1) attributes) pairs
  ]

  -- `parseAttributes`
  unfoldable pub parse_attributes : Option Header → List (String × String)
  unfolding parse_pairs
  parse_attributes none = []
  parse_attributes (some (single values)) = parse_pairs [] (split_on b',' values)
  parse_attributes (some (several values)) = parse_pairs [] values

  unfoldable pub permits : String → List Permission → Bool
  permits origin [] = false
  permits origin (exactly other ∷ permissions) = (origin == other) || permits origin permissions
  permits origin (like test ∷ permissions) = test origin || permits origin permissions

  -- `trusted`
  unfoldable pub trusted : String → Option (List Permission) → Bool
  unfolding permits
  trusted location none = false
  trusted location (some permissions) = elim (services.origin_of location) [
    | none ↦ false
    | some origin ↦ permits origin permissions
  ]

  -- `if (id !== undefined)`
  unfoldable pub check_id : Option String → PutError → Option PutError
  check_id none refusal = none
  check_id (some id) refusal = if is_id id then none else some refusal

  -- The guards on a reference
  unfoldable pub check_reference : PutInput → String → Option PutError
  unfolding trusted
  check_reference input reference =
      elim (services.parse_int (lookup "content-length" input.headers)) [
        | none ↦ some wrong_length
        | some length ↦
            if not (nat_eq length 0)
            then some wrong_length
            else if trusted reference input.trust
            then none
            else some untrusted
      ]

  -- `download`, behind the fetch
  unfoldable pub fetched :
      String → Option (List (List ℕ)) → PutError ⊎ (List (List ℕ) × Option String)
  fetched reference none = inl unavailable
  fetched reference (some body) = inr (body, some reference)

  -- `if (reference !== undefined)`: the body, and its origin
  unfoldable pub source_of :
      PutInput → Option String → Eff W (PutError ⊎ (List (List ℕ) × Option String))
  unfolding check_reference fetched
  source_of input none = give (inr (input.body, none))
  source_of input (some reference) = elim (check_reference input reference) [
    | some refusal ↦ give (inl refusal)
    | none ↦ services.fetch reference >>= λ content. give (fetched reference content)
  ]

  -- `options`
  unfoldable pub options_of : PutInput → Option String → Options
  unfolding parse_attributes
  options_of input origin = record {
    id = lookup "content-id" input.headers;
    origin = origin;
    attributes =
        some (parse_attributes (single_header (lookup "content-attributes" input.headers)));
    claim = lookup "content-type" input.headers;
    accept = input.accept;
    limit = input.limit;
  }

  module _ (storages : String → Option (Storage W)) where
    -- `context.storages[input.storage]`
    unfoldable pub storage_at : {A : Type 0} → String → (Storage W → Eff W A) → Eff W A
    storage_at name use_storage = elim (storages name) [
      | none ↦ throw (fault "Cannot read properties of undefined")
      | some storage ↦ use_storage storage
    ]

    -- `put`, from the source of the content on
    unfoldable pub store : PutInput → PutError ⊎ (List (List ℕ) × Option String) → Eff W Stored
    unfolding storage_at options_of
    store input (inl refusal) = give (error refusal)
    store input (inr (body, origin)) =
        storage_at input.storage (λ storage.
          storage.put (services.resolve input.url (or_else input.location ".")) body
            (options_of input origin))
        >>= λ result. give (stored_of result)

    -- `put` of put.js
    unfoldable pub put : PutInput → Eff W Stored
    unfolding check_id source_of store
    put input = elim (check_id (lookup "content-id" input.headers) invalid_id) [
      | some refusal ↦ give (error refusal)
      | none ↦ source_of input (lookup "content-location" input.headers) >>= store input
    ]

    -- get.js, head.js and delete.js, of a storage and a path
    unfoldable pub get : String → String → Eff W (Maybe Stream)
    unfolding storage_at
    get name path = storage_at name (λ storage. storage.get path)

    unfoldable pub head : String → String → Eff W (Maybe Metadata)
    unfolding storage_at
    head name path = storage_at name (λ storage. storage.head path)

    unfoldable pub delete : String → String → Eff W Unit
    unfolding storage_at
    delete name path = storage_at name (λ storage. storage.delete path)
