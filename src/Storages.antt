-- ===== src/Storages.antt =====
-- extensions/storages/source/Storage.ts over a provider (Provider.ts), with the entries of Entry.ts. The
-- joining of paths, digests, generated identifiers and dates are parameters.
pub mod FileSystem
pub mod Held
pub mod Endings
pub mod Kept
use kookaburra.Prelude.{
  ℕ, ◌≡◌, String, Bool, true, false, Option, none, some, List, [], ◌∷◌, or_else,
}
use kookaburra.Result.{Result, ok, err, Failure}
use kookaburra.Dict.{insert}
use kookaburra.Runtime.Eff.{Eff, after, ◌>>=◌, give, throw}
use kookaburra.Scanner.{
  Scanner, new_scanner, feed, Interruption, type_mismatch, not_acceptable, limit_exceeded,
}
use kookaburra.Scanner.Detects.{total}

-- `Metadata`, as it is stored: the storage gives it an identifier as well.
pub record Metadata : Type 0 where
  pub id : Option String
  pub kind : String
  pub size : ℕ
  pub checksum : String
  pub created : String
  pub attributes : List (String × String)

-- Errors as values: `ERR_NOT_FOUND`, those of the scanner, and others
pub data Refusal : Type 0 where
  missing : Refusal
  interrupted : Interruption → Refusal
  other : Failure → Refusal

-- `Maybe<T>`
pub data Maybe (A : Type 0) : Type 0 where
  got : A → Maybe A
  refused : Refusal → Maybe A

-- What a provider's `put` comes to: it returns nothing, or an error, or throws one.
pub data Written : Type 0 where
  complete : Written
  returned : Refusal → Written
  thrown : Refusal → Written

-- A stream behind the scanner: what passes, and the error that ends it
pub record Pipe : Type 0 where
  pub bytes : List ℕ
  pub error : Option Interruption

-- `Stream`
pub record Stream : Type 0 where
  pub bytes : List ℕ
  pub metadata : Metadata

-- `Provider`
pub record Provider (W : Type 0) : Type 0 where
  pub root : Option String
  pub get : String → Eff W (Maybe Stream)
  pub head : String → Eff W (Maybe Metadata)
  pub put : String → Pipe → W → Written × W
  pub commit : String → Metadata → Eff W Unit
  pub delete : String → Eff W Unit
  pub move : String → String → Eff W (Maybe Unit)

-- `Options`, with those of the scanner
pub record Options : Type 0 where
  pub id : Option String
  pub origin : Option String
  pub attributes : Option (List (String × String))
  pub claim : Option String
  pub accept : Option String
  pub limit : Option ℕ

-- One of the scanner's constant errors
abbrev pub same_interruption : Interruption → Interruption → Bool
same_interruption type_mismatch type_mismatch = true
same_interruption not_acceptable not_acceptable = true
same_interruption limit_exceeded limit_exceeded = true
same_interruption _ _ = false

-- `error === scanner.error`
abbrev pub is_interruption : Option Interruption → Refusal → Bool
is_interruption (some expected) (interrupted actual) = same_interruption actual expected
is_interruption _ _ = false

-- A thrown error that is no value
abbrev pub failure_of : Refusal → Failure
failure_of (other failure) = failure
failure_of missing = Failure.fault "NOT_FOUND"
failure_of (interrupted _) = Failure.fault "INTERRUPTED"

-- The error that `put` returns, or what it throws again
unfoldable pub error_of : Scanner → Written → Result (Option Refusal)
error_of scanner complete = ok none
error_of scanner (returned error) = ok (some error)
error_of scanner (thrown error) = elim (is_interruption scanner.error error) [
  | true ↦ ok (some error)
  | false ↦ err (failure_of error)
]

-- `metadata.attributes`
unfoldable pub attributes_of : Options → List (String × String)
attributes_of options =
    let given = or_else options.attributes [] in
    elim options.origin [ none ↦ given | some origin ↦ insert "origin" origin given ]

-- `{ id, ...metadata }`, for the identifier that a path ends with
unfoldable pub named : String → Maybe Metadata → Maybe Metadata
named id (refused error) = refused error
named id (got metadata) = got (record metadata { id = some (or_else metadata.id id) })

-- `locate`, with `ENTRIES`
unfoldable pub locate : (List String → String) → List String → String
locate join rel = join ("/" ∷ rel)

module _ (acceptable : String → String → Bool) (digest : List ℕ → String)
    (basename : String → String) (join : List String → String) where
  module _ {W : Type 0} (provider : Provider W) where
    -- The scanner at the end of the stream
    unfoldable pub scanned : List (List ℕ) → Options → Scanner
    scanned buffers options =
        feed acceptable buffers (new_scanner options.claim options.accept options.limit)

    unfoldable pub entry_of : String → String → List (List ℕ) → Options → Metadata
    entry_of id now buffers options = record {
      id = some id;
      kind = (scanned buffers options).kind;
      size = (scanned buffers options).size;
      checksum = digest (total buffers);
      created = now;
      attributes = attributes_of options;
    }

    -- `put` behind the writing of the stream
    unfoldable pub conclude : String → Metadata → Option Refusal → Eff W (Maybe Metadata)
    conclude location metadata (some error) = give (refused error)
    conclude location metadata none = provider.commit location metadata >>= λ _. give (got metadata)

    -- `put`, for a generated identifier, the date, and what the scanner passes of the stream
    unfoldable pub put :
        String
        → String
        → (List (List ℕ) → Option Interruption → List ℕ)
        → String
        → List (List ℕ)
        → Options
        → Eff W (Maybe Metadata)
    unfolding conclude
    put generated now passed path buffers options world =
        let scanner = scanned buffers options in
        let id = or_else options.id generated in
        let location = locate join (path ∷ id ∷ []) in
        let written =
          provider.put location
            (record { bytes = passed buffers scanner.raised; error = scanner.raised }) world in
        after (error_of scanner written.0, written.1)
          (conclude location (entry_of id now buffers options))

    -- `get`
    unfoldable pub get : String → Eff W (Maybe Stream)
    get path = provider.get (locate join (path ∷ []))

    -- `head`
    unfoldable pub head : String → Eff W (Maybe Metadata)
    unfolding named
    head path = provider.head (locate join (path ∷ [])) >>= λ metadata.
        give (named (basename path) metadata)

    -- `delete`
    unfoldable pub delete : String → Eff W Unit
    delete path = provider.delete (locate join (path ∷ []))

    -- `path`
    abbrev pub path_of : Option String
    path_of = provider.root
