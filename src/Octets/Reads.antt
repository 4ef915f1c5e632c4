-- ===== src/Octets/Reads.antt =====
-- extensions/exposition/source/directives/octets/Get.ts: reading an entry or its metadata. The
-- component octets.storage is called as Octets/Component has it, or as any other.
use kookaburra.Prelude.{
  ℕ, String, Bool, false, Option, none, some, [], if◌then◌else◌, is_some, ◌==◌,
}
use kookaburra.Result.{not_found, forbidden}
use kookaburra.Dict.{lookup}
use kookaburra.Runtime.Eff.{Eff, ◌>>=◌, give, throw}
use kookaburra.Storages.{Metadata, Maybe, got, refused, Stream}
use kookaburra.Octets.Actions.{Input, Operations, metadata, bytes, Output, headers_of, plain}

abbrev is_entry : Option String → Bool
is_entry none = false
is_entry (some subtype) = subtype == "octets.entry"

module _ {W V : Type 0} (operations : Operations W) (print : ℕ → String) where
  abbrev pub streamed_output : Maybe Stream → Eff W (Output W V)
  streamed_output (refused refusal) = throw (not_found "")
  streamed_output (got stream) = give (record {
    status = none;
    headers = headers_of print stream.metadata;
    body = some (bytes stream.bytes);
  })

  abbrev pub bare_output : Maybe Metadata → Eff W (Output W V)
  bare_output (refused refusal) = throw (not_found "")
  bare_output (got m) = give (record { status = none; headers = headers_of print m; body = none })

  abbrev pub metadata_output : Maybe Metadata → Eff W (Output W V)
  metadata_output (refused refusal) = throw (not_found "")
  metadata_output (got m) = give (plain (metadata m))

  -- `Get.get`
  unfoldable pub get_content : String → Input → Eff W (Output W V)
  get_content storage input =
      if is_some (lookup "if-none-match" input.headers)
      then give (record { status = some 304; headers = []; body = none })
      else if input.method == "GET"
      then (operations.get storage input.url >>= streamed_output)
      else (operations.head storage input.url >>= bare_output)

  -- `Get.apply`, for the option `meta`
  unfoldable pub apply_get : Bool → String → Input → Eff W (Output W V)
  unfolding get_content
  apply_get with_meta storage input =
      if is_entry input.subtype
      then (if with_meta
          then (operations.head storage input.url >>= metadata_output)
          else throw (forbidden "Metadata is not accessible"))
      else get_content storage input
