-- ===== src/Octets/Stored.antt =====
-- What is put through the gateway and what is got back: the actions over the component, the component
-- over a storage, and the storage over the file system.
use kookaburra.Prelude.{
  ℕ, String, Bool, Option, none, some, List, [], ◌∷◌, or_else, ◌≡◌, refl, sym, ap, ◌∙◌,
}
use kookaburra.Result.{ok, ok-injective}
use kookaburra.Dict.{lookup}
use kookaburra.Runtime.Eff.{after, after-eq-ok}
use kookaburra.Scanner.{Interruption}
use kookaburra.Scanner.Detects.{total}
use kookaburra.Storages.{Metadata, got, locate}
use kookaburra.Storages.FileSystem.{Content, Files, IsFiles, file_system}
use kookaburra.Storages.Kept.{put-get}
use kookaburra.Octets.Component.{
  PutInput, PutError, invalid_id, Stored, entry, error, Storage, Services, stored_of, check_id,
  source_of, options_of, storage_at, store,
}
use kookaburra.Octets.Component
use kookaburra.Octets.Entries.{component, storage_of, put-entry, storage_at-some}
use kookaburra.Octets.Workflow.{Context, Target, Answer, Report}
use kookaburra.Octets.Actions.{Input, Operations, metadata, bytes, Output, PutOptions, headers_of}
use kookaburra.Octets.Reads.{streamed_output, get_content, apply_get}
use kookaburra.Octets.Writes.{reply, put_output, apply_put}

module _ {W V : Type 0} (services : Services W) (storages : String → Option (Storage W))
    (answer : Target → Context → Answer V) (interleave : List (List (Report V)) → List (Report V))
    (joined : String → String → String) (print : ℕ → String) where
  abbrev operations : Operations W
  operations = component services storages

  -- What `apply_put` sends to the component
  abbrev request_of : PutOptions → String → Input → PutInput
  request_of options name input = record {
    storage = name;
    url = input.url;
    headers = input.headers;
    body = input.body;
    location = options.location;
    accept = options.accept;
    limit = some options.limit;
    trust = options.trust;
  }

  reply-body :
      (options : PutOptions) (name : String) (input : Input) (parameters : List (String × String))
      (m : Metadata)
      → options.workflow ≡ none
      → (reply operations answer interleave joined options name input parameters m).body
        ≡ some (metadata m)
  unfolding reply
  reply-body options name input parameters m plain = rw (plain, reply) refl

  put_output-ok :
      (options : PutOptions) (name : String) (input : Input) (parameters : List (String × String))
      (told : Stored) (out : Output W V) (v w : W)
      → options.workflow ≡ none
      → put_output operations answer interleave joined options name input parameters told v
        ≡ (ok out, w)
      → (m : Metadata) × (told ≡ entry m) × (out.body ≡ some (metadata m)) × (v ≡ w)
  unfolding put_output reply
  put_output-ok options name input parameters (entry m) out v w plain e = (
    m,
    refl,
    sym (ap (λ o. o.body) (ok-injective (ap (λ p. p.0) e)))
        ∙ reply-body options name input parameters m plain,
    ap (λ p. p.1) e,
  )
  put_output-ok options name input parameters (error refusal) out v w plain e = cc

  apply_get-found :
      (with_meta : Bool) (name : String) (storage : Storage W) (input : Input) (m : Metadata)
      (content : List ℕ) (w : W)
      → storages name ≡ some storage
      → input.subtype ≡ none
      → input.method ≡ "GET"
      → lookup "if-none-match" input.headers ≡ none
      → storage.get input.url w ≡ (ok (got (record { bytes = content; metadata = m })), w)
      → apply_get {V = V} operations print with_meta name input w ≡ (
        ok (record { status = none; headers = headers_of print m; body = some (bytes content) }),
        w,
      )
  unfolding apply_get get_content component Component.get
  apply_get-found with_meta name storage input m content w h whole get absent found =
      let read =
        storage_at-some services storages name storage (λ s. s.get input.url) w h ∙ found in
      rw (whole, absent, get) (ap (λ r. after r (streamed_output operations print)) read)

  module _ (acceptable : String → String → Bool) (digest : List ℕ → String)
      (basename : String → String) (join : List String → String) (dirname : String → String)
      (root : String) (files : Files W) (find : W → String → Option Content)
      (lawful : IsFiles find files) (generated now : String)
      (passed : List (List ℕ) → Option Interruption → List ℕ)
      (whole : (buffers : List (List ℕ)) → passed buffers none ≡ total buffers) where
    abbrev pub disk_storage : Storage W
    disk_storage =
        storage_of acceptable digest basename join (file_system join dirname root files) generated
          now passed

    -- What a request has put under a path is what a request gets from there: the response to the first
    -- has the entry, and that to the second its headers and all bytes of the body. The storage is over
    -- a file system that keeps what it documents; there is no workflow, no external content, and
    -- neither a subtype nor an `if-none-match` in the second request.
    pub apply_put-apply_get :
        (options : PutOptions) (with_meta : Bool) (name : String) (input reader : Input)
        (parameters : List (String × String)) (out : Output W V) (w w' : W)
        → storages name ≡ some disk_storage
        → options.workflow ≡ none
        → lookup "content-location" input.headers ≡ none
        → apply_put operations answer interleave joined options name input parameters w
          ≡ (ok out, w')
        → reader.subtype ≡ none
        → reader.method ≡ "GET"
        → lookup "if-none-match" reader.headers ≡ none
        → locate join (reader.url ∷ [])
          ≡ locate join (
              services.resolve input.url (or_else options.location ".")
              ∷ or_else (lookup "content-id" input.headers) generated
              ∷ [])
        → (m : Metadata) × (out.body ≡ some (metadata m))
          × (apply_get {V = V} operations print with_meta name reader w' ≡ (
            ok (record {
              status = none;
              headers = headers_of print m;
              body = some (bytes (total input.body));
            }),
            w',
          ))
    unfolding apply_put storage_of component options_of
    apply_put-apply_get options with_meta name input reader parameters out w w' h plain absent put
          subtype get unless at =
        let sent = request_of options name input in
        let (told, (v, stored, rest)) =
          after-eq-ok (Component.put services storages sent w)
            (put_output operations answer interleave joined options name input parameters) out w'
            put in
        let (m, same, body, end) =
          put_output-ok options name input parameters told out v w' plain rest in
        let done =
          put-entry services storages sent disk_storage m w w' h absent
            (stored ∙ (ap (λ t. (ok t, v)) same ∙ ap (λ u. (ok (entry m), u)) end)) in
        let kept =
          put-get acceptable digest basename join dirname root files find lawful generated now
            passed whole (services.resolve input.url (or_else options.location ".")) reader.url
            input.body (options_of services sent none) w w' m at done in
        (
          m,
          body,
          apply_get-found with_meta name disk_storage reader m (total input.body) w' h subtype get
              unless kept.1,
        )
