-- ===== src/Storages/Held.antt =====
-- What the files of an entry hold after each operation of the provider over the file system.
use Prim.Native.String.{count}
use text.Mathlib.TextLemmas.{append_inj, length-append}
use kookaburra.Prelude.{
  ℕ, ◌≡◌, ◌≢◌, refl, sym, ap, ◌∙◌, String, true, Option, none, some, List, arith, eq_iff, ◌==◌,
}
use kookaburra.Result.{Result, ok, err}
use kookaburra.Text.{◌+++◌}
use kookaburra.Runtime.Eff.{after}
use kookaburra.Storages.{Metadata, missing, got, refused, complete, Pipe}
use kookaburra.Storages.FileSystem.{
  Content, blob_of, text_of, Files, IsFiles, IsElsewhere, attempt, parse, contents_of, path_to,
  blob, meta, head, get, put, commit, delete, write_behind, with_stream, both,
}

abbrev blob_suffix : String
blob_suffix = ".blob"

abbrev meta_suffix : String
meta_suffix = ".meta"

blob≢meta_suffix : (a b : String) → a +++ blob_suffix ≢ b +++ meta_suffix
blob≢meta_suffix a b e =
    let counted : count a ≡ count b =
      omega (arith, length-append a blob_suffix, length-append b meta_suffix, ap count e) in
    let told : (blob_suffix == meta_suffix) ≡ true =
      (eq_iff blob_suffix meta_suffix).1 (append_inj e counted).1 in
    cc told

both-ok : (a b : Result Unit) → both a b ≡ ok tt → b ≡ ok tt
both-ok (ok _) b h = h
both-ok (err failure) b h = cc

module _ (join : List String → String) (dirname : String → String) (root : String) where
  pub meta≢blob : (a b : String) → meta join dirname root a ≢ blob join dirname root b
  unfolding meta blob path_to
  meta≢blob a b e = blob≢meta_suffix _ _ (sym e)

  module _ {W : Type 0} (files : Files W) (find : W → String → Option Content)
      (lawful : IsFiles find files) where
    pub head_lem :
        (rel : String) (w : W)
        → head join dirname root files rel w
          ≡ attempt (parse (contents_of (find w (meta join dirname root rel))), w)
    unfolding head
    head_lem rel w =
        ap (λ c. attempt (parse c.0, c.1)) (lawful.reads (meta join dirname root rel) w)

    behind-complete :
        (made : Result Unit × W) (path : String) (pipe : Pipe)
        → (write_behind join dirname root files made path pipe).0 ≡ complete
        → (pipe.error ≡ none)
          × (find (write_behind join dirname root files made path pipe).1 path
              ≡ some (blob_of pipe.bytes))
    unfolding write_behind
    behind-complete (ok _, w) path pipe h = lawful.streams path pipe w h
    behind-complete (err failure, w) path pipe h = cc

    behind-IsElsewhere :
        (made : Result Unit × W) (path : String) (pipe : Pipe)
        → IsElsewhere find path made.1 (write_behind join dirname root files made path pipe).1
    unfolding write_behind
    behind-IsElsewhere (ok _, w) path pipe = lawful.streams_elsewhere path pipe w
    behind-IsElsewhere (err failure, w) path pipe = λ other e. refl

    put-complete :
        (rel : String) (pipe : Pipe) (w : W)
        → (put join dirname root files rel pipe w).0 ≡ complete
        → (pipe.error ≡ none)
          × (find (put join dirname root files rel pipe w).1 (blob join dirname root rel)
              ≡ some (blob_of pipe.bytes))
    unfolding put
    put-complete rel pipe w h = behind-complete _ _ pipe h

    pub put-IsElsewhere :
        (rel : String) (pipe : Pipe) (w : W)
        → IsElsewhere find (blob join dirname root rel) w (put join dirname root files rel pipe w).1
    unfolding put
    put-IsElsewhere rel pipe w other e =
        behind-IsElsewhere _ _ pipe other e
        ∙ lawful.mkdir_keeps (dirname (blob join dirname root rel)) other w

    commit-IsElsewhere :
        (rel : String) (metadata : Metadata) (w : W)
        → IsElsewhere find
            (meta join dirname root rel)
            w
            (commit join dirname root files rel metadata w).1
    unfolding commit
    commit-IsElsewhere rel metadata w =
        lawful.writes_elsewhere (meta join dirname root rel) metadata w

    -- An entry, as the files hold it
    abbrev pub Holds : W → String → List ℕ → Metadata → Type 0
    Holds w rel bytes metadata =
        (find w (blob join dirname root rel) ≡ some (blob_of bytes))
        × (find w (meta join dirname root rel) ≡ some (text_of metadata))

    pub Holds-head :
        (w : W) (rel : String) (bytes : List ℕ) (metadata : Metadata)
        → Holds w rel bytes metadata
        → head join dirname root files rel w ≡ (ok (got metadata), w)
    unfolding attempt parse
    Holds-head w rel bytes metadata h =
        head_lem rel w ∙ ap (λ c. attempt (parse (contents_of c), w)) h.1

    pub Holds-get :
        (w : W) (rel : String) (bytes : List ℕ) (metadata : Metadata)
        → Holds w rel bytes metadata
        → get join dirname root files rel w
          ≡ (ok (got (record { bytes = bytes; metadata = metadata })), w)
    unfolding get
    Holds-get w rel bytes metadata h =
        ap (λ r. after r (with_stream join dirname root files rel))
          (Holds-head w rel bytes metadata h)
        ∙ ap (λ b. (ok (got (record { bytes = b; metadata = metadata })), w))
            (lawful.reads_stream _ w bytes h.0)

    pub put-commit-Holds :
        (rel : String) (pipe : Pipe) (m : Metadata) (w w' : W)
        → (put join dirname root files rel pipe w).0 ≡ complete
        → commit join dirname root files rel m (put join dirname root files rel pipe w).1
          ≡ (ok tt, w')
        → (pipe.error ≡ none) × Holds w' rel pipe.bytes m
    unfolding commit
    put-commit-Holds rel pipe m w w' is_written committed =
        let between = (put join dirname root files rel pipe w).1 in
        let (no_error, bytes) = put-complete rel pipe w is_written in
        (
          no_error,
          (
            sym (ap (λ p. find p.1 (blob join dirname root rel)) committed)
                ∙ (lawful.writes_elsewhere (meta join dirname root rel) m between _
                      (λ e. meta≢blob rel rel (sym e))
                    ∙ bytes),
            sym (ap (λ p. find p.1 (meta join dirname root rel)) committed)
                ∙ lawful.writes (meta join dirname root rel) m between (ap (λ p. p.0) committed),
          ),
        )

    -- What is deleted is no longer found.
    pub delete-head :
        (rel : String) (w w' : W)
        → delete join dirname root files rel w ≡ (ok tt, w')
        → head join dirname root files rel w' ≡ (ok (refused missing), w')
    unfolding delete attempt parse
    delete-head rel w w' h =
        let between = (files.remove (blob join dirname root rel) w).1 in
        let gone : find (files.remove (meta join dirname root rel) between).1
              (meta join dirname root rel)
            ≡ none =
          lawful.removes (meta join dirname root rel) between (both-ok _ _ (ap (λ p. p.0) h)) in
        head_lem rel w'
        ∙ ap (λ c. attempt (parse (contents_of c), w'))
            (sym (ap (λ p. find p.1 (meta join dirname root rel)) h) ∙ gone)

    -- The metadata of the others stay.
    pub delete_elsewhere :
        (rel other : String) (w w' : W)
        → meta join dirname root other ≢ meta join dirname root rel
        → delete join dirname root files rel w ≡ (ok tt, w')
        → find w' (meta join dirname root other) ≡ find w (meta join dirname root other)
    unfolding delete
    delete_elsewhere rel other w w' apart h =
        let between = (files.remove (blob join dirname root rel) w).1 in
        sym (ap (λ p. find p.1 (meta join dirname root other)) h)
        ∙ (lawful.removes_elsewhere (meta join dirname root rel) between _ apart
            ∙ lawful.removes_elsewhere (blob join dirname root rel) w _ (meta≢blob other rel))
