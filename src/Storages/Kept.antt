-- ===== src/Storages/Kept.antt =====
-- What a storage over the file system keeps: entries that are put, until they are deleted.
use kookaburra.Prelude.{
  ℕ, ◌≡◌, ◌≢◌, refl, sym, ap, subst, ◌∙◌, String, Bool, Option, none, some, List, [], ◌∷◌, or_else,
}
use kookaburra.Result.{ok}
use kookaburra.Runtime.Eff.{after, give}
use kookaburra.Scanner.{Interruption}
use kookaburra.Scanner.Detects.{total}
use kookaburra.Storages.{
  Metadata, Refusal, missing, Maybe, got, refused, Written, complete, returned, thrown, Pipe,
  Stream, Provider, Options, locate, scanned, entry_of, error_of, conclude, named,
}
use kookaburra.Storages
use kookaburra.Storages.Endings.{put-got, written-refused}
use kookaburra.Storages.Held.{
  Holds, Holds-head, Holds-get, head_lem, put-commit-Holds, delete-head, delete_elsewhere,
  put-IsElsewhere, meta≢blob,
}
use kookaburra.Storages.FileSystem.{
  Content, Tried, Files, IsFiles, attempt, parse, contents_of, meta, commit, file_system, done,
  absent, broke,
}

named-got : (id other : String) (m : Metadata) → m.id ≡ some id → named other (got m) ≡ got m
unfolding named
named-got id other m h =
    ap (λ o. got (record m { id = some (or_else o other) })) h
    ∙ sym (ap (λ o. got (record m { id = o })) h)

-- The value that is found does not depend on where it is looked for.
head_anywhere :
    {W : Type 0} (x : Tried Metadata) (id : String) (w v : W)
    → (after (attempt (x, w)) (λ metadata. give (named id metadata))).0
      ≡ (after (attempt (x, v)) (λ metadata. give (named id metadata))).0
unfolding attempt
head_anywhere (done metadata) id w v = refl
head_anywhere absent id w v = refl
head_anywhere (broke failure) id w v = refl

module _ (acceptable : String → String → Bool) (digest : List ℕ → String)
    (basename : String → String) (join : List String → String) (dirname : String → String)
    (root : String) {W : Type 0} (files : Files W) (find : W → String → Option Content)
    (lawful : IsFiles find files) (generated now : String)
    (passed : List (List ℕ) → Option Interruption → List ℕ)
    (whole : (buffers : List (List ℕ)) → passed buffers none ≡ total buffers) where
  abbrev files_of : Provider W
  files_of = file_system join dirname root files

  put-Holds :
      (path : String) (buffers : List (List ℕ)) (options : Options) (w w' : W) (m : Metadata)
      → Storages.put acceptable digest basename join files_of generated now passed path buffers
          options w
        ≡ (ok (got m), w')
      → Holds join dirname root files find lawful w'
          (locate join (path ∷ or_else options.id generated ∷ []))
          (total buffers)
          m
  unfolding file_system commit
  put-Holds path buffers options w w' m h =
      let (is_written, same, committed) =
        put-got acceptable digest basename join files_of generated now passed path buffers options w
          w' m h in
      let location = locate join (path ∷ or_else options.id generated ∷ []) in
      let error = (scanned acceptable digest basename join files_of buffers options).raised in
      let (no_error, held) =
        put-commit-Holds join dirname root files find lawful location
          (record { bytes = passed buffers error; error = error }) m w w' is_written committed in
      subst (λ bytes. Holds join dirname root files find lawful w' location bytes m)
        (ap (passed buffers) no_error ∙ whole buffers) held

  -- An entry that `put` gives back is the one that `head` and `get` find at its path, with all
  -- bytes of the stream, where the file system keeps what it documents.
  pub put-get :
      (path full : String) (buffers : List (List ℕ)) (options : Options) (w w' : W) (m : Metadata)
      → locate join (full ∷ []) ≡ locate join (path ∷ or_else options.id generated ∷ [])
      → Storages.put acceptable digest basename join files_of generated now passed path buffers
          options w
        ≡ (ok (got m), w')
      → (Storages.head acceptable digest basename join files_of full w' ≡ (ok (got m), w'))
        × (Storages.get acceptable digest basename join files_of full w'
            ≡ (ok (got (record { bytes = total buffers; metadata = m })), w'))
  unfolding Storages.get Storages.head file_system entry_of
  put-get path full buffers options w w' m at h =
      let held = put-Holds path buffers options w w' m h in
      let same =
        (put-got acceptable digest basename join files_of generated now passed path buffers options
          w w' m h).1 in
      let found =
        ap (λ l. after (files_of.head l w') (λ metadata. give (named (basename full) metadata)))
          at in
      (
        found
            ∙ (ap (λ r. after r (λ metadata. give (named (basename full) metadata)))
                  (Holds-head join dirname root files find lawful w' _ (total buffers) m held)
                ∙ ap (λ r. (ok r, w'))
                    (named-got (or_else options.id generated) (basename full) m
                      (ap (λ r. r.id) same))),
        ap (λ l. files_of.get l w') at
            ∙ Holds-get join dirname root files find lawful w' _ (total buffers) m held,
      )

  head_found :
      (path : String) (w : W)
      → (Storages.head acceptable digest basename join files_of path w).0
        ≡ (after
            (attempt
              (parse (contents_of (find w (meta join dirname root (locate join (path ∷ []))))), w))
            (λ metadata. give (named (basename path) metadata))).0
  unfolding Storages.head file_system
  head_found path w =
      ap (λ r. (after r (λ metadata. give (named (basename path) metadata))).0)
        (head_lem join dirname root files find lawful (locate join (path ∷ [])) w)

  head-kept :
      (other : String) (w w' : W)
      → find w' (meta join dirname root (locate join (other ∷ [])))
        ≡ find w (meta join dirname root (locate join (other ∷ [])))
      → (Storages.head acceptable digest basename join files_of other w').0
        ≡ (Storages.head acceptable digest basename join files_of other w).0
  head-kept other w w' kept =
      head_found other w'
      ∙ (ap
            (λ c.
              (after (attempt (parse (contents_of c), w'))
                (λ metadata. give (named (basename other) metadata))).0)
            kept
          ∙ (head_anywhere _ (basename other) w' w ∙ sym (head_found other w)))

  -- A stream that is refused leaves the metadata of every entry as it was.
  pub put-refused :
      (path other : String) (buffers : List (List ℕ)) (options : Options) (w w' : W) (e : Refusal)
      → Storages.put acceptable digest basename join files_of generated now passed path buffers
          options w
        ≡ (ok (refused e), w')
      → (Storages.head acceptable digest basename join files_of other w').0
        ≡ (Storages.head acceptable digest basename join files_of other w).0
  unfolding Storages.put Storages.head file_system
  put-refused path other buffers options w w' e h =
      let location = locate join (path ∷ or_else options.id generated ∷ []) in
      let scanner = scanned acceptable digest basename join files_of buffers options in
      let pipe : Pipe = record { bytes = passed buffers scanner.raised; error = scanner.raised } in
      let written = files_of.put location pipe w in
      let same : written.1 ≡ w' =
        written-refused acceptable digest basename join files_of scanner written.0 location _
          written.1 w' e h in
      let at = meta join dirname root (locate join (other ∷ [])) in
      let kept : find w' at ≡ find w at =
        ap (λ v. find v at) (sym same)
        ∙ put-IsElsewhere join dirname root files find lawful location pipe w at
            (meta≢blob join dirname root _ _) in
      head-kept other w w' kept

  -- What is deleted is not found any more, and the entries that have other files stay as they were.
  pub delete-head_after :
      (path other : String) (w w' : W)
      → Storages.delete acceptable digest basename join files_of path w ≡ (ok tt, w')
      → meta join dirname root (locate join (other ∷ []))
        ≢ meta join dirname root (locate join (path ∷ []))
      → ((Storages.head acceptable digest basename join files_of path w').0 ≡ ok (refused missing))
        × ((Storages.head acceptable digest basename join files_of other w').0
            ≡ (Storages.head acceptable digest basename join files_of other w).0)
  unfolding Storages.delete Storages.head file_system named
  delete-head_after path other w w' h apart =
      let kept =
        delete_elsewhere join dirname root files find lawful (locate join (path ∷ []))
          (locate join (other ∷ [])) w w' apart h in
      (
        ap (λ r. (after r (λ metadata. give (named (basename path) metadata))).0)
            (delete-head join dirname root files find lawful (locate join (path ∷ [])) w w' h),
        head-kept other w w' kept,
      )
