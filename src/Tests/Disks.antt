-- ===== src/Tests/Disks.antt =====
-- A file system in memory, and concrete runs of a storage over it.
use kookaburra.Prelude.{
  ℕ, ◌≡◌, ◌≢◌, refl, ap, Bool, true, Option, none, some, List, [], ◌∷◌, String, arith, eq_iff,
}
use kookaburra.Text.{◌+++◌}
use kookaburra.Result.{ok}
use kookaburra.Dict.{lookup, insert, delete, lookup-insert, lookup-delete}
use kookaburra.Scanner.{
  new_scanner, feed, process, gather, header_size, interrupt, Interruption, limit_exceeded,
}
use kookaburra.Scanner.Detects.{total}
use kookaburra.Storages.{
  Metadata, Refusal, missing, interrupted, Maybe, got, refused, Written, complete, thrown, Pipe,
  Options, locate, entry_of, named, Stream,
}
use kookaburra.Storages
use kookaburra.Storages.FileSystem
use kookaburra.Storages.FileSystem.{
  Tried, absent, done, Content, blob_of, text_of, Files, IsFiles, contents_of, file_system,
}

abbrev pub Disk : Type 0
Disk = List (String × Content)

abbrev pub outcome_of : Option Interruption → Written
outcome_of none = complete
outcome_of (some error) = thrown (interrupted error)

abbrev pub bytes_of : Option Content → List ℕ
bytes_of (some (blob_of bytes)) = bytes
bytes_of _ = []

abbrev pub renamed : String → String → Option Content → Disk → Tried Unit × Disk
renamed from to none d = (absent, d)
renamed from to (some content) d = (done tt, insert to content (delete from d))

abbrev pub disk : Files Disk
disk = record {
  mkdir = λ path d. (ok tt, d);
  write_stream = λ path pipe d. (outcome_of pipe.error, insert path (blob_of pipe.bytes) d);
  write_text = λ path metadata d. (ok tt, insert path (text_of metadata) d);
  read_file = λ path d. (contents_of (lookup path d), d);
  read_stream = λ path d. bytes_of (lookup path d);
  remove = λ path d. (ok tt, delete path d);
  rename = λ from to d. renamed from to (lookup from d) d;
}

abbrev pub find : Disk → String → Option Content
find d path = lookup path d

insert_elsewhere :
    (path other : String) (content : Content) (d : Disk)
    → other ≢ path
    → lookup other (insert path content d) ≡ lookup other d
insert_elsewhere path other content d h =
    ground (arith, lookup-insert path other content d, eq_iff path other, h)

delete_elsewhere :
    (path other : String) (d : Disk) → other ≢ path → lookup other (delete path d) ≡ lookup other d
delete_elsewhere path other d h = ground (arith, lookup-delete path other d, eq_iff path other, h)

outcome_of-complete : (error : Option Interruption) → outcome_of error ≡ complete → error ≡ none
outcome_of-complete none h = refl
outcome_of-complete (some error) h = cc

pub disk-IsFiles : IsFiles find disk
disk-IsFiles = record {
  mkdir_keeps = λ path other w. refl;
  streams = λ path pipe w h. (
    outcome_of-complete pipe.error h,
    ground (arith, lookup-insert path path (blob_of pipe.bytes) w, eq_iff path path),
  );
  streams_elsewhere = λ path pipe w other h. insert_elsewhere path other (blob_of pipe.bytes) w h;
  writes = λ path metadata w h.
      ground (arith, lookup-insert path path (text_of metadata) w, eq_iff path path);
  writes_elsewhere = λ path metadata w other h. insert_elsewhere path other (text_of metadata) w h;
  reads = λ path w. refl;
  reads_stream = λ path w bytes h. ap bytes_of h;
  removes = λ path w h. ground (arith, lookup-delete path path w, eq_iff path path);
  removes_elsewhere = λ path w other h. delete_elsewhere path other w h;
}

-- `path.join`, of texts that need no normalization
abbrev pub joined : List String → String
joined [] = ""
joined (part ∷ parts) = part +++ joined parts

abbrev pub anything : String → String → Bool
anything accept kind = true

abbrev pub summed : List ℕ → String
summed bytes = "0123"

abbrev pub last_part : String → String
last_part path = "7"

abbrev pub passing : List (List ℕ) → Option Interruption → List ℕ
passing buffers error = total buffers

abbrev pub plain : Options
plain = record {
  id = none;
  origin = some "https://a.b";
  attributes = none;
  claim = some "text/plain";
  accept = none;
  limit = some 2;
}

abbrev pub now : String
now = "2024-01-01"

abbrev pub written : Disk → Disk
written d =
    insert "/root/pics/7.meta"
      (text_of (
        entry_of anything summed last_part joined (file_system joined last_part "/root" disk) "7"
          now ((1 ∷ 2 ∷ []) ∷ []) plain))
      (insert "/root/pics/7.blob" (blob_of (1 ∷ 2 ∷ [])) d)

abbrev pub providing : Storages.Provider Disk
providing = file_system joined last_part "/root" disk

test_put :
    Storages.put anything summed last_part joined providing "7" now passing "pics/"
      ((1 ∷ 2 ∷ []) ∷ [])
      plain
      []
    ≡ (
      ok (
          got (
            entry_of anything summed last_part joined providing "7" now ((1 ∷ 2 ∷ []) ∷ []) plain)),
      written [],
    )
unfolding Storages.put Storages.conclude Storages.error_of Storages.scanned Storages.FileSystem.put
    Storages.FileSystem.write_behind Storages.FileSystem.commit Storages.FileSystem.blob
    Storages.FileSystem.meta Storages.FileSystem.path_to locate file_system entry_of new_scanner
    feed process gather header_size insert
test_put = refl

-- Three bytes where two are allowed, over the entry of two bytes: its metadata say what they said,
-- and its content is another.
abbrev pub overwritten : Disk
overwritten = insert "/root/pics/7.blob" (blob_of (3 ∷ 4 ∷ 5 ∷ [])) (written [])

abbrev pub at_seven : Options
at_seven = record plain { id = some "7" }

test_put_refused :
    Storages.put anything summed last_part joined providing "7" now passing "pics/"
      ((3 ∷ 4 ∷ 5 ∷ []) ∷ [])
      at_seven
      (written [])
    ≡ (ok (refused (interrupted limit_exceeded)), overwritten)
unfolding Storages.put Storages.conclude Storages.error_of Storages.scanned Storages.FileSystem.put
    Storages.FileSystem.write_behind Storages.FileSystem.commit Storages.FileSystem.blob
    Storages.FileSystem.meta Storages.FileSystem.path_to locate file_system new_scanner feed process
    gather header_size insert interrupt
test_put_refused = refl

test_delete :
    Storages.delete anything summed last_part joined providing "pics/7" (written []) ≡ (ok tt, [])
unfolding Storages.delete Storages.FileSystem.delete Storages.FileSystem.blob
    Storages.FileSystem.meta Storages.FileSystem.path_to locate file_system insert delete
test_delete = refl
