-- ===== src/Tests/Octets.antt =====
-- Concrete runs of the directives of stored streams.
use kookaburra.Prelude.{
  ℕ, suc, String, true, false, Option, none, some, List, [], ◌∷◌, ◌++◌, ◌≡◌, ◌⊎◌, refl,
  if◌then◌else◌, any, append-nil,
}
use kookaburra.Result.{ok, err, not_found}
use kookaburra.Text.{starts_with, split_on}
use kookaburra.Dict.{lookup, insert}
use kookaburra.Runtime.Eff.{give}
use kookaburra.Scanner.{new_scanner, feed, process, gather, header_size}
use kookaburra.Storages.{Metadata, locate, entry_of}
use kookaburra.Storages
use kookaburra.Storages.FileSystem
use kookaburra.Octets.{context, action, preflight, choose, guard_action, ends_in}
use kookaburra.Octets.Component.{
  PutInput, Services, Storage, check_id, source_of, options_of, storage_at, store, parse_attributes,
  parse_pairs, is_id,
}
use kookaburra.Octets.Component
use kookaburra.Octets.Workflow.{
  Step, Context, Target, Answer, single, value, failure, threw, Report, report, reports_of,
  interrupts, target_of, slice, reverse_onto, steps, execute, run, completed,
}
use kookaburra.Octets.Actions.{Input, Operations, metadata, bytes, Output, PutOptions, headers_of}
use kookaburra.Octets.Reads.{apply_get}
use kookaburra.Octets.Writes.{reply, put_output, apply_put, execute_delete}
use kookaburra.Octets.Entries.{component, storage_of}
use kookaburra.Octets.Deletes.{
  IsStopped, Undisturbed, all_reports, run_stops, has_error, execute_delete-has_error,
  execute_delete-threw,
}
use kookaburra.Octets.Stored.{apply_put-apply_get}
use kookaburra.Tests.Disks.{
  Disk, disk, find, disk-IsFiles, joined, anything, summed, last_part, passing, now, providing,
}

abbrev services : Services Disk
services = record {
  trim = λ text. text;
  parse_int = λ text. none;
  origin_of = λ location. none;
  resolve = λ url location. url;
  fetch = λ location. give none;
}

abbrev one_after_another : List (List (Report ℕ)) → List (Report ℕ)
one_after_another [] = []
one_after_another (told ∷ others) = told ++ one_after_another others

abbrev answers : Target → Context → Answer ℕ
answers target seen =
    if starts_with target.operation "resize"
    then single (value 3)
    else if starts_with target.operation "refuse"
    then single (failure "TOO_SMALL")
    else threw

abbrev images : String → Option (Storage Disk)
images name = some (storage_of anything summed last_part joined providing "7" now passing)

abbrev keep_all : PutOptions
keep_all = record {
  location = none;
  accept = none;
  limit = 8;
  limit_text = "8B";
  trust = none;
  workflow = none;
}

abbrev posted : Input
posted = record {
  method = "POST";
  url = "pics/";
  headers = ("content-type", "text/plain") ∷ [];
  body = (1 ∷ 2 ∷ []) ∷ [];
  subtype = none;
  authority = "app";
  bearer = none;
}

abbrev fetching : Input
fetching = record posted { method = "GET"; url = "pics/7"; headers = [] }

abbrev told_entry : Metadata
told_entry = record {
  id = some "7";
  kind = "application/octet-stream";
  size = 2;
  checksum = "0123";
  created = now;
  attributes = [];
}

abbrev kept : Disk
kept =
    ("/root/pics/7.blob", FileSystem.blob_of (1 ∷ 2 ∷ []))
    ∷ ("/root/pics/7.meta", FileSystem.text_of told_entry)
    ∷ []

abbrev join_two : String → String → String
join_two a b = a

abbrev digits : ℕ → String
digits n = "2"

abbrev answer_of_put : Output Disk ℕ
answer_of_put = record { status = none; headers = []; body = some (metadata told_entry) }

puts :
    apply_put
      (component services images)
      answers
      one_after_another
      join_two
      keep_all
      "images"
      posted
      []
      []
    ≡ (ok answer_of_put, kept)
unfolding apply_put put_output reply component storage_of Component.put check_id source_of store
    storage_at options_of parse_attributes lookup Storages.put Storages.conclude Storages.error_of
    Storages.attributes_of Storages.scanned FileSystem.put FileSystem.write_behind FileSystem.commit
    FileSystem.blob FileSystem.meta FileSystem.path_to locate FileSystem.file_system entry_of
    new_scanner feed process gather header_size insert
puts = refl

apply_put-apply_get_example :
    (m : Metadata) × (answer_of_put.body ≡ some (metadata m))
    × (apply_get {V = ℕ} (component services images) digits false "images" fetching kept ≡ (
      ok (record {
        status = none;
        headers = headers_of digits m;
        body = some (bytes (1 ∷ 2 ∷ []));
      }),
      kept,
    ))
unfolding storage_of locate lookup
apply_put-apply_get_example =
    apply_put-apply_get services images answers one_after_another join_two digits anything summed
      last_part joined last_part "/root" disk find disk-IsFiles "7" now passing (λ buffers. refl)
      keep_all false "images" posted fetching [] answer_of_put [] kept refl refl refl puts refl refl
      refl refl

abbrev seen : Context
seen = record {
  authority = "app";
  bearer = none;
  storage = "images";
  path = "pics/7";
  entry = told_entry;
  parameters = [];
}

abbrev resizing : List Step
resizing = ("small", "images.resize") ∷ []

abbrev refusing : List Step
refusing = ("check", "images.refuse") ∷ []

abbrev breaking : List Step
breaking = ("break", "images.fail") ∷ []

abbrev three_units : List (List Step)
three_units = resizing ∷ refusing ∷ breaking ∷ []

-- The third unit is not run.
runs :
    run answers one_after_another seen three_units
    ≡ report "small" (some completed) (value 3)
      ∷ report "check" (some completed) (failure "TOO_SMALL")
      ∷ []
unfolding run execute steps reports_of report interrupts target_of slice reverse_onto starts_with
    split_on
runs = refl

run_stops_example :
    (Undisturbed answers one_after_another seen three_units
      × (run answers one_after_another seen three_units
          ≡ all_reports answers one_after_another seen three_units))
    ⊎ IsStopped answers one_after_another seen three_units
run_stops_example = run_stops answers one_after_another seen three_units

-- A component that counts deletions
abbrev counting : Operations ℕ
counting = record {
  put = λ input. give (Component.error Component.invalid_id);
  get = λ name path. give (Storages.refused Storages.missing);
  head = λ name path. give (Storages.got told_entry);
  delete = λ name path deleted. (ok tt, suc deleted);
}

abbrev refused_reports : List (Report ℕ)
refused_reports = report "check" (some completed) (failure "TOO_SMALL") ∷ []

execute_delete-has_error_example :
    ((any has_error refused_reports ≡ true)
      × ((execute_delete counting answers one_after_another join_two "images" "pics/7"
            refused_reports 0).1
          ≡ 0))
    ⊎ ((any has_error refused_reports ≡ false)
        × ((execute_delete counting answers one_after_another join_two "images" "pics/7"
              refused_reports 0).1
            ≡ 1))
execute_delete-has_error_example =
    execute_delete-has_error counting answers one_after_another join_two "images" "pics/7"
      refused_reports 0

alone : (only : List (Report ℕ)) → one_after_another (only ∷ []) ≡ only
alone only = append-nil only

execute_delete-threw_example :
    (execute_delete counting answers one_after_another join_two "images" "pics/7"
      (run answers one_after_another seen ((("break", "images.fail") ∷ []) ∷ []))
      0).1
    ≡ 1
unfolding target_of slice reverse_onto starts_with split_on
execute_delete-threw_example =
    execute_delete-threw counting answers one_after_another join_two "images" "pics/7" "break"
      "images.fail" seen 0 alone refl

-- An entry is read without a slash at the end of the path, and written with one.
needs_no_slash :
    preflight {A = ℕ} "pics/" (context "images" ∷ action true 1 ∷ [])
    ≡ err (not_found "Trailing slash")
unfolding preflight choose guard_action ends_in
needs_no_slash = refl
