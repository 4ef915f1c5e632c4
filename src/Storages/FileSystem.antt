-- ===== src/Storages/FileSystem.antt =====
-- extensions/storages/source/providers/FileSystem.ts over the files of the system, which are a
-- parameter, and what the system documents of them. A file of metadata is the value that its text
-- stands for, so that parsing takes back what was written as text.
use kookaburra.Prelude.{ℕ, ◌≡◌, ◌≢◌, String, Option, none, some, List, [], ◌∷◌}
use kookaburra.Result.{Result, ok, err, Failure}
use kookaburra.Text.{◌+++◌}
use kookaburra.Runtime.Eff.{Eff, ◌>>=◌, give}
use kookaburra.Storages.{
  Metadata, Refusal, missing, Maybe, got, refused, Written, complete, thrown, Pipe, Stream,
  Provider,
}

pub data Content : Type 0 where
  blob_of : List ℕ → Content
  text_of : Metadata → Content

-- How a call of the file system ends; `absent` is `ENOENT`
pub data Tried (A : Type 0) : Type 0 where
  done : A → Tried A
  absent : Tried A
  broke : Failure → Tried A

pub record Files (W : Type 0) : Type 0 where
  pub mkdir : String → Eff W Unit
  pub write_stream : String → Pipe → W → Written × W
  pub write_text : String → Metadata → Eff W Unit
  pub read_file : String → W → Tried Content × W
  pub read_stream : String → W → List ℕ
  pub remove : String → Eff W Unit
  pub rename : String → String → W → Tried Unit × W

-- `try`
unfoldable pub attempt : {W A : Type 0} → Tried A × W → Result (Maybe A) × W
attempt (done a, world) = (ok (got a), world)
attempt (absent, world) = (ok (refused missing), world)
attempt (broke failure, world) = (err failure, world)

-- `JSON.parse(contents)`
unfoldable pub parse : Tried Content → Tried Metadata
parse (done (text_of metadata)) = done metadata
parse (done (blob_of bytes)) = broke (Failure.fault "SyntaxError")
parse absent = absent
parse (broke failure) = broke failure

-- `Promise.all` of two
abbrev pub both : Result (Unit {0}) → Result (Unit {0}) → Result (Unit {0})
both (err failure) _ = err failure
both (ok _) second = second

abbrev pub both_tried : Tried Unit → Tried Unit → Tried Unit
both_tried (done _) second = second
both_tried first _ = first

module _ (join : List String → String) (dirname : String → String) (root : String) where
  -- `join`
  unfoldable pub path_to : String → String → String
  path_to rel ext = join (root ∷ rel ∷ []) +++ ext

  unfoldable pub blob : String → String
  unfolding path_to
  blob rel = path_to rel ".blob"

  unfoldable pub meta : String → String
  unfolding path_to
  meta rel = path_to rel ".meta"

  module _ {W : Type 0} (files : Files W) where
    unfoldable pub head : String → Eff W (Maybe Metadata)
    head rel world =
        let contents = files.read_file (meta rel) world in attempt (parse contents.0, contents.1)

    abbrev streamed : List ℕ → Maybe Metadata → Maybe Stream
    streamed bytes (refused error) = refused error
    streamed bytes (got metadata) = got (record { bytes = bytes; metadata = metadata })

    unfoldable pub with_stream : String → Maybe Metadata → Eff W (Maybe Stream)
    with_stream rel metadata world =
        give (streamed (files.read_stream (blob rel) world) metadata) world

    unfoldable pub get : String → Eff W (Maybe Stream)
    unfolding head with_stream
    get rel = head rel >>= with_stream rel

    -- What is written, behind the making of the directory
    unfoldable pub write_behind : Result (Unit {0}) × W → String → Pipe → Written × W
    write_behind (err failure, world) path pipe = (thrown (Refusal.other failure), world)
    write_behind (ok _, world) path pipe = files.write_stream path pipe world

    unfoldable pub put : String → Pipe → W → Written × W
    unfolding write_behind
    put rel pipe world = write_behind (files.mkdir (dirname (blob rel)) world) (blob rel) pipe

    unfoldable pub commit : String → Metadata → Eff W Unit
    commit rel metadata = files.write_text (meta rel) metadata

    unfoldable pub delete : String → Eff W Unit
    delete path world =
        let first = files.remove (blob path) world in
        let second = files.remove (meta path) first.1 in (both first.0 second.0, second.1)

    unfoldable pub move : String → String → Eff W (Maybe Unit)
    move from to = files.mkdir (dirname (blob to)) >>= λ _ world.
        (let first = files.rename (blob from) (blob to) world in
          let second = files.rename (meta from) (meta to) first.1 in
          attempt (both_tried first.0 second.0, second.1))

    -- The class
    unfoldable pub file_system : Provider W
    unfolding get head put commit delete move
    file_system = record {
      root = some root;
      get = get;
      head = head;
      put = put;
      commit = commit;
      delete = delete;
      move = move;
    }

-- What reading gives
abbrev pub contents_of : Option Content → Tried Content
contents_of none = absent
contents_of (some content) = done content

-- What the system documents of its files, with `find` for what it holds: a call that succeeds has
-- done its work, one that fails leaves the path open, and neither touches another path.
module _ {W : Type 0} (find : W → String → Option Content) where
  abbrev pub IsElsewhere : String → W → W → Type 0
  IsElsewhere path w w' = (other : String) → other ≢ path → find w' other ≡ find w other

  pub record IsFiles (files : Files W) : Type 0 where
    pub mkdir_keeps :
        (path other : String) (w : W) → find (files.mkdir path w).1 other ≡ find w other
    pub streams :
        (path : String) (pipe : Pipe) (w : W)
        → (files.write_stream path pipe w).0 ≡ complete
        → (pipe.error ≡ none)
          × (find (files.write_stream path pipe w).1 path ≡ some (blob_of pipe.bytes))
    pub streams_elsewhere :
        (path : String) (pipe : Pipe) (w : W)
        → IsElsewhere path w (files.write_stream path pipe w).1
    pub writes :
        (path : String) (metadata : Metadata) (w : W)
        → (files.write_text path metadata w).0 ≡ ok tt
        → find (files.write_text path metadata w).1 path ≡ some (text_of metadata)
    pub writes_elsewhere :
        (path : String) (metadata : Metadata) (w : W)
        → IsElsewhere path w (files.write_text path metadata w).1
    pub reads : (path : String) (w : W) → files.read_file path w ≡ (contents_of (find w path), w)
    pub reads_stream :
        (path : String) (w : W) (bytes : List ℕ)
        → find w path ≡ some (blob_of bytes)
        → files.read_stream path w ≡ bytes
    pub removes :
        (path : String) (w : W)
        → (files.remove path w).0 ≡ ok tt
        → find (files.remove path w).1 path ≡ none
    pub removes_elsewhere : (path : String) (w : W) → IsElsewhere path w (files.remove path w).1
