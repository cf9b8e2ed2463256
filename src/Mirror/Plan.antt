-- ===== src/Mirror/Plan.antt =====
-- internal/plugins/mirror/pkg/mirrorrepository/plansync.go and database.go: the sync by a plan. The
-- paths (path/filepath, strings), crypto/md5 and what a download and its push return are arguments.
pub mod Steps
pub mod Rows
pub mod Invariant
pub mod Reached
use Prim.Native.String.{◌++◌}
use beskar.Prelude.{ℕ, String, Bool, true, false, Option, none, some, List, [], ◌∷◌, if◌then◌else◌}
use beskar.Prelude.Dict
use beskar.Prelude.Dict.{Dict}
use beskar.Prelude.Outcome.{Err}
use beskar.Prelude.Result.{Result, ok, err}
use beskar.Yum.Sql.{Io}
use beskar.Mirror.Files.{RepositoryFile, add_file, remove_file}

pub data Mode : Type 0 where
  regular directory symlink other : Mode

pub record FileInfo : Type 0 where
  pub path : String
  pub kind : Mode
  pub mode : ℕ
  pub mtime : ℕ
  pub size : ℕ

-- `AddRemoteFiles` and `DeleteLocalFiles`, with the files in the place of their indices.
pub record SyncPlan : Type 0 where
  pub added : List FileInfo
  pub deleted : List String
  pub symlinks : Dict String

pub record Paths : Type 0 where
  pub clean : String → String
  pub join : String → String → String
  pub dir : String → String
  pub to_lower : String → String
  pub has_prefix : String → String → Bool
  pub trim_prefix : String → String → String

pub record PlanSyncer : Type 0 where
  pub paths : Paths
  pub md5_hex : String → String
  pub repository : String
  pub config_id : ℕ
  pub parallelism : ℕ

-- What a call on the database meets: its opening, the statement, and the copy to the bucket.
pub record Call : Type 0 where
  pub opening : Err
  pub io : Io
  pub sync : Err

unfoldable pub generate_file_reference : PlanSyncer → String → String
generate_file_reference s file =
    let reference = s.paths.join s.repository file in
    if s.paths.has_prefix reference "artifacts/"
    then reference
    else if s.paths.has_prefix reference "mirror/"
    then s.paths.join "artifacts" reference
    else s.paths.join "artifacts" (s.paths.join "mirror" reference)

abbrev pub wrap : String → Err → Err
wrap what none = none
wrap what (some e) = some (what ++ e)

unfoldable pub add_file_to_repository_database :
    PlanSyncer → Call → RepositoryFile → Dict RepositoryFile → Err × Dict RepositoryFile
add_file_to_repository_database s c file rows = elim c.opening [
  | some e ↦ (some e, rows)
  | none ↦
      let (e, rows1) = add_file s.md5_hex c.io file rows in
      elim e [
        | some e ↦ (wrap "while adding repository file to database: " (some e), rows1)
        | none ↦ (c.sync, rows1)
      ]
]

unfoldable pub remove_file_from_repository_database :
    PlanSyncer → Call → String → Dict RepositoryFile → Err × Dict RepositoryFile
remove_file_from_repository_database s c name rows = elim c.opening [
  | some e ↦ (some e, rows)
  | none ↦
      let (r, rows1) = remove_file c.io (s.md5_hex name) rows in
      elim r [
        | err e ↦ (wrap "while removing repository file from database: " (some e), rows1)
        | ok deleted ↦ (if deleted then c.sync else none, rows1)
      ]
]

-- `filepath.Clean(generateFileReference(strings.ToLower(path)))`
unfoldable pub file_reference : PlanSyncer → String → String
unfolding generate_file_reference
file_reference s path = s.paths.clean (generate_file_reference s (s.paths.to_lower path))

-- The entry of a file or a directory.
unfoldable pub plain_entry : PlanSyncer → FileInfo → RepositoryFile
unfolding file_reference
plain_entry s file =
    let name = s.paths.clean file.path in
    record {
      tag = s.md5_hex (file_reference s file.path);
      name = name;
      reference = file_reference s file.path;
      parent = s.paths.dir name;
      link = "";
      modified_time = file.mtime;
      mode = file.mode;
      size = file.size;
      config_id = s.config_id;
      link_reference = "";
    }

-- The entry of a symbolic link: its reference is its name.
unfoldable pub link_entry : PlanSyncer → FileInfo → String → RepositoryFile
unfolding file_reference
link_entry s file content =
    let name = s.paths.clean file.path in
    let target = s.paths.trim_prefix (file_reference s content) s.repository in
    record {
      tag = s.md5_hex name;
      name = name;
      reference = name;
      parent = s.paths.dir name;
      link = content;
      modified_time = file.mtime;
      mode = file.mode;
      size = file.size;
      config_id = s.config_id;
      link_reference = s.paths.join (s.paths.dir (file_reference s file.path)) target;
    }

-- `filePush`, with what the download and the push of the file meet.
unfoldable pub file_push :
    PlanSyncer → Err → Call → FileInfo → Dict RepositoryFile → Err × Dict RepositoryFile
file_push s (some e) c file rows = (some e, rows)
file_push s none c file rows = add_file_to_repository_database s c (plain_entry s file) rows

-- A turn of the loop over the added files, for a file that is no regular one.
unfoldable pub add_remote_file :
    PlanSyncer → Call → Dict String → FileInfo → Dict RepositoryFile → Err × Dict RepositoryFile
add_remote_file s c symlinks file rows = elim file.kind [
  | directory ↦ add_file_to_repository_database s c (plain_entry s file) rows
  | symlink ↦ elim (Dict.lookup file.path symlinks) [
    | none ↦ (some ("link content not found for " ++ file.path), rows)
    | some content ↦ add_file_to_repository_database s c (link_entry s file content) rows
  ]
  | regular ↦ (none, rows)
  | other ↦ (none, rows)
]
