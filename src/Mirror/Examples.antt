-- ===== src/Mirror/Examples.antt =====
-- The theorem on a sync by a plan, at a file that a worker writes after the loop has written a
-- directory, and a file to delete.
use Prim.Native.String.{◌++◌}
use beskar.Prelude.{◌≡◌, ◌≢◌, ◌⊎◌, refl, true, false, String, none, some, [], ◌∷◌, ◌==◌, arith}
use beskar.Prelude.Dict
use beskar.Prelude.Dict.{Dict}
use beskar.Yum.Sql.{exec_one, exec_delete}
use beskar.Yum.Packages.Rows.{calm}
use beskar.Mirror.Files.{RepositoryFile, add_file, remove_file}
use beskar.Mirror.Plan.{
  regular, directory, FileInfo, SyncPlan, Paths, PlanSyncer, Call, generate_file_reference,
  file_reference, plain_entry, file_push, add_file_to_repository_database,
  remove_file_from_repository_database, add_remote_file,
}
use beskar.Mirror.Plan.Steps.{
  PlanRun, here, PlanStep, hand, work, entry, wait, remove, finish, PlanSteps, start, next, begin,
}
use beskar.Mirror.Plan.Rows.{Among, row_of, deletes}
use beskar.Mirror.Plan.Invariant.{Written}
use beskar.Mirror.Plan.Reached.{sync_plan_rows}

-- Paths that are clean already, in a repository whose name has the prefix.
abbrev clean_paths : Paths
clean_paths = record {
  clean = λ path. path;
  join = λ a b. a ++ "/" ++ b;
  dir = λ path. ".";
  to_lower = λ path. path;
  has_prefix = λ path prefix. prefix == "artifacts/";
  trim_prefix = λ path prefix. path;
}

abbrev syncer : PlanSyncer
syncer = record {
  paths = clean_paths;
  md5_hex = λ text. text;
  repository = "artifacts/mirror/m";
  config_id = 1;
  parallelism = 2;
}

abbrev call : Call
call = record { opening = none; io = calm; sync = none }

abbrev file_a : FileInfo
file_a = record { path = "a"; kind = regular; mode = 1; mtime = 5; size = 2 }

abbrev folder_b : FileInfo
folder_b = record { path = "b"; kind = directory; mode = 1; mtime = 5; size = 0 }

abbrev plan : SyncPlan
plan = record { added = file_a ∷ folder_b ∷ []; deleted = "c" ∷ []; symlinks = [] }

abbrev before : Dict RepositoryFile
before = ("artifacts/mirror/m/c", plain_entry syncer (record file_a { path = "c" })) ∷ []

abbrev row_a : RepositoryFile
row_a = plain_entry syncer file_a

abbrev row_b : RepositoryFile
row_b = plain_entry syncer folder_b

abbrev handed : PlanRun
handed = record (begin plan before) { todo = folder_b ∷ []; busy = file_a ∷ [] }

abbrev entered : PlanRun
entered = record handed {
  todo = [];
  rows = Dict.insert "artifacts/mirror/m/b" row_b before;
  written = folder_b ∷ [];
}

abbrev worked : PlanRun
worked = record entered {
  busy = [];
  rows = Dict.insert "artifacts/mirror/m/a" row_a entered.rows;
  written = file_a ∷ folder_b ∷ [];
}

abbrev waited : PlanRun
waited = record worked { deleting = true }

abbrev removed : PlanRun
removed = record waited { deleted = []; rows = Dict.remove "artifacts/mirror/m/c" waited.rows }

abbrev finished : PlanRun
finished = record removed { returned = some none }

hand_a : PlanStep syncer [] (begin plan before) handed
hand_a = hand file_a (folder_b ∷ []) refl refl refl (ground arith) refl

enter_b : PlanStep syncer [] handed entered
unfolding add_remote_file add_file_to_repository_database add_file exec_one plain_entry
    file_reference generate_file_reference
enter_b = entry call folder_b [] entered.rows refl refl (λ e. ground (arith, e)) refl refl

work_a : PlanStep syncer [] entered worked
unfolding file_push add_file_to_repository_database add_file exec_one plain_entry file_reference
    generate_file_reference
work_a = work none call file_a [] worked.rows here refl refl

wait_all : PlanStep syncer [] worked waited
wait_all = wait refl refl refl refl refl

remove_c : PlanStep syncer [] waited removed
unfolding remove_file_from_repository_database remove_file exec_delete file_reference
    generate_file_reference Dict.lookup Dict.insert
remove_c = remove call "c" [] removed.rows refl refl refl refl refl

finish_all : PlanStep syncer [] removed finished
finish_all = finish refl refl refl refl

run_finished : PlanSteps syncer [] (begin plan before) finished
run_finished =
    next (next (next (next (next (next start hand_a) enter_b) work_a) wait_all) remove_c) finish_all

sync_plan_rows_example :
    ((tag : String) → deletes syncer tag plan.deleted ≡ true → Dict.lookup tag finished.rows ≡ none)
    × ((tag : String)
        → deletes syncer tag plan.deleted ≡ false
        → (Dict.lookup tag finished.rows ≡ Dict.lookup tag before)
          ⊎ Written syncer plan before tag (Dict.lookup tag finished.rows))
    × ((file : FileInfo) (row : RepositoryFile)
        → Among file plan.added
        → (file.kind ≢ regular) ⊎ Among file finished.written
        → row_of syncer plan.symlinks file ≡ some row
        → deletes syncer row.tag plan.deleted ≡ false
        → Written syncer plan before row.tag (Dict.lookup row.tag finished.rows))
sync_plan_rows_example = sync_plan_rows syncer plan before finished run_finished refl
