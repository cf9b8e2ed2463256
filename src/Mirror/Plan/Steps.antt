-- ===== src/Mirror/Plan/Steps.antt =====
-- internal/plugins/mirror/pkg/mirrorrepository/plansync.go: `Sync` and its workers as steps.
-- A turn of the loop is a step, and so is the work on one file, which a worker has taken from the
-- channel and whose row it writes at any later time. `Wait` returns when no worker has a file: a
-- worker has called `Add` before it takes one, and the channel holds none. The steps begin when the
-- download directory is there.
use beskar.Prelude.{
  ◌<◌, String, Bool, true, false, ◌≡◌, ◌≢◌, Option, none, some, List, [], ◌∷◌, length,
}
use beskar.Prelude.Dict.{Dict}
use beskar.Prelude.Outcome.{Err}
use beskar.Mirror.Files.{RepositoryFile}
use beskar.Mirror.Plan.{
  regular, FileInfo, SyncPlan, PlanSyncer, Call, file_reference, file_push, add_remote_file,
  remove_file_from_repository_database,
}

-- `todo` are the files that the loop has not reached, `busy` those that a worker has. `written` are
-- the files whose row was written without an error. `returned` is the result of `Sync`.
pub record PlanRun : Type 0 where
  pub todo : List FileInfo
  pub busy : List FileInfo
  pub deleted : List String
  pub deleting : Bool
  pub returned : Option Err
  pub rows : Dict RepositoryFile
  pub written : List FileInfo

-- The list without one element.
pub data TakeFile (x : FileInfo) : List FileInfo → List FileInfo → Type 0 where
  here : {xs : List FileInfo} → TakeFile x (x ∷ xs) xs
  there : {y : FileInfo} {xs ys : List FileInfo} → TakeFile x xs ys → TakeFile x (y ∷ xs) (y ∷ ys)

-- What a loop that has met an error returns; the workers go on.
abbrev pub fail : String → Dict RepositoryFile → PlanRun → PlanRun
fail e rows r = record r { rows = rows; returned = some (some e) }

module _ (s : PlanSyncer) (symlinks : Dict String) where
  pub data PlanStep (r : PlanRun) (t : PlanRun) : Type 0 where
    hand :
        (file : FileInfo) (files : List FileInfo)
        → r.returned ≡ none
        → r.todo ≡ file ∷ files
        → file.kind ≡ regular
        → length r.busy < s.parallelism
        → t ≡ record r { todo = files; busy = file ∷ r.busy }
        → PlanStep r t
    work :
        (fetch : Err) (c : Call) (file : FileInfo) (files : List FileInfo)
        (rows : Dict RepositoryFile)
        → TakeFile file r.busy files
        → file_push s fetch c file r.rows ≡ (none, rows)
        → t ≡ record r { busy = files; rows = rows; written = file ∷ r.written }
        → PlanStep r t
    work_fails :
        (fetch : Err) (c : Call) (e : String) (file : FileInfo) (files : List FileInfo)
        (rows : Dict RepositoryFile)
        → TakeFile file r.busy files
        → file_push s fetch c file r.rows ≡ (some e, rows)
        → t ≡ record r { busy = files; rows = rows }
        → PlanStep r t
    entry :
        (c : Call) (file : FileInfo) (files : List FileInfo) (rows : Dict RepositoryFile)
        → r.returned ≡ none
        → r.todo ≡ file ∷ files
        → file.kind ≢ regular
        → add_remote_file s c symlinks file r.rows ≡ (none, rows)
        → t ≡ record r { todo = files; rows = rows; written = file ∷ r.written }
        → PlanStep r t
    entry_fails :
        (c : Call) (e : String) (file : FileInfo) (files : List FileInfo)
        (rows : Dict RepositoryFile)
        → r.returned ≡ none
        → r.todo ≡ file ∷ files
        → file.kind ≢ regular
        → add_remote_file s c symlinks file r.rows ≡ (some e, rows)
        → t ≡ fail e rows r
        → PlanStep r t
    wait :
        r.returned ≡ none
        → r.todo ≡ []
        → r.busy ≡ []
        → r.deleting ≡ false
        → t ≡ record r { deleting = true }
        → PlanStep r t
    remove :
        (c : Call) (path : String) (paths : List String) (rows : Dict RepositoryFile)
        → r.returned ≡ none
        → r.deleting ≡ true
        → r.deleted ≡ path ∷ paths
        → remove_file_from_repository_database s c (file_reference s path) r.rows ≡ (none, rows)
        → t ≡ record r { deleted = paths; rows = rows }
        → PlanStep r t
    remove_fails :
        (c : Call) (e : String) (path : String) (paths : List String) (rows : Dict RepositoryFile)
        → r.returned ≡ none
        → r.deleting ≡ true
        → r.deleted ≡ path ∷ paths
        → remove_file_from_repository_database s c (file_reference s path) r.rows ≡ (some e, rows)
        → t ≡ fail e rows r
        → PlanStep r t
    finish :
        r.returned ≡ none
        → r.deleting ≡ true
        → r.deleted ≡ []
        → t ≡ record r { returned = some none }
        → PlanStep r t

  pub data PlanSteps (r : PlanRun) : PlanRun → Type 0 where
    start : PlanSteps r r
    next : {t u : PlanRun} → PlanSteps r t → PlanStep t u → PlanSteps r u

abbrev pub begin : SyncPlan → Dict RepositoryFile → PlanRun
begin plan rows = record {
  todo = plan.added;
  busy = [];
  deleted = plan.deleted;
  deleting = false;
  returned = none;
  rows = rows;
  written = [];
}
