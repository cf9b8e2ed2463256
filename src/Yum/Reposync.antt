-- ===== src/Yum/Reposync.antt =====
-- internal/plugins/yum/pkg/yumrepository/sync.go: the packages of `repositorySync`, with the walk of
-- `DownloadPackages` (internal/plugins/yum/pkg/mirror/syncer.go) that feeds it.
-- The walk, the loop that starts the workers and the workers are goroutines: each statement that
-- reads or changes what they share is one step, in any order the channel, the semaphore and `Wait`
-- allow. `dbPackages` and `syncedPackages` are shared without a lock that all of them take: a test, a
-- deletion and the load and the store of an increment are steps of their own, so that an increment
-- may be lost. Go may also stop a program with such a race, which is left out.
-- A push or a deletion is processed by the event loop of the handler before the worker goes
-- on, which adds or removes the row (Yum/Packages).
-- Downloading and reading a package is outside: `pkg_of` is what the mirror serves for an id.
pub mod Whole
pub mod Sets
pub mod Stored
pub mod Invariant
pub mod Preserved
pub mod Reached
pub mod Collected
pub mod Mirrors
pub mod Progress
pub mod Completes
pub mod Ends
pub mod Bounds
mod Examples
use beskar.Prelude.{
  ℕ, suc, ◌+◌, ◌<◌, String, Bool, true, false, not, ◌||◌, ◌≡◌, Option, none, some, List, [], ◌∷◌,
  ◌++◌, if◌then◌else◌, length, ◌==◌, has,
}
use beskar.Prelude.Dict
use beskar.Prelude.Dict.{Dict}
use beskar.Prelude.Outcome.{Err}
use beskar.Prelude.Result.{Result, ok, err}
use beskar.Yum.Sql.{Io}
use beskar.Yum.Status.{Reposync, StatusDb, update_reposync}
use beskar.Yum.Packages.{
  RepositoryPackage, rpm_name, add_package, remove_package, first_of_id, get_package_by_tag,
  walk_packages, no_entry_found,
}
use beskar.Yum.Packages.Rows.{calm}

-- `map[string]struct{}`
abbrev pub Ids : Type 0
Ids = Dict {0} Unit

-- Where the filter stands: it is not running, it has found the id in the map, it has deleted it there,
-- it has loaded the count.
pub data Filter : Type 0 where
  asking found dropped : Filter
  loaded : ℕ → Filter

-- `packageMutex` behind a push: no worker has it, its worker has loaded the count, or stored it.
pub data Counting : Type 0 where
  unlocked counted : Counting
  counting : ℕ → Counting

-- The status that the handler shows, and its database.
pub record Shown : Type 0 where
  pub reposync : Reposync
  pub status_db : StatusDb

-- `todo` are the ids that the filter is not through with; `waiting` those it has let through that
-- have no worker yet, one in the channel and one in the loop at most. A worker is `fetching` until it
-- has looked its tag up, `looked` until its push is processed, and `pushed` until it has the mutex.
-- `db_packages` is the map of the stored ids that the mirror may not have. `removing` is the second
-- loop; `stopped` is set when a loop has given the semaphore up.
pub record Sync : Type 0 where
  pub todo : List String
  pub filter : Filter
  pub waiting : List String
  pub fetching : List String
  pub looked : List String
  pub pushed : List String
  pub mutex : Counting
  pub db_packages : Ids
  pub rows : Dict RepositoryPackage
  pub synced_packages : ℕ
  pub shown : Shown
  pub removing : Bool
  pub failed : Bool
  pub stopped : Bool

abbrev pub sync_max_downloads : ℕ
sync_max_downloads = 10

-- The ids that `WalkPackages` collects.
unfoldable pub collect_ids : Io → Dict RepositoryPackage → Err × Ids
unfolding walk_packages
collect_ids io rows = walk_packages io (λ pkg ids. (none, Dict.insert pkg.id tt ids)) rows []

-- What the lookup of a worker's tag does to the map.
unfoldable pub keep_overridden : Result RepositoryPackage → Ids → Result Ids
keep_overridden (err e) db_packages = if e == no_entry_found then ok db_packages else err e
keep_overridden (ok pkg) db_packages =
    if pkg.id == "" then ok db_packages else ok (Dict.remove pkg.id db_packages)

-- The test of the filter, and the walk behind it.
unfoldable pub visit : String → List String → Sync → Sync
visit id ids s =
    if has (Dict.lookup id s.db_packages)
    then record s { filter = found }
    else record s { todo = ids; waiting = s.waiting ++ id ∷ [] }

-- The deletion in the filter, which then keeps the package from the walk.
unfoldable pub drop_found : String → List String → Sync → Sync
drop_found id ids s = record s {
  todo = ids;
  filter = dropped;
  db_packages = Dict.remove id s.db_packages;
}

-- `addSyncedPackageReposyncDatabase` and `setReposync`: the status is changed through its pointer,
-- also when its update in the database fails.
unfoldable pub add_synced_package : Err → Io → ℕ → ℕ → Shown → Shown
add_synced_package (some e) io total synced shown = shown
add_synced_package none io total synced shown =
    let r : Reposync = record shown.reposync { total_packages = total; synced_packages = synced } in
    record { reposync = r; status_db = (update_reposync io r shown.status_db).1 }

-- The list without one element.
pub data Take (x : String) : List String → List String → Type 0 where
  here : {xs : List String} → Take x (x ∷ xs) xs
  there : {y : String} {xs ys : List String} → Take x xs ys → Take x (y ∷ xs) (y ∷ ys)

abbrev pub workers : Sync → ℕ
workers s =
    length (s.fetching ++ s.looked)
    + length s.pushed
    + elim s.mutex [ unlocked ↦ 0 | counting n ↦ 1 | counted ↦ 1 ]

module _ (md5_hex : String → String) (pkg_of : String → RepositoryPackage) where
  abbrev pub tag_of : String → String
  tag_of id = md5_hex (rpm_name (pkg_of id))

  -- A step that meets no error.
  pub data Step (s : Sync) (t : Sync) : Type 0 where
    walk :
        (id : String) (ids : List String)
        → s.todo ≡ id ∷ ids
        → s.filter ≡ asking
        → length s.waiting < 2
        → t ≡ visit id ids s
        → Step s t
    drop :
        (id : String) (ids : List String)
        → s.todo ≡ id ∷ ids
        → s.filter ≡ found
        → t ≡ drop_found id ids s
        → Step s t
    load : s.filter ≡ dropped → t ≡ record s { filter = loaded s.synced_packages } → Step s t
    store :
        (n : ℕ)
        → s.filter ≡ loaded n
        → t ≡ record s { filter = asking; synced_packages = suc n }
        → Step s t
    spawn :
        (id : String) (ids : List String)
        → s.stopped ≡ false
        → s.waiting ≡ id ∷ ids
        → workers s < sync_max_downloads
        → t ≡ record s { waiting = ids; fetching = id ∷ s.fetching }
        → Step s t
    look :
        (id : String) (ids : List String) (db_packages : Ids)
        → Take id s.fetching ids
        → keep_overridden (get_package_by_tag calm (tag_of id) s.rows) s.db_packages
          ≡ ok db_packages
        → t ≡ record s { fetching = ids; looked = id ∷ s.looked; db_packages = db_packages }
        → Step s t
    push :
        (io : Io) (id : String) (ids : List String) (rows : Dict RepositoryPackage)
        → Take id s.looked ids
        → add_package md5_hex io (pkg_of id) s.rows ≡ (none, rows)
        → t ≡ record s { looked = ids; rows = rows; pushed = id ∷ s.pushed }
        → Step s t
    lock :
        (id : String) (ids : List String)
        → s.mutex ≡ unlocked
        → Take id s.pushed ids
        → t ≡ record s { pushed = ids; mutex = counting s.synced_packages }
        → Step s t
    count :
        (n : ℕ)
        → s.mutex ≡ counting n
        → t ≡ record s { mutex = counted; synced_packages = suc n }
        → Step s t
    report :
        (opening : Err) (io : Io) (total : ℕ)
        → s.mutex ≡ counted
        → t ≡ record s {
          mutex = unlocked;
          shown = add_synced_package opening io total s.synced_packages s.shown;
        }
        → Step s t
    turn :
        s.removing ≡ false
        → s.failed ≡ false
        → s.todo ≡ []
        → s.waiting ≡ []
        → s.fetching ≡ []
        → s.looked ≡ []
        → s.pushed ≡ []
        → s.filter ≡ asking
        → s.mutex ≡ unlocked
        → t ≡ record s { removing = true }
        → Step s t
    remove :
        (io : Io) (id : String) (pkg : RepositoryPackage) (deleted : Bool)
        (rows : Dict RepositoryPackage)
        → s.removing ≡ true
        → s.stopped ≡ false
        → Dict.lookup id s.db_packages ≡ some tt
        → first_of_id id s.rows ≡ some pkg
        → remove_package io id s.rows ≡ (ok deleted, rows)
        → t ≡ record s { db_packages = Dict.remove id s.db_packages; rows = rows }
        → Step s t

  -- A step that ends in an error: of the walk, of a worker before or behind the lookup, of a removal,
  -- or of the semaphore. A push or a deletion that reports an error may have been processed.
  pub data Fault (s : Sync) (t : Sync) : Type 0 where
    walk_fault : s.filter ≡ asking → t ≡ record s { todo = []; failed = true } → Fault s t
    fetch_fault :
        (id : String) (ids : List String)
        → Take id s.fetching ids
        → t ≡ record s { fetching = ids; failed = true }
        → Fault s t
    push_fault :
        (io : Io) (id : String) (ids : List String)
        → Take id s.looked ids
        → t ≡ record s {
          looked = ids;
          rows = (add_package md5_hex io (pkg_of id) s.rows).1;
          failed = true;
        }
        → Fault s t
    remove_fault :
        (io : Io) (id : String)
        → s.removing ≡ true
        → Dict.lookup id s.db_packages ≡ some tt
        → t ≡ record s {
          db_packages = Dict.remove id s.db_packages;
          rows = (remove_package io id s.rows).1;
          failed = true;
        }
        → Fault s t
    acquire_fault : t ≡ record s { failed = true; stopped = true } → Fault s t

  pub data Steps (s : Sync) : Sync → Type 0 where
    start : Steps s s
    step : {t u : Sync} → Steps s t → Step t u → Steps s u
    fault : {t u : Sync} → Steps s t → Fault t u → Steps s u

-- A sync with the ids that the mirror lists.
abbrev pub begin : List String → Ids → Dict RepositoryPackage → Shown → Sync
begin upstream db_packages rows shown = record {
  todo = upstream;
  filter = asking;
  waiting = [];
  fetching = [];
  looked = [];
  pushed = [];
  mutex = unlocked;
  shown = shown;
  db_packages = db_packages;
  rows = rows;
  synced_packages = 0;
  removing = false;
  failed = false;
  stopped = false;
}
