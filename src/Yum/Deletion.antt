-- ===== src/Yum/Deletion.antt =====
-- internal/plugins/yum/pkg/yumrepository/api.go: the packages of `DeleteRepository`. The walk over
-- the rows starts a worker for each of them (removePackageFromBeskar), which has the manifest deleted
-- and waits until the event loop of the handler has removed the row.
-- Outside the repository: a database has one connection (SetMaxOpenConns(1) in
-- internal/pkg/sqlite/db.go), which the rows of a query hold until they are read to the end or
-- closed, as database/sql documents. So the event loop removes no row while the walk goes on. An
-- error while a row is fetched, which the walk does not ask for, is left out.
pub mod Many
pub mod Complete
mod Examples
use beskar.Prelude.{ℕ, ◌<◌, String, Bool, true, false, ◌≡◌, List, [], ◌∷◌, map, length}
use beskar.Prelude.Dict.{Dict}
use beskar.Prelude.Result.{ok}
use beskar.Yum.Sql.{Io}
use beskar.Yum.Packages.{RepositoryPackage, remove_package}
use beskar.Yum.Reposync.{Take}

-- `todo` are the ids of the rows that the walk has not read, and `walking` says that it is open.
-- The workers of `asked` wait for an answer; those of `late` have given up, and the event loop has
-- not come to their event yet.
pub record Deletion : Type 0 where
  pub todo : List String
  pub walking : Bool
  pub asked : List String
  pub late : List String
  pub rows : Dict RepositoryPackage
  pub failed : Bool

-- `semaphore.NewWeighted(100)`
abbrev pub max_parallel : ℕ
max_parallel = 100

-- A step that meets no error.
pub data Step (s : Deletion) (t : Deletion) : Type 0 where
  read :
      (id : String) (ids : List String)
      → s.walking ≡ true
      → s.todo ≡ id ∷ ids
      → length s.asked < max_parallel
      → t ≡ record s { todo = ids; asked = id ∷ s.asked }
      → Step s t
  read_end : s.walking ≡ true → s.todo ≡ [] → t ≡ record s { walking = false } → Step s t
  removed :
      (io : Io) (id : String) (ids : List String) (deleted : Bool) (rows : Dict RepositoryPackage)
      → s.walking ≡ false
      → Take id s.asked ids
      → remove_package io id s.rows ≡ (ok deleted, rows)
      → t ≡ record s { asked = ids; rows = rows }
      → Step s t

-- A worker's calls are refused, it waits for longer than a minute, the removal of its row fails, or
-- the walk is cut off; the event of a worker that has given up is processed all the same.
pub data Fault (s : Deletion) (t : Deletion) : Type 0 where
  refused :
      (id : String) (ids : List String)
      → Take id s.asked ids
      → t ≡ record s { asked = ids; failed = true }
      → Fault s t
  timeout :
      (id : String) (ids : List String)
      → Take id s.asked ids
      → t ≡ record s { asked = ids; late = id ∷ s.late; failed = true }
      → Fault s t
  not_removed :
      (io : Io) (id : String) (ids : List String)
      → s.walking ≡ false
      → Take id s.asked ids
      → t ≡ record s { asked = ids; rows = (remove_package io id s.rows).1; failed = true }
      → Fault s t
  cut_off :
      s.walking ≡ true → t ≡ record s { walking = false; todo = []; failed = true } → Fault s t
  removed_late :
      (io : Io) (id : String) (ids : List String)
      → s.walking ≡ false
      → s.failed ≡ true
      → Take id s.late ids
      → t ≡ record s { late = ids; rows = (remove_package io id s.rows).1 }
      → Fault s t

pub data Steps (s : Deletion) : Deletion → Type 0 where
  start : Steps s s
  step : {t u : Deletion} → Steps s t → Step t u → Steps s u
  fault : {t u : Deletion} → Steps s t → Fault t u → Steps s u

abbrev pub begin : Dict RepositoryPackage → Deletion
begin rows = record {
  todo = map (λ e. e.1.id) rows;
  walking = true;
  asked = [];
  late = [];
  rows = rows;
  failed = false;
}
