-- ===== src/Sqlite.antt =====
-- internal/pkg/sqlite: a SQLite database in a local file with a compressed copy in an object storage
-- bucket (db.go and storage.go).
-- Outside the repository, and so arguments: lz4, what the migrations make of a file, and the errors
-- of the file system, of the bucket and of the driver. A blob writer stores what was written to it
-- when it is closed, as gocloud.dev documents, unless closing it fails. A lock makes each call one
-- step; the files of one database have one path.
pub mod Durable
pub mod Lost
pub mod Users
mod Examples
use beskar.Prelude.{String, ℕ, Bool, true, false, ◌&&◌, Option, none, some, if◌then◌else◌, nat_eq}
use beskar.Prelude.Outcome.{Err}
use beskar.Prelude.Result.{Result, ok, err}

-- `handle` says whether `db.DB` is set, `disk` is the local file and `bucket` the object.
pub record Db : Type 0 where
  pub handle : Bool
  pub reference : ℕ
  pub disk : Option String
  pub bucket : Option String

pub record Format : Type 0 where
  pub compress : String → String
  pub decompress : String → Result String
  pub migrated : Option String → String

-- What a copy meets: nothing, or an error after it has written some text.
abbrev pub Copy : Type 0
Copy = Option (String × String)

pub record OpenIo : Type 0 where
  pub stat : Err
  pub mkdir : Err
  pub reader : Err
  pub create : Err
  pub copy : Copy
  pub close_file : Err
  pub sql : Err
  pub migration : Err

unfoldable pub migrate : Format → Err → Db → Err × Db
migrate f migration db = elim migration [
  | some e ↦ (some e, db)
  | none ↦ (none, record db { disk = some (f.migrated db.disk) })
]

-- `pull`: the file is created before the copy, and stays when the copy fails.
unfoldable pub pull : Format → OpenIo → String → Db → Err × Db
pull f io object db = elim io.create [
  | some e ↦ (some e, db)
  | none ↦ elim io.copy [
    | some (written, e) ↦ (some e, record db { disk = some written })
    | none ↦ elim (f.decompress object) [
      | err e ↦ (some e, record db { disk = some "" })
      | ok content ↦ (io.close_file, record db { disk = some content })
    ]
  ]
]

-- The end of `Open`: the handle stays set when the migration fails.
unfoldable pub open_file : Format → OpenIo → Bool → Db → Err × Db
unfolding migrate
open_file f io migrates db = elim io.sql [
  | some e ↦ (some e, db)
  | none ↦
      let db1 : Db = record db { handle = true } in
      if migrates then migrate f io.migration db1 else (none, db1)
]

-- The branch of `Open` for a file that is not there: any error of the reader means a new database.
unfoldable pub open_absent : Format → OpenIo → Db → Err × Db
unfolding pull open_file
open_absent f io db = elim io.mkdir [
  | some e ↦ (some e, db)
  | none ↦ elim db.bucket [
    | none ↦ open_file f io true db
    | some object ↦ elim io.reader [
      | some e ↦ open_file f io true db
      | none ↦
          let (e, db1) = pull f io object db in
          elim e [ some e ↦ (some e, db1) | none ↦ open_file f io false db1 ]
    ]
  ]
]

unfoldable pub open_db : Format → OpenIo → Db → Err × Db
unfolding open_absent open_file
open_db f io db = if db.handle then (none, db) else elim io.stat [
  | some e ↦ (some e, db)
  | none ↦ elim db.disk [ none ↦ open_absent f io db | some _ ↦ open_file f io false db ]
]

-- `New` applies the migrations to the database that `Open` has opened.
unfoldable pub new : Format → OpenIo → Err → Db → Err × Db
unfolding open_db migrate
new f io migration db =
    let (e, db1) = open_db f io db in
    elim e [ some e ↦ (some e, db1) | none ↦ migrate f migration db1 ]

pub record SyncIo : Type 0 where
  pub writer : Err
  pub file : Err
  pub copy : Copy
  pub close_lz4 : Err
  pub close_writer : Err

-- `push`: its error, and what it has written to the bucket's writer. The lz4 writer is closed also
-- after an error of the copy.
unfoldable pub push : Format → SyncIo → Option String → Err × String
push f io none = (some "no such file or directory", "")
push f io (some content) = elim io.file [
  | some e ↦ (some e, "")
  | none ↦ elim io.copy [
    | some (read, e) ↦ (some e, f.compress read)
    | none ↦ (io.close_lz4, f.compress content)
  ]
]

abbrev pub store : Err → String → Db → Db
store (some e) object db = db
store none object db = record db { bucket = some object }

unfoldable pub sync : Format → SyncIo → Db → Err × Db
unfolding push
sync f io db = elim io.writer [
  | some e ↦ (some e, db)
  | none ↦
      let (e, written) = push f io db.disk in
      let db1 = store io.close_writer written db in
      elim e [ some e ↦ (some e, db1) | none ↦ (io.close_writer, db1) ]
]

pub record CloseIo : Type 0 where
  pub close : Err
  pub remove : Err

-- `Close` does nothing while a method holds a reference.
unfoldable pub close : CloseIo → Bool → Db → Err × Db
close io remove_local_db db =
    if db.handle && nat_eq db.reference 0
    then if remove_local_db
      then elim io.remove [
        | some e ↦ (elim io.close [ some c ↦ some c | none ↦ some e ], record db { handle = false })
        | none ↦ (io.close, record db { handle = false; disk = none })
      ]
      else (io.close, record db { handle = false })
    else (none, db)

unfoldable pub delete : Err → Db → Err × Db
delete (some e) db = (some e, db)
delete none db = (none, record db { bucket = none })
