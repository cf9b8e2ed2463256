-- ===== src/Sqlite/Lost.antt =====
-- How the content of a database can be lost.
use beskar.Prelude.{String, ◌≡◌, refl, true, false, none, some, arith}
use beskar.Sqlite.{Db, Format, SyncIo, open_db, open_absent, open_file, pull, migrate, sync, push}
use beskar.Sqlite.Durable.{calm_open}

abbrev pub calm_sync : SyncIo
calm_sync = record {
  writer = none;
  file = none;
  copy = none;
  close_lz4 = none;
  close_writer = none;
}

-- When the object of a database cannot be read once, and nothing else fails, opening the database on
-- a machine without the file reports no error: the database is a new one, and the next sync replaces
-- the object by the new one.
pub open_db_unreadable :
    (f : Format) (e object : String) (db : Db)
    → db.handle ≡ false
    → db.disk ≡ none
    → db.bucket ≡ some object
    → let fresh : String = f.migrated none in
      (t : Db) × (open_db f (record calm_open { reader = some e }) db ≡ (none, t))
      × (t.disk ≡ some fresh)
      × (u : Db) × (sync f calm_sync t ≡ (none, u))
      × (u.bucket ≡ some (f.compress fresh))
unfolding open_db open_absent open_file migrate sync push
open_db_unreadable f e object db h d b =
    let fresh : String = f.migrated none in
    let t : Db = record db { handle = true; disk = some fresh } in
    (t, ground arith, refl, record t { bucket = some (f.compress fresh) }, refl, refl)

-- When the download of the object breaks off, opening the database fails, and opening it again
-- reports no error with the part that was written, on which no migration has run.
pub open_db_partial :
    (f : Format) (e object written : String) (db : Db)
    → db.handle ≡ false
    → db.disk ≡ none
    → db.bucket ≡ some object
    → (t : Db) × (open_db f (record calm_open { copy = some (written, e) }) db ≡ (some e, t))
      × (u : Db) × (open_db f calm_open t ≡ (none, u))
      × (u.handle ≡ true)
      × (u.disk ≡ some written)
unfolding open_db open_absent open_file pull
open_db_partial f e object written db h d b =
    let t : Db = record db { disk = some written } in
    (t, ground arith, record t { handle = true }, ground arith, refl, refl)

-- When reading the file breaks off and closing the writers works, a sync reports the error and has
-- replaced the object by the part that was read; when the file is not there, by an empty object.
pub sync_failed :
    (f : Format) (e read content : String) (db : Db)
    → ((t : Db) × (sync f
            (record calm_sync { copy = some (read, e) })
            (record db { disk = some content })
          ≡ (some e, t))
        × (t.bucket ≡ some (f.compress read)))
      × ((u : Db) × (m : String) × (sync f calm_sync (record db { disk = none }) ≡ (some m, u))
          × (u.bucket ≡ some ""))
unfolding sync push
sync_failed f e read content db = ((_, refl, refl), (_, _, refl, refl))
