-- ===== src/Sqlite/Examples.antt =====
-- The theorems on the databases' files, at concrete inputs.
use beskar.Prelude.{◌<◌, ◌+◌, Bool, ◌≡◌, refl, true, false, none, some}
use beskar.Prelude.Result.{ok}
use beskar.Sqlite.{Db, Format, CloseIo, open_db, sync, close}
use beskar.Sqlite.Durable.{calm_open}
use beskar.Sqlite.Lost.{calm_sync, open_db_unreadable}
use beskar.Sqlite.Users.{System, Steps, enter, use_open, here, next, users_find_open}

-- A format in which a copy is the content itself.
abbrev plain : Format
plain = record {
  compress = λ content. content;
  decompress = λ object. ok object;
  migrated = λ disk. "schema";
}

abbrev calm_close : CloseIo
calm_close = record { close = none; remove = none }

abbrev opened_db : Db
opened_db = record { handle = true; reference = 0; disk = some "rows"; bucket = none }

abbrev synced_db : Db
synced_db = record opened_db { bucket = some "rows" }

abbrev stored_db : Db
stored_db = record synced_db { handle = false; disk = none }

abbrev opened_again : Db
opened_again = record stored_db { handle = true; disk = some "rows" }

open_db_unreadable_example :
    (t : Db) × (open_db plain (record calm_open { reader = some "timeout" }) stored_db ≡ (none, t))
    × (t.disk ≡ some "schema")
    × (u : Db) × (sync plain calm_sync t ≡ (none, u))
    × (u.bucket ≡ some "schema")
open_db_unreadable_example = open_db_unreadable plain "timeout" "rows" stored_db refl refl refl

abbrev idle : System
idle = record { db = stored_db; entered = 0; opened = 0 }

abbrev counted : System
counted = record idle { db = record stored_db { reference = 1 }; entered = 1 }

abbrev in_use : System
in_use = record {
  db = record { handle = true; reference = 1; disk = some "rows"; bucket = some "rows" };
  entered = 0;
  opened = 1;
}

open_counted : open_db plain calm_open counted.db ≡ (none, in_use.db)
unfolding open_db
open_counted = refl

counted_steps : Steps plain idle in_use
counted_steps =
    next (next here (enter refl)) (use_open 0 calm_open in_use.db refl open_counted refl)

users_find_open_example :
    (in_use.db.reference ≡ in_use.entered + in_use.opened)
    × (0 < 1
        → (true ≡ true)
          × ((io : CloseIo) (remove_local_db : Bool)
              → (close io remove_local_db in_use.db).1 ≡ in_use.db))
users_find_open_example = users_find_open plain idle in_use refl refl refl counted_steps
