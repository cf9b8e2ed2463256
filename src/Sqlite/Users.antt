-- ===== src/Sqlite/Users.antt =====
-- Any number of methods that use a database, and calls of `Close`, as interleaved steps: no method
-- runs a statement on a database that is not open.
use mathlib.Core.Path.{subst}
use beskar.Prelude.{ℕ, suc, ◌+◌, ◌-◌, ◌<◌, Bool, String, ◌≡◌, ◌∙◌, ap, sym, true, none, some, arith}
use beskar.Prelude.Outcome.{Err}
use beskar.Sqlite.{
  Db, Format, OpenIo, SyncIo, CloseIo, open_db, open_absent, open_file, pull, migrate, sync, push,
  close, delete,
}

-- `entered` methods have counted their reference and not opened the database, `opened` ones have, and
-- run their statements until they give their reference back.
pub record System : Type 0 where
  pub db : Db
  pub entered : ℕ
  pub opened : ℕ

-- `db.Reference.Add(1)` and `db.Reference.Add(-1)`.
abbrev pub add_reference : Db → Db
add_reference db = record db { reference = suc db.reference }

abbrev pub drop_reference : Db → Db
drop_reference db = record db { reference = db.reference - 1 }

-- A statement changes the file.
abbrev pub run_statement : String → Db → Db
run_statement content db = record db { disk = some content }

module _ (f : Format) where
  pub data Step (s : System) (t : System) : Type 0 where
    enter : t ≡ record s { db = add_reference s.db; entered = suc s.entered } → Step s t
    use_open :
        (n : ℕ) (io : OpenIo) (db : Db)
        → s.entered ≡ suc n
        → open_db f io s.db ≡ (none, db)
        → t ≡ record { db = db; entered = n; opened = suc s.opened }
        → Step s t
    use_fail :
        (n : ℕ) (io : OpenIo) (e : String) (db : Db)
        → s.entered ≡ suc n
        → open_db f io s.db ≡ (some e, db)
        → t ≡ record s { db = drop_reference db; entered = n }
        → Step s t
    statement :
        (n : ℕ) (content : String)
        → s.opened ≡ suc n
        → t ≡ record s { db = run_statement content s.db }
        → Step s t
    leave :
        (n : ℕ)
        → s.opened ≡ suc n
        → t ≡ record s { db = drop_reference s.db; opened = n }
        → Step s t
    sync_step : (io : SyncIo) → t ≡ record s { db = (sync f io s.db).1 } → Step s t
    close_step :
        (io : CloseIo) (remove_local_db : Bool)
        → t ≡ record s { db = (close io remove_local_db s.db).1 }
        → Step s t
    delete_step : (e : Err) → t ≡ record s { db = (delete e s.db).1 } → Step s t

  pub data Steps (s : System) : System → Type 0 where
    here : Steps s s
    next : {t u : System} → Steps s t → Step t u → Steps s u

-- The counter is the number of methods at work, and a method that has opened the database finds it
-- open.
pub record Inv (s : System) : Type 0 where
  pub counted : s.db.reference ≡ s.entered + s.opened
  pub held : 0 < s.opened → s.db.handle ≡ true

open_db-reference :
    (f : Format) (io : OpenIo) (db : Db) → (open_db f io db).1.reference ≡ db.reference
unfolding open_db open_absent open_file pull migrate
open_db-reference f io db = ground arith

-- A call that opens the database without an error leaves it open, and none closes it.
open_db-handle :
    (f : Format) (io : OpenIo) (db t : Db) → open_db f io db ≡ (none, t) → t.handle ≡ true
unfolding open_db open_absent open_file pull migrate
open_db-handle f io db t e = ground arith

open_db-open :
    (f : Format) (io : OpenIo) (db : Db) → db.handle ≡ true → (open_db f io db).1.handle ≡ true
unfolding open_db
open_db-open f io db h = rw h

close-reference :
    (io : CloseIo) (remove_local_db : Bool) (db : Db)
    → (close io remove_local_db db).1.reference ≡ db.reference
unfolding close
close-reference io remove_local_db db = ground arith

close-held :
    (io : CloseIo) (remove_local_db : Bool) (db : Db)
    → 0 < db.reference
    → (close io remove_local_db db).1 ≡ db
unfolding close
close-held io remove_local_db db h = ground arith

sync-reference : (f : Format) (io : SyncIo) (db : Db) → (sync f io db).1.reference ≡ db.reference
unfolding sync push
sync-reference f io db = ground arith

sync-handle : (f : Format) (io : SyncIo) (db : Db) → (sync f io db).1.handle ≡ db.handle
unfolding sync push
sync-handle f io db = ground arith

drop_reference-counted : (n m r : ℕ) → r ≡ suc n + m → r - 1 ≡ n + m
drop_reference-counted n m r e = omega arith

-- Each step keeps the count, and the database open under the methods that have opened it.
Step-Inv : (f : Format) {s t : System} → Inv s → Step f s t → Inv t
unfolding delete
Step-Inv f i (enter e) =
    subst Inv (sym e) (record { counted = ground (arith, i.counted); held = i.held })
Step-Inv f {s = s} i (use_open n io db h o e) = subst Inv (sym e) (record {
  counted = ground (arith, i.counted, ap (λ x. x.1.reference) (sym o), open_db-reference f io s.db);
  held = λ _. open_db-handle f io s.db db o;
})
Step-Inv f {s = s} i (use_fail n io x db h o e) = subst Inv (sym e) (record {
  counted = ground (arith, i.counted, ap (λ x. x.1.reference) (sym o), open_db-reference f io s.db);
  held = λ p. ap (λ x. x.1.handle) (sym o) ∙ open_db-open f io s.db (i.held p);
})
Step-Inv f i (statement n content h e) =
    subst Inv (sym e) (record { counted = i.counted; held = i.held })
Step-Inv f i (leave n h e) =
    subst Inv (sym e)
      (record { counted = ground (arith, i.counted); held = λ p. i.held (ground arith) })
Step-Inv f {s = s} i (sync_step io e) = subst Inv (sym e) (record {
  counted = sync-reference f io s.db ∙ i.counted;
  held = λ p. sync-handle f io s.db ∙ i.held p;
})
Step-Inv f {s = s} i (close_step io r e) = subst Inv (sym e) (record {
  counted = close-reference io r s.db ∙ i.counted;
  held = λ p. ap (λ x. x.handle) (close-held io r s.db (ground (arith, i.counted))) ∙ i.held p;
})
Step-Inv f i (delete_step none e) =
    subst Inv (sym e) (record { counted = i.counted; held = i.held })
Step-Inv f i (delete_step (some x) e) =
    subst Inv (sym e) (record { counted = i.counted; held = i.held })

Steps-reached :
    (f : Format) {s t : System}
    → s.db.reference ≡ 0
    → s.entered ≡ 0
    → s.opened ≡ 0
    → Steps f s t
    → Inv t
Steps-reached f r n o here = record {
  counted = ground (arith, r, n, o);
  held = λ h. absurd (ground (arith, o));
}
Steps-reached f r n o (next q step) = Step-Inv f (Steps-reached f r n o q) step

-- Once methods use the database only by counting their reference first, opening it, and giving the
-- reference back, after any steps from a database with no user the counter is the number of methods
-- at work; while one of them has opened the database, it is open, and closing it changes nothing.
pub users_find_open :
    (f : Format) (s t : System)
    → s.db.reference ≡ 0
    → s.entered ≡ 0
    → s.opened ≡ 0
    → Steps f s t
    → (t.db.reference ≡ t.entered + t.opened)
      × (0 < t.opened
          → (t.db.handle ≡ true)
            × ((io : CloseIo) (remove_local_db : Bool) → (close io remove_local_db t.db).1 ≡ t.db))
users_find_open f s t r n o p =
    let i : Inv t = Steps-reached f r n o p in
    (
      i.counted,
      λ h. (
        i.held h,
        λ io remove_local_db. close-held io remove_local_db t.db (ground (arith, i.counted)),
      ),
    )
