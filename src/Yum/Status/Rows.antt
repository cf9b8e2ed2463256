-- ===== src/Yum/Status/Rows.antt =====
-- What the operations of the status database do to its rows.
use beskar.Prelude.{
  ℕ, suc, ◌+◌, length, String, ◌≡◌, true, none, some, [], ◌∷◌, arith, if◌then◌else◌, ◌==◌, has,
}
use beskar.Prelude.Dict
use beskar.Prelude.Dict.{Dict, lookup-insert, lookup-remove}
use beskar.Prelude.Outcome.{Err}
use beskar.Prelude.Result.{ok}
use beskar.Event.{EventPayload, event_id}
use beskar.Yum.Sql.{Io, exec_one-ok}
use beskar.Yum.Status.{StatusDb, Codec, add_event, remove_event, walk_rows}

-- A stored event has the row of its id, and every other row stays.
pub lookup-add_event :
    (io : Io) (c : Codec) (event : EventPayload) (db t : StatusDb) (payload id : String)
    → add_event io c event db ≡ (none, t)
    → c.marshal event ≡ ok payload
    → Dict.lookup id t.events
      ≡ (if event_id event == id then some payload else Dict.lookup id db.events)
unfolding add_event
lookup-add_event io c event db t payload id h m =
    let e : t ≡ record db { events = Dict.insert (event_id event) payload db.events } =
      (exec_one-ok io 1 "event not inserted into status database" db
        (record db { events = Dict.insert (event_id event) payload db.events }) t
        (rw (m, add_event) at h)).1 in
    rw e (lookup-insert (event_id event) id payload db.events)

-- An event that was removed without an error was there, is gone, and every other row stays.
pub lookup-remove_event :
    (io : Io) (event : EventPayload) (db t : StatusDb) (id : String)
    → remove_event io event db ≡ (none, t)
    → (has (Dict.lookup (event_id event) db.events) ≡ true)
      × (Dict.lookup id t.events
          ≡ (if event_id event == id then none else Dict.lookup id db.events))
unfolding remove_event
lookup-remove_event io event db t id h =
    let (one, e) =
      exec_one-ok io (if has (Dict.lookup (event_id event) db.events) then 1 else 0) _ db
        (record db { events = Dict.remove (event_id event) db.events }) t h in
    (ground arith, rw e (lookup-remove (event_id event) id db.events))

-- `CountEvents` and `WalkEvents` read the same rows: a walk that reports no error has called the
-- walk function on as many events as are counted.
counted : EventPayload → ℕ → Err × ℕ
counted event n = (none, suc n)

walk_rows-length :
    (c : Codec) (rows : Dict String) (n m : ℕ)
    → walk_rows c counted rows n ≡ (none, m)
    → m ≡ n + length rows
unfolding walk_rows counted
walk_rows-length c [] n m h = ground arith
walk_rows-length c ((id, payload) ∷ rows) n m h = ground (arith, walk_rows-length c rows (suc n) m)
