-- ===== src/Yum/Status.antt =====
-- internal/plugins/yum/pkg/yumdb/status.go: the status database, with the queued events and one
-- row each of properties and of the sync status (row 1, made by the schema).
-- SQLite, its driver and protobuf are outside the repository: whether the database opens and
-- whether a statement fails are arguments, and a statement that runs does what its SQL says.
pub mod Rows
use Prim.Native.String.{◌++◌ as str_append}
use beskar.Prelude.{
  ℕ, suc, String, Bool, true, false, Option, none, some, List, [], ◌∷◌, if◌then◌else◌, length, has,
  nat_eq,
}
use beskar.Prelude.Dict
use beskar.Prelude.Dict.{Dict}
use beskar.Prelude.Outcome.{Err}
use beskar.Prelude.Result.{Result, ok, err}
use beskar.Yum.Sql.{Io, exec_one, query_row, count_rows}
use beskar.Event.{EventPayload, event_id}

pub record Properties : Type 0 where
  pub created : Bool
  pub mirror : Bool
  pub mirror_urls : String
  pub gpg_key : String

pub record Reposync : Type 0 where
  pub syncing : Bool
  pub start_time : ℕ
  pub end_time : ℕ
  pub total_packages : ℕ
  pub synced_packages : ℕ
  pub sync_error : String

-- The rows; the order of the events is that of the table.
pub record StatusDb : Type 0 where
  pub events : Dict String
  pub properties : Option Properties
  pub reposync : Option Reposync

-- proto.Marshal and proto.Unmarshal.
pub record Codec : Type 0 where
  pub marshal : EventPayload → Result String
  pub unmarshal : String → Result EventPayload

-- INSERT INTO events VALUES(:id, :payload) ON CONFLICT (id) DO UPDATE SET payload = :payload
unfoldable pub add_event : Io → Codec → EventPayload → StatusDb → Err × StatusDb
unfolding exec_one
add_event io c event db = elim (c.marshal event) [
  | err e ↦ (some e, db)
  | ok payload ↦
      exec_one io 1 "event not inserted into status database" db
        (record db { events = Dict.insert (event_id event) payload db.events })
]

-- DELETE FROM events WHERE id = :id; `id` is the primary key.
unfoldable pub remove_event : Io → EventPayload → StatusDb → Err × StatusDb
unfolding exec_one
remove_event io event db =
    let id = event_id event in
    exec_one io (if has (Dict.lookup id db.events) then 1 else 0)
      (str_append "event id " (str_append id " not present in status database")) db
      (record db { events = Dict.remove id db.events })

-- The loop of `WalkEvents` over the rows, with the state that the walk function changes.
unfoldable pub walk_rows {ℓ} :
    {S : Type ℓ} → Codec → (EventPayload → S → Err × S) → Dict String → S → Err × S
walk_rows c walk_fn [] s = (none, s)
walk_rows c walk_fn ((id, payload) ∷ rows) s = elim (c.unmarshal payload) [
  | err e ↦ (some e, s)
  | ok event ↦
      let (e, s') = walk_fn event s in
      elim e [ some e ↦ (some e, s') | none ↦ walk_rows c walk_fn rows s' ]
]

-- SELECT * FROM events
unfoldable pub walk_events {ℓ} :
    {S : Type ℓ} → Io → Codec → (EventPayload → S → Err × S) → StatusDb → S → Err × S
unfolding walk_rows
walk_events io c walk_fn db s = elim io.opening [
  | some e ↦ (some e, s)
  | none ↦ elim io.exec [ some e ↦ (some e, s) | none ↦ walk_rows c walk_fn db.events s ]
]

-- SELECT COUNT(id) FROM events
unfoldable pub count_events : Io → StatusDb → Result ℕ
unfolding count_rows
count_events io db = count_rows io (length db.events)

unfoldable pub get_properties : Io → StatusDb → Result Properties
unfolding query_row
get_properties io db = query_row io "failed to retrieve repository properties" db.properties

unfoldable pub get_reposync : Io → StatusDb → Result Reposync
unfolding query_row
get_reposync io db = query_row io "failed to retrieve reposync data" db.reposync

unfoldable pub update_properties : Io → Properties → StatusDb → Err × StatusDb
unfolding exec_one
update_properties io p db =
    exec_one io (if has db.properties then 1 else 0) "properties not updated in status database" db
      (record db { properties = if has db.properties then some p else none })

unfoldable pub set_created_property : Io → StatusDb → Err × StatusDb
unfolding exec_one
set_created_property io db =
    exec_one io (if has db.properties then 1 else 0) "properties not updated in status database" db
      (record db {
        properties = elim db.properties [
          | none ↦ none
          | some p ↦ some (record p { created = true })
        ];
      })

unfoldable pub update_reposync : Io → Reposync → StatusDb → Err × StatusDb
unfolding exec_one
update_reposync io r db =
    exec_one io (if has db.reposync then 1 else 0) "reposync not updated in status database" db
      (record db { reposync = if has db.reposync then some r else none })
