-- ===== src/Yum/Handler.antt =====
-- internal/plugins/yum/pkg/yumrepository/handler.go: the handler of a yum repository, without its
-- event loop (Yum/Loop, Yum/Events) and the sync operation.
-- Calls of other packages that can fail are arguments: the opening of a database, the statements
-- (Yum/Sql), the copy of a database to the bucket (`sync`), and what parsing a value returns.
-- The mutexes guard single reads and writes, so each of these is one step.

pub mod Queueing
pub mod Cleanup
use beskar.Prelude.{
  ℕ, String, Bool, true, false, not, ◌&&◌, Option, none, some, List, [], ◌∷◌, ◌++◌, if◌then◌else◌,
  ◌==◌,
}
use beskar.Prelude.Outcome.{Outcome, done, panic, ◌>>=◌, Err}
use beskar.Prelude.Result.{Result, ok, err}
use beskar.Event.{EventPayload, is_plugin}
use beskar.Repository.Queue.{RepoHandler, enqueue_event}
use beskar.Repository.Artifacts.{Artifacts}
use beskar.Prelude.Dict.{Dict}
use beskar.Yum.Sql.{Io}
use beskar.Yum.Packages.{RepositoryPackage}
use beskar.Yum.Metadata.{PackageMetadata, ExtraMetadata}
use beskar.Yum.Status.{StatusDb, Codec, Reposync, add_event, get_properties, get_reposync}

pub data Database : Type 0 where
  repository metadata status log : Database

-- `opened` says which database pointers are set; `closed` and `deleted` are the calls of
-- `Close(true)` and `Delete` in their order; `sync_ch` is what the channel of capacity 1 holds,
-- a channel to answer on or nil; `removed` is set when the handler left the manager's table.
-- `manifest_deletes` and `metadata_pushes` record the calls of `DeleteManifest`, by their reference,
-- and of `generateAndPushMetadata`.
pub record Handler : Type 0 where
  pub repository_name : String
  pub repo : RepoHandler
  pub artifacts : Artifacts
  pub opened : Database → Bool
  pub status_db : StatusDb
  pub packages : Dict RepositoryPackage
  pub package_metadata : Dict PackageMetadata
  pub extra_metadata : Dict ExtraMetadata
  pub sync_ch : Option (Option ℕ)
  pub sync_ch_closed : Bool
  pub reposync : Option Reposync
  pub syncing : Bool
  pub created : Bool
  pub mirror : Bool
  pub keyring : Option String
  pub mirror_urls : List String
  pub delete : Bool
  pub closed : List Database
  pub deleted : List Database
  pub removed : Bool
  pub manifest_deletes : List String
  pub metadata_pushes : ℕ

abbrev pub same : Database → Database → Bool
same repository repository = true
same metadata metadata = true
same status status = true
same log log = true
same _ _ = false

-- `getRepositoryDB`, `getMetadataDB`, `getStatusDB` and `getLogDB`, which differ in the field.
unfoldable pub get_db : Database → Err → Handler → Err × Handler
get_db d opening h = if h.opened d then (none, h) else elim opening [
  | some e ↦ (some e, h)
  | none ↦ (none, record h { opened = λ x. if same d x then true else h.opened x })
]

-- What `QueueEvent` meets: the opening of the status database, the insertion, the copy.
pub record QueueIo : Type 0 where
  pub opening : Err
  pub add : Io
  pub sync : Err

-- The part of `QueueEvent` that stores the event.
unfoldable pub store_event : QueueIo → Codec → EventPayload → Handler → Err × Handler
unfolding get_db
store_event io c event h =
    let (e, h1) = get_db status io.opening h in
    elim e [
      | some e ↦ (some e, h1)
      | none ↦
          let (e, db) = add_event io.add c event h1.status_db in
          let h2 : Handler = record h1 { status_db = db } in
          elim e [
            | some e ↦ (some e, h2)
            | none ↦ elim io.sync [ some e ↦ (some e, h2) | none ↦ (none, h2) ]
          ]
    ]

abbrev pub not_supported : String
not_supported = "operation not supported for repository configured as mirror"

unfoldable pub enqueue : EventPayload → Handler → Outcome (Err × Handler)
enqueue event h = do repo ← enqueue_event event h.repo; done (none, record h { repo = repo })

unfoldable pub queue_event :
    QueueIo → Codec → EventPayload → Bool → Handler → Outcome (Err × Handler)
queue_event io c event store h =
    if h.mirror && not (is_plugin event.origin)
    then done (some not_supported, h)
    else if store
    then (let (e, h') = store_event io c event h in
        elim e [ some e ↦ done (some e, h') | none ↦ enqueue event h' ])
    else enqueue event h

-- One database of `cleanup`; the errors of `Close` and `Delete` are only logged.
unfoldable pub cleanup_db : Database → Handler → Handler
cleanup_db d h =
    if h.opened d
    then record h {
      closed = h.closed ++ d ∷ [];
      deleted = if h.delete then h.deleted ++ d ∷ [] else h.deleted;
    }
    else h

unfoldable pub cleanup_dbs : Handler → Handler
cleanup_dbs h = cleanup_db metadata (cleanup_db repository (cleanup_db status (cleanup_db log h)))

-- `close(h.Queued)` and `close(h.syncCh)`, which panic on a closed channel.
unfoldable pub cleanup : Handler → Outcome Handler
cleanup h =
    let h4 = cleanup_dbs h in
    if h4.repo.queued_closed
    then panic
    else if h4.sync_ch_closed
    then panic
    else done (record h4 {
      repo = record h4.repo { queued_closed = true };
      sync_ch_closed = true;
      removed = true;
    })

-- `updateSyncing` at the time `now`; `*h.getReposync()` panics on the nil pointer.
unfoldable pub update_syncing : ℕ → Bool → Handler → Outcome Handler
update_syncing now syncing h = elim h.reposync [
  | none ↦ panic
  | some r ↦
      let r1 : Reposync = record r { syncing = syncing } in
      let r2 : Reposync =
        if syncing && not r.syncing
        then record r1 { start_time = now; sync_error = "" }
        else if not syncing && r.syncing
        then record r1 { end_time = now }
        else r1 in
      done (record h { syncing = syncing; reposync = some r2 })
]
