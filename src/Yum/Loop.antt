-- ===== src/Yum/Loop.antt =====
-- `Start` and the event loop of internal/plugins/yum/pkg/yumrepository/handler.go.
pub mod Start
pub mod Failed
use beskar.Prelude.{
  ℕ, String, Bool, true, false, not, ◌&&◌, Option, none, some, List, [], ◌∷◌, if◌then◌else◌, ◌==◌,
  ltb, nat_eq, length,
}
use beskar.Prelude.Outcome.{Outcome, done, blocked, panic, ◌>>=◌, Err}
use beskar.Prelude.Result.{Result, ok, err}
use beskar.Event.{EventPayload}
use beskar.Repository.Queue.{RepoHandler, dequeue_events, event_queue_length, event_queue_update}
use beskar.Yum.Sql.{Io}
use beskar.Yum.Status.{Codec, Reposync, count_events, walk_events, set_created_property}
use beskar.Yum.Handler.{Handler, status, get_db, cleanup, update_syncing, QueueIo, queue_event}
use beskar.Yum.Properties.{InitIo, init_properties}
use beskar.Yum.Events.{EventIo, process_events}

pub record StartIo : Type 0 where
  pub mkdir : Err
  pub opening : Err
  pub init : InitIo
  pub count : Io
  pub walk : Io
  pub queue : QueueIo

-- The tests of `Start` on the stored sync status: a sync goes on only for a repository that has
-- mirror URLs, and for a mirror exactly when events are left.
unfoldable pub has_source : ℕ → Bool → Bool
has_source mirror_count syncing = if syncing && nat_eq mirror_count 0 then false else syncing

unfoldable pub resume_syncing : Bool → ℕ → Bool → Bool
resume_syncing mirror num_events syncing =
    if mirror
    then if not syncing && ltb 0 num_events
      then true
      else if nat_eq num_events 0 && syncing
      then false
      else syncing
    else syncing

-- A write through the pointer that `getReposync` returned, to the record that the handler holds.
unfoldable pub set_in_place : (Bool → Bool) → Handler → Handler
set_in_place f h = elim h.reposync [
  | none ↦ h
  | some r ↦ record h { reposync = some (record r { syncing = f r.syncing }) }
]

abbrev pub is_syncing : Option Reposync → Bool
is_syncing none = false
is_syncing (some r) = r.syncing

unfoldable pub settle : ℕ → ℕ → Handler → Outcome Handler
unfolding set_in_place resume_syncing update_syncing
settle now num_events h =
    let h1 = set_in_place (resume_syncing h.mirror num_events) h in
    update_syncing now (is_syncing h1.reposync) h1

-- The walk function: the last event so far, and the handler after each.
unfoldable pub requeue :
    QueueIo
    → Codec
    → EventPayload
    → Outcome (Option EventPayload × Handler)
    → Err × Outcome (Option EventPayload × Handler)
requeue io c event (done (last, h)) = elim (queue_event io c event false h) [
  | done (e, h') ↦ (e, done (some event, h'))
  | blocked ↦ (some "", blocked)
  | panic ↦ (some "", panic)
]
requeue io c event s = (some "", s)

-- A start that fails cleans up; the error is only logged.
unfoldable pub fail : String → Handler → Outcome (Result (Option EventPayload) × Handler)
fail e h = cleanup h >>= λ h'. done (err e, h')

-- One step of `Start`: its error ends the start.
abbrev pub check :
    Err × Handler
    → (Handler → Outcome (Result (Option EventPayload) × Handler))
    → Outcome (Result (Option EventPayload) × Handler)
check (some e, h) next = fail e h
check (none, h) next = next h

unfoldable pub queue_stored :
    StartIo → Codec → Handler → Outcome (Result (Option EventPayload) × Handler)
unfolding requeue
queue_stored io c h =
    let (e, s) = walk_events io.walk c (requeue io.queue c) h.status_db (done (none, h)) in
    s >>= λ (last, h'). check (e, h') (λ h'. done (ok last, h'))

unfoldable pub start_counted :
    StartIo → Codec → ℕ → Handler → Outcome (Result (Option EventPayload) × Handler)
start_counted io c now h = elim (count_events io.count h.status_db) [
  | err e ↦ fail e h
  | ok num_events ↦ settle now num_events h >>= queue_stored io c
]

-- `Start` at the time `now`, up to the loop: the last stored event, when the loop is started.
unfoldable pub start :
    StartIo → Codec → ℕ → Handler → Outcome (Result (Option EventPayload) × Handler)
unfolding has_source
start io c now h =
    check (io.mkdir, h)
      λ h0. check (get_db status io.opening h0) λ h1.
        check (init_properties io.init h1)
          λ h2. start_counted io c now (set_in_place (has_source (length h2.mirror_urls)) h2)

-- `events[len(events)-1]`, which panics when there are no events.
unfoldable pub last_event : List EventPayload → Option EventPayload
last_event [] = none
last_event (event ∷ []) = some event
last_event (event ∷ next ∷ rest) = last_event (next ∷ rest)

-- `h.syncCh <- nil`
unfoldable pub request_sync : Handler → Outcome Handler
request_sync h =
    if h.sync_ch_closed
    then panic
    else elim h.sync_ch [ none ↦ done (record h { sync_ch = some none }) | some _ ↦ blocked ]

-- The restart of the sync, once the last event of the database has been processed.
unfoldable pub resume_sync :
    List EventPayload → Option EventPayload → Handler → Outcome (Option EventPayload × Handler)
unfolding last_event request_sync
resume_sync events none h = done (none, h)
resume_sync events (some last_index) h = elim (last_event events) [
  | none ↦ panic
  | some event ↦
      if event.digest == last_index.digest
      then (request_sync h >>= λ h'. done (none, h'))
      else done (some last_index, h)
]

unfoldable pub mark_created : Io → Handler → Handler
mark_created io h =
    if h.created
    then h
    else record h { created = true; status_db = (set_created_property io h.status_db).1 }

-- The case `<-h.Queued` of the loop, after the receive.
unfoldable pub on_queued :
    EventIo → Io → Option EventPayload → Handler → Outcome (Option EventPayload × Handler)
unfolding mark_created resume_sync
on_queued io created last_index h =
    let (events, repo) = dequeue_events h.repo in
    process_events io events (mark_created created (record h { repo = repo })) >>= λ h1.
    resume_sync events last_index h1 >>= λ (last, h2).
    if ltb 0 (event_queue_length h2.repo)
    then (event_queue_update h2.repo >>= λ repo. done (last, record h2 { repo = repo }))
    else done (last, h2)
