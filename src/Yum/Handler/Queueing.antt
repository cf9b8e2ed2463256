-- ===== src/Yum/Handler/Queueing.antt =====
-- What `QueueEvent` does on every branch.
use beskar.Prelude.{String, ◌≡◌, ◌⊎◌, Bool, true, false, none, some, [], ◌∷◌, ◌++◌, arith}
use beskar.Prelude.Dict
use beskar.Prelude.Dict.{Dict, lookup-insert_self, lookup-insert}
use beskar.Prelude.Outcome.{done, Err}
use beskar.Prelude.Result.{ok}
use beskar.Event.{EventPayload, event_id, is_plugin}
use beskar.Repository.Queue.{enqueue_event}
use beskar.Yum.Sql.{exec_one}
use beskar.Yum.Status.{Codec, add_event}
use beskar.Yum.Handler.{Handler, get_db, QueueIo, store_event, enqueue, queue_event}

module _ (io : QueueIo) (c : Codec) (event : EventPayload) where
  -- The queue and the row after an event was stored.
  store_event-ok :
      (h k : Handler) (payload : String)
      → c.marshal event ≡ ok payload
      → store_event io c event h ≡ (none, k)
      → (k.repo ≡ h.repo)
        × (k.status_db.events ≡ Dict.insert (event_id event) payload h.status_db.events)
  unfolding store_event add_event exec_one get_db
  store_event-ok h k payload m e = ground arith

  pub store_event-repo : (h : Handler) → (store_event io c event h).1.repo ≡ h.repo
  unfolding store_event add_event exec_one get_db
  store_event-repo h = ground arith

  enqueue-ok :
      (h k : Handler) (e : Err)
      → enqueue event h ≡ done (e, k)
      → (e ≡ none)
        × (k.repo.queue ≡ h.repo.queue ++ event ∷ [])
        × (k.repo.queued ≡ true)
        × (k.status_db ≡ h.status_db)
  unfolding enqueue enqueue_event
  enqueue-ok h k e p = ground arith

  -- An event that can be marshalled and is accepted to be stored is from a plugin or goes to a
  -- repository that is no mirror; it stands in the status database and at the end of the queue, and
  -- the loop is told.
  pub queue_event-stored :
      (h k : Handler) (payload : String)
      → c.marshal event ≡ ok payload
      → queue_event io c event true h ≡ done (none, k)
      → ((h.mirror ≡ false) ⊎ (is_plugin event.origin ≡ true))
        × (Dict.lookup (event_id event) k.status_db.events ≡ some payload)
        × (k.repo.queue ≡ h.repo.queue ++ event ∷ [])
        × (k.repo.queued ≡ true)
  unfolding queue_event
  queue_event-stored h k payload m p = ground (
    arith,
    store_event-ok h (store_event io c event h).1 payload,
    enqueue-ok (store_event io c event h).1 k none,
    lookup-insert_self (event_id event) payload h.status_db.events,
  )

  -- An event that is refused leaves the queue and its token as they were.
  pub queue_event-refused :
      (store : Bool) (h k : Handler) (e : String)
      → queue_event io c event store h ≡ done (some e, k)
      → k.repo ≡ h.repo
  unfolding queue_event
  queue_event-refused store h k e p = ground (
    arith,
    store_event-repo h,
    enqueue-ok (store_event io c event h).1 k (some e),
    enqueue-ok h k (some e),
  )
