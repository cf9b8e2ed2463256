-- ===== src/Yum/Loop/Failed.antt =====
-- What a failed start leaves behind. The manager hands the handler out all the same, since a failed
-- start closes `startedCh` and does not set `Stopped`.
use beskar.Prelude.{
  ℕ, ◌≡◌, ◌⊎◌, inl, inr, ap, String, Bool, true, false, Option, none, some, arith, if◌then◌else◌,
}
use beskar.Prelude.Outcome.{Outcome, done, panic, >>=-eq-done, Err}
use beskar.Prelude.Result.{Result, ok, err, Result-cases}
use beskar.Event.{EventPayload, is_plugin}
use beskar.Repository.Queue.{RepoHandler, enqueue_event}
use beskar.Yum.Status.{Codec, count_events, walk_events}
use beskar.Yum.Handler.{
  Handler, status, get_db, cleanup, QueueIo, store_event, enqueue, queue_event,
}
use beskar.Yum.Handler.Queueing.{store_event-repo}
use beskar.Yum.Handler.Cleanup.{cleanup-queued_closed}
use beskar.Yum.Properties.{init_properties}
use beskar.Yum.Loop.{
  StartIo, fail, check, requeue, settle, set_in_place, has_source, queue_stored, start_counted,
  start,
}

abbrev Started : Type 0
Started = Outcome (Result (Option EventPayload) × Handler)

-- When the start ends in an error, the queue's channel is closed.
abbrev Closes : Started → Type 0
Closes o = (e : String) (k : Handler) → o ≡ done (err e, k) → k.repo.queued_closed ≡ true

fail-Closes : (e : String) (h : Handler) → Closes (fail e h)
unfolding fail
fail-Closes e h x k p =
    let (h', d, q) = >>=-eq-done (cleanup h) _ p in ground (arith, cleanup-queued_closed h h' d, q)

check-Closes :
    (r : Err × Handler) (next : Handler → Started)
    → ((h : Handler) → Closes (next h))
    → Closes (check r next)
check-Closes (some e, h) next f = fail-Closes e h
check-Closes (none, h) next f = f h

queue_stored-Closes : (io : StartIo) (c : Codec) (h : Handler) → Closes (queue_stored io c h)
unfolding queue_stored
queue_stored-Closes io c h e k p =
    let w : Err × Outcome (Option EventPayload × Handler) =
      walk_events io.walk c (requeue io.queue c) h.status_db (done (none, h)) in
    let (r, d, q) = >>=-eq-done w.1 _ p in
    check-Closes (w.0, r.1) (λ h'. done (ok r.0, h')) (λ h' x k' e'. absurd (ground arith)) e k q

start_counted-Closes :
    (io : StartIo) (c : Codec) (now : ℕ) (h : Handler) → Closes (start_counted io c now h)
unfolding start_counted
start_counted-Closes io c now h e k p = elim (Result-cases (count_events io.count h.status_db)) [
  | inl (n, r) ↦
      let (h', d, q) = >>=-eq-done (settle now n h) _ (rw (r, start_counted) at p) in
      queue_stored-Closes io c h' e k q
  | inr (x, r) ↦ fail-Closes x h e k (rw (r, start_counted) at p)
]

start-Closes : (io : StartIo) (c : Codec) (now : ℕ) (h : Handler) → Closes (start io c now h)
unfolding start
start-Closes io c now h =
    check-Closes (io.mkdir, h) _
      λ h0. check-Closes (get_db status io.opening h0) _ λ h1.
        check-Closes (init_properties io.init h1) _
          λ h2. start_counted-Closes io c now (set_in_place (has_source _) h2)

store_event-queued_closed :
    (io : QueueIo) (c : Codec) (event : EventPayload) (h : Handler)
    → (store_event io c event h).1.repo.queued_closed ≡ h.repo.queued_closed
store_event-queued_closed io c event h =
    ap (λ (r : RepoHandler). r.queued_closed) (store_event-repo io c event h)

closed-panic :
    (io : QueueIo) (c : Codec) (event : EventPayload) (store : Bool) (h : Handler)
    → h.repo.queued_closed ≡ true
    → (h.mirror ≡ false) ⊎ (is_plugin event.origin ≡ true)
    → queue_event io c event store h ≡ (
        if store
        then elim (store_event io c event h).0 [
          | some e ↦ done (some e, (store_event io c event h).1)
          | none ↦ panic
        ]
        else panic)
unfolding queue_event enqueue enqueue_event
closed-panic io c event store h q m = ground (arith, store_event-queued_closed io c event h)

-- After a start that failed, an event of a plugin, or for a repository that is no mirror, is not
-- accepted: unless storing it is asked for and fails, the handler panics.
pub start_failed-queue_event_panic :
    (io : StartIo) (q : QueueIo) (c : Codec) (now : ℕ) (event : EventPayload) (store : Bool)
    (h k : Handler) (e : String)
    → start io c now h ≡ done (err e, k)
    → (k.mirror ≡ false) ⊎ (is_plugin event.origin ≡ true)
    → queue_event q c event store k ≡ (
        if store
        then elim (store_event q c event k).0 [
          | some e ↦ done (some e, (store_event q c event k).1)
          | none ↦ panic
        ]
        else panic)
start_failed-queue_event_panic io q c now event store h k e s m =
    closed-panic q c event store k (start-Closes io c now h e k s) m
