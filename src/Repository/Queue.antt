-- ===== src/Repository/Queue.antt =====
-- The event queue of a RepoHandler (handler.go). A mutex guards the queue, so each of `append`,
-- `take` and `length` is one step; `Queued` is a channel of capacity 1, here whether it holds its
-- token and whether it is closed.
pub mod Delivery
pub mod Wakeups
use beskar.Prelude.{ℕ, ◌<◌, Bool, true, false, List, [], ◌∷◌, ◌++◌, if◌then◌else◌, length}
use beskar.Prelude.Outcome.{Outcome, done, blocked, panic}
use beskar.Event.{EventPayload}

pub record RepoHandler : Type 0 where
  pub queue : List EventPayload
  pub queued : Bool
  pub queued_closed : Bool
  pub started_closed : Bool
  pub stopped : Bool
  pub cancelled : Bool

unfoldable pub new_repo_handler : RepoHandler
new_repo_handler = record {
  queue = [];
  queued = false;
  queued_closed = false;
  started_closed = false;
  stopped = false;
  cancelled = false;
}

-- The locked part of `EnqueueEvent`.
unfoldable pub append_event : EventPayload → RepoHandler → RepoHandler
append_event event rh = record rh { queue = rh.queue ++ event ∷ [] }

-- `select { case rh.Queued <- struct{}{}: default: }`: a full channel is left alone, and a send
-- on a closed one panics, also in a `select` with a default.
unfoldable pub event_queue_update : RepoHandler → Outcome RepoHandler
event_queue_update rh = if rh.queued_closed then panic else done (record rh { queued = true })

unfoldable pub enqueue_event : EventPayload → RepoHandler → Outcome RepoHandler
unfolding append_event event_queue_update
enqueue_event event rh = event_queue_update (append_event event rh)

unfoldable pub dequeue_events : RepoHandler → List EventPayload × RepoHandler
dequeue_events rh = (rh.queue, record rh { queue = [] })

unfoldable pub event_queue_length : RepoHandler → ℕ
event_queue_length rh = length rh.queue

-- `<-rh.Queued`: a closed channel gives its token, if any is left, and then zero values.
unfoldable pub receive_queued : RepoHandler → Outcome RepoHandler
receive_queued rh =
    if rh.queued
    then done (record rh { queued = false })
    else if rh.queued_closed
    then done rh
    else blocked

unfoldable pub started : RepoHandler → Outcome (Bool × RepoHandler)
unfolding receive_queued
started rh =
    if rh.started_closed
    then if rh.stopped
      then elim (receive_queued rh) [
        | done rh' ↦ done (false, rh')
        | blocked ↦ blocked
        | panic ↦ panic
      ]
      else done (true, rh)
    else blocked

-- `Stop`, up to its wait and with it.
unfoldable pub stop_begin : RepoHandler → RepoHandler
stop_begin rh = record rh { stopped = true; cancelled = true }

unfoldable pub stop : RepoHandler → Outcome RepoHandler
unfolding stop_begin receive_queued
stop rh = receive_queued (stop_begin rh)
