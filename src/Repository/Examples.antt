-- ===== src/Repository/Examples.antt =====
-- The theorems on the repository handlers and their table at concrete states.
use beskar.Prelude.{◌≡◌, refl, true, none, some, [], ◌∷◌}
use beskar.Prelude.Dict
use beskar.Prelude.Outcome.{done, blocked, panic, ◌>>=◌}
use beskar.Event.{EventPayload, Action, Origin}
use beskar.Repository.Queue.{
  new_repo_handler, append_event, event_queue_update, dequeue_events, event_queue_length,
  receive_queued,
}
use beskar.Repository.Queue.Delivery.{
  waiting, woken, working, System, init, Step, Reach, start, next, rewake, quiet-delivered,
}
use beskar.Repository.Artifacts.{
  Artifacts, Choice, answered, context_done, canceled, new_chan, sync_artifact,
  sync_artifact_result, sync_artifact_reset, wait,
}
use beskar.Repository.Artifacts.Results.{IsValid, wait-reset-panics}
use beskar.Repository.Artifacts.Answers.{Answered, wait-result-sync}
use beskar.Repository.Artifacts.Shared.{wait-same_name_lost, timeout_message}

abbrev push_rpm : EventPayload
push_rpm = record {
  repository = "artifacts/yum/el9";
  digest = "sha256:aa";
  mediatype = "manifest";
  payload = "m";
  action = Action.put;
  origin = Origin.external;
}

abbrev drop_rpm : EventPayload
drop_rpm = record push_rpm { digest = "sha256:bb"; action = Action.delete }

-- One event is appended, the loop is told, takes it, works on it and waits again.
abbrev appended : System
appended = record init {
  handler = record new_repo_handler { queue = push_rpm ∷ [] };
  pending = 1;
  sent = push_rpm ∷ [];
}

abbrev told : System
told = record appended {
  handler = record new_repo_handler { queue = push_rpm ∷ []; queued = true };
  pending = 0;
}

abbrev awake : System
awake = record told { handler = appended.handler; at = woken }

abbrev at_work : System
at_work = record awake { handler = new_repo_handler; at = working; delivered = push_rpm ∷ [] }

abbrev quiet : System
quiet = record at_work { at = waiting }

quiet-Reach : Reach quiet
unfolding append_event event_queue_update receive_queued dequeue_events rewake event_queue_length
    new_repo_handler
quiet-Reach =
    next
      (next
        (next
          (next (next start (Step.append push_rpm refl))
            (Step.update 0 told.handler refl refl refl))
          (Step.wake awake.handler refl refl refl))
        (Step.dequeue refl refl))
      (Step.finish new_repo_handler refl refl refl)

quiet-delivered_example : quiet.delivered ≡ quiet.sent
unfolding new_repo_handler
quiet-delivered_example = quiet-delivered quiet-Reach refl refl refl

-- One package is being synchronised.
abbrev one_sync : Artifacts
one_sync = record { chans = new_chan ∷ []; sync_artifacts = ("a.rpm", 0) ∷ [] }

one_sync-IsValid : IsValid one_sync
one_sync-IsValid = ((new_chan, refl, refl), tt, tt)

wait-result-sync_example :
    let (id, registered) = sync_artifact "b.rpm" one_sync in
    (t : Artifacts) × ((sync_artifact_result "b.rpm" (some "bad signature") registered
        >>= wait answered "b.rpm" id)
      ≡ done (some "bad signature", t))
    × Answered "b.rpm" id one_sync t
wait-result-sync_example = wait-result-sync "b.rpm" (some "bad signature") one_sync

wait-reset-panics_example :
    (t : Artifacts) × (sync_artifact_reset one_sync ≡ done t)
    × (t.sync_artifacts ≡ [])
    × ((choice : Choice) → wait choice "a.rpm" 0 t ≡ panic)
unfolding Dict.lookup
wait-reset-panics_example = wait-reset-panics one_sync "a.rpm" 0 one_sync-IsValid refl

wait-same_name_lost_example :
    let (id, one) = sync_artifact "b.rpm" one_sync in
    let (id', both) = sync_artifact "b.rpm" one in
    (t : Artifacts) × (wait (context_done canceled) "b.rpm" id both
      ≡ done (some (timeout_message canceled), t))
    × (sync_artifact_result "b.rpm" none t ≡ done t)
    × (wait answered "b.rpm" id' t ≡ blocked)
wait-same_name_lost_example = wait-same_name_lost "b.rpm" one_sync canceled none
