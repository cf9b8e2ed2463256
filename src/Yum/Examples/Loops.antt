-- ===== src/Yum/Examples/Loops.antt =====
-- The theorems on the start and the event loop at concrete inputs.
use beskar.Prelude.{◌≡◌, inl, inr, refl, true, false, none, some, List, [], ◌∷◌, All}
use beskar.Prelude.Dict
use beskar.Prelude.Outcome.{done, panic, Err}
use beskar.Event.{EventPayload, event_id, action_name}
use beskar.Yum.Sql.{exec_one}
use beskar.Yum.Status.{remove_event}
use beskar.Yum.Handler.{Handler, get_db, queue_event, cleanup, cleanup_dbs, cleanup_db}
use beskar.Yum.Events.{process_loop, process_event, dispatch, during}
use beskar.Yum.Manifests.{
  Manifest, process_package_manifest, delete_package_manifest, store_package, delete_package,
  get_layer, answer, reject, add_to_metadata, add_to_repository, remove_from_metadata,
  remove_from_repository,
}
use beskar.Yum.Events.Total.{process_loop_clears}
use beskar.Yum.Events.Rows.{process_loop_other}
use beskar.Yum.Loop.{StartIo, start, fail}
use beskar.Yum.Loop.Failed.{start_failed-queue_event_panic}
use beskar.Yum.Packages
use beskar.Yum.Metadata
use beskar.Repository.Artifacts.{sync_artifact_result}
use beskar.Yum.Examples.{
  fine, codec, push_rpm, drop_rpm, el9, init_io, queue_io, event_io, end_of, handler_of, result_of,
  rpm_layer,
}

-- A payload that is no manifest stands between two that are.
abbrev bad_event : EventPayload
bad_event = record push_rpm { digest = "sha256:cc"; payload = "?" }

abbrev batch : List EventPayload
batch = push_rpm ∷ bad_event ∷ drop_rpm ∷ []

abbrev full : Handler
full = record el9 {
  status_db = record el9.status_db {
    events =
        ("sha256:aa:ACTION_PUT", "m")
        ∷ ("sha256:cc:ACTION_PUT", "?")
        ∷ ("sha256:bb:ACTION_DELETE", "m")
        ∷ [];
  };
}

abbrev after_batch : Handler
after_batch = end_of full (process_loop event_io batch full)

run_batch : process_loop event_io batch full ≡ done after_batch
unfolding process_loop process_event dispatch during process_package_manifest
    delete_package_manifest store_package delete_package get_layer answer reject add_to_metadata
    add_to_repository remove_from_metadata remove_from_repository get_db exec_one remove_event
    event_id action_name Dict.lookup Dict.insert Dict.remove sync_artifact_result
    Metadata.add_package Packages.add_package Metadata.remove_package Metadata.count_id
    Packages.remove_package
run_batch = refl

process_loop_other_example :
    Dict.lookup "sha256:cc:ACTION_PUT" after_batch.status_db.events
    ≡ Dict.lookup "sha256:cc:ACTION_PUT" full.status_db.events
unfolding event_id action_name
process_loop_other_example =
    process_loop_other event_io "sha256:cc:ACTION_PUT" batch full after_batch
      (inr refl, (inl refl, (inr refl, tt))) run_batch

abbrev manifests : List EventPayload
manifests = push_rpm ∷ drop_rpm ∷ []

process_loop_clears_example :
    (k : Handler) × (process_loop event_io manifests full ≡ done k)
    × All (λ event. Dict.lookup (event_id event) k.status_db.events ≡ none) manifests
process_loop_clears_example =
    process_loop_clears event_io manifests full refl refl refl (refl, (refl, tt)) (refl, (refl, tt))
      refl

abbrev the_manifest : Manifest
the_manifest = record {
  config_media_type = "application/vnd.ciq.rpm.package.v1.config+json";
  layers = rpm_layer ∷ [];
}

abbrev pushed : Err × Handler
pushed = result_of el9 (process_package_manifest event_io.packages the_manifest "sha256:aa" el9)

-- A mirror that stored an event before it stopped.
abbrev stopped_mirror : Handler
stopped_mirror = record el9 { mirror = true }

abbrev bad_start : StartIo
bad_start = record {
  mkdir = some "read-only file system";
  opening = none;
  init = init_io;
  count = fine;
  walk = fine;
  queue = queue_io;
}

abbrev failed : Handler
failed = handler_of el9 (start bad_start codec 7 el9)

start_failed-queue_event_panic_example : queue_event queue_io codec push_rpm false failed ≡ panic
unfolding start fail cleanup cleanup_dbs cleanup_db
start_failed-queue_event_panic_example =
    start_failed-queue_event_panic bad_start queue_io codec 7 push_rpm false el9 failed
      "read-only file system" refl (inl refl)
