-- ===== src/Yum/Examples/Store.antt =====
-- The theorems on the databases, the queue and the cleanup at concrete inputs.
use beskar.Prelude.{
  String, ◌≡◌, ◌≢◌, ◌⊎◌, refl, true, false, some, [], ◌∷◌, ◌++◌, ◌==◌, if◌then◌else◌, arith, eq_iff,
}
use beskar.Prelude.Dict
use beskar.Prelude.Dict.{Dict}
use beskar.Prelude.Outcome.{done, panic}
use beskar.Event.{event_id, is_plugin}
use beskar.Repository.Queue.{enqueue_event, append_event, event_queue_update}
use beskar.Yum.Sql.{exec_one}
use beskar.Yum.Packages.{RepositoryPackage, rpm_name}
use beskar.Yum.Status.{StatusDb, add_event}
use beskar.Yum.Handler.{
  Handler, repository, status, get_db, store_event, enqueue, queue_event, cleanup,
}
use beskar.Yum.Handler.Queueing.{queue_event-stored}
use beskar.Yum.Handler.Cleanup.{open_databases, cleanup_lem}
use beskar.Yum.Examples.{codec, push_rpm, bash_pkg, el9, queue_io, handler_of}

abbrev tagged : RepositoryPackage
tagged = record bash_pkg { tag = rpm_name bash_pkg }

abbrev two_rows : Dict RepositoryPackage
two_rows = ("t", bash_pkg) ∷ ("u", record bash_pkg { id = "bb" }) ∷ []

text-ne : (s t : String) → (s == t) ≡ false → s ≢ t
text-ne s t e p = ground (arith, e, eq_iff s t, p)

abbrev same_id : Dict RepositoryPackage
same_id = ("t", bash_pkg) ∷ ("u", bash_pkg) ∷ []

abbrev one_event : StatusDb
one_event = record el9.status_db { events = ("sha256:bb:ACTION_DELETE", "m") ∷ [] }

abbrev two_events : StatusDb
two_events = record one_event {
  events = ("sha256:bb:ACTION_DELETE", "m") ∷ ("sha256:aa:ACTION_PUT", "m") ∷ [];
}

abbrev queued_el9 : Handler
queued_el9 = handler_of el9 (queue_event queue_io codec push_rpm true el9)

queue_event-stored_example :
    ((el9.mirror ≡ false) ⊎ (is_plugin push_rpm.origin ≡ true))
    × (Dict.lookup (event_id push_rpm) queued_el9.status_db.events ≡ some "m")
    × (queued_el9.repo.queue ≡ el9.repo.queue ++ push_rpm ∷ [])
    × (queued_el9.repo.queued ≡ true)
unfolding queue_event enqueue store_event get_db add_event exec_one enqueue_event append_event
    event_queue_update
queue_event-stored_example = queue_event-stored queue_io codec push_rpm el9 queued_el9 "m" refl refl

abbrev mirror : Handler
mirror = record el9 { mirror = true }

abbrev deleting : Handler
deleting = record el9 {
  delete = true;
  opened = λ d. elim d [ repository ↦ true | status ↦ true | _ ↦ false ];
}

cleanup_lem_example :
    (k : Handler) × (cleanup deleting ≡ done k)
    × (k.closed ≡ deleting.closed ++ open_databases deleting.opened)
    × (k.deleted
        ≡ deleting.deleted ++ (if deleting.delete then open_databases deleting.opened else []))
    × (k.removed ≡ true)
    × (cleanup k ≡ panic)
cleanup_lem_example = cleanup_lem deleting refl refl
