-- ===== src/Yum/Events/Total.antt =====
-- A batch of events while nobody waits for an artifact.
use beskar.Prelude.{
  ◌≡◌, refl, Bool, true, false, none, List, [], ◌∷◌, Option-cases, Bool-cases, inl, inr, All, has,
  ◌==◌,
}
use beskar.Prelude.Dict
use beskar.Prelude.Outcome.{Outcome, done}
use beskar.Event.{EventPayload, event_id, is_put, is_delete}
use beskar.Yum.Status.{remove_event}
use beskar.Yum.Handler.{Handler}
use beskar.Yum.Manifests.{Manifest, rpm_config_type, repomd_data_config_type}
use beskar.Yum.Extra.Quiet.{process_metadata_manifest-Ends, delete_metadata_manifest-Ends}
use beskar.Yum.Manifests.Quiet.{
  IsQuiet, Ends, process_package_manifest-Ends, delete_package_manifest-Ends,
}
use beskar.Yum.Events.{EventIo, dispatch, process_event, during, process_loop}
use beskar.Yum.Events.Rows.{process_loop_removes}

module _ (io : EventIo) where
  dispatch-Ends :
      (event : EventPayload) (m : Manifest) (h : Handler) → IsQuiet h → Ends (dispatch io event m h)
  unfolding dispatch
  dispatch-Ends event m h q = elim (Bool-cases (is_put event.action)) [
    | inl put ↦ elim (Bool-cases (m.config_media_type == rpm_config_type)) [
      | inl rpm ↦
          rw (put, dispatch, rpm) (process_package_manifest-Ends io.packages m event.digest h q)
      | inr other ↦ elim (Bool-cases (m.config_media_type == repomd_data_config_type)) [
        | inl extra ↦
            rw (put, dispatch, other, extra)
              (process_metadata_manifest-Ends io.extra m event.digest h q)
        | inr unknown ↦ rw (put, dispatch, other, unknown) ((none, h), refl, q)
      ]
    ]
    | inr no_put ↦ elim (Bool-cases (is_delete event.action)) [
      | inr no_delete ↦ rw (no_put, dispatch, no_delete) ((none, h), refl, q)
      | inl delete ↦ elim (Bool-cases (m.config_media_type == rpm_config_type)) [
        | inl rpm ↦
            rw (no_put, dispatch, delete, rpm) (delete_package_manifest-Ends io.packages m h q)
        | inr other ↦ elim (Bool-cases (m.config_media_type == repomd_data_config_type)) [
          | inl extra ↦
              rw (no_put, dispatch, delete, other, extra)
                (delete_metadata_manifest-Ends io.extra m h q)
          | inr unknown ↦ rw (no_put, dispatch, delete, other, unknown) ((none, h), refl, q)
        ]
      ]
    ]
  ]

  process_event-done :
      (event : EventPayload) (m : Manifest) (h : Handler)
      → IsQuiet h
      → (k : Handler) × (process_event io event m h ≡ done k) × IsQuiet k
  unfolding process_event
  process_event-done event m h q =
      let (r, e, q1) = dispatch-Ends event m h q in
      (
        record r.1 { status_db = (remove_event io.remove event r.1.status_db).1 },
        rw (e, process_event),
        q1,
      )

  during-IsQuiet : (stopping : Bool) (h : Handler) → IsQuiet h → IsQuiet (during stopping h)
  unfolding during
  during-IsQuiet true h q = q
  during-IsQuiet false h q = q

  either_way :
      (stopped : Bool) (rest : Outcome Handler) (h : Handler)
      → (k : Handler) × (rest ≡ done k)
      → (k : Handler) × (◌≡◌ {A = Outcome Handler}
          (elim stopped [ true ↦ done h | false ↦ rest ])
          (done k))
  either_way true rest h e = (h, refl)
  either_way false rest h e = e

  process_loop-done :
      (events : List EventPayload) (h : Handler)
      → IsQuiet h
      → (k : Handler) × (process_loop io events h ≡ done k)
  unfolding process_loop
  process_loop-done [] h q = (h, refl)
  process_loop-done (event ∷ events) h q = elim (Option-cases (io.parse_manifest event.payload)) [
    | inl bad ↦ let (k, e) = process_loop-done events h q in (k, rw (bad, process_loop) e)
    | inr (m, good) ↦
        let (h1, e, q1) = process_event-done event m h q in
        let h2 : Handler = during (io.stop event) h1 in
        rw (good, process_loop, e)
          (either_way h2.repo.stopped (process_loop io events h2) h2
            (process_loop-done events h2 (during-IsQuiet (io.stop event) h1 q1)))
  ]

-- When nobody waits for an artifact, the database works, the batch holds manifests only, and the
-- handler is not told to stop, the batch is processed to its end, without blocking or panicking,
-- and the rows of all its events are gone.
pub process_loop_clears :
    (io : EventIo) (events : List EventPayload) (h : Handler)
    → io.remove.opening ≡ none
    → io.remove.exec ≡ none
    → IsQuiet h
    → All (λ event. has (io.parse_manifest event.payload) ≡ true) events
    → All (λ event. io.stop event ≡ false) events
    → h.repo.stopped ≡ false
    → (k : Handler) × (process_loop io events h ≡ done k)
      × All (λ event. Dict.lookup (event_id event) k.status_db.events ≡ none) events
process_loop_clears io events h opens runs q good calm running =
    let (k, e) = process_loop-done io events h q in
    (k, e, process_loop_removes io opens runs events h k good calm running e)
