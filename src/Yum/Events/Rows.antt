-- ===== src/Yum/Events/Rows.antt =====
-- Which rows of the status database are left when events have been processed.
use mathlib.Core.Path.{subst}
use beskar.Prelude.{
  String, ◌≡◌, ◌⊎◌, refl, ◌∙◌, sym, ap, Bool, true, false, none, List, [], ◌∷◌, arith, Option-cases,
  inl, inr, ◌==◌, All, has,
}
use beskar.Prelude.Dict
use beskar.Prelude.Dict.{Dict, lookup-remove, lookup-remove_self}
use beskar.Prelude.Outcome.{Outcome, done, >>=-eq-done, done-injective, Err}
use beskar.Event.{EventPayload, event_id}
use beskar.Repository.Queue.{RepoHandler}
use beskar.Yum.Sql.{exec_one}
use beskar.Yum.Status.{StatusDb, remove_event}
use beskar.Yum.Handler.{Handler}
use beskar.Yum.Events.{EventIo, dispatch, process_event, during, process_loop}
use beskar.Yum.Manifests.{Manifest}
use beskar.Yum.Extra.Kept.{process_metadata_manifest-Kept, delete_metadata_manifest-Kept}
use beskar.Yum.Manifests.Kept.{
  Kept, Kept-refl, process_package_manifest-Kept, delete_package_manifest-Kept,
}

module _ (io : EventIo) where
  dispatch-Kept :
      (event : EventPayload) (m : Manifest) (h : Handler) (r : Err × Handler)
      → dispatch io event m h ≡ done r
      → Kept h r.1
  unfolding dispatch
  dispatch-Kept event m h r p = ground (
    arith,
    Kept-refl h,
    process_package_manifest-Kept io.packages m event.digest h r,
    delete_package_manifest-Kept io.packages m h r,
    process_metadata_manifest-Kept io.extra m event.digest h r,
    delete_metadata_manifest-Kept io.extra m h r,
  )

  -- The removal of an event changes only its own row.
  lookup_other :
      (event : EventPayload) (db : StatusDb) (id : String)
      → (event_id event == id) ≡ false
      → Dict.lookup id (remove_event io.remove event db).1.events ≡ Dict.lookup id db.events
  unfolding remove_event exec_one
  lookup_other event db id ne = ground (arith, lookup-remove (event_id event) id db.events)

  -- What the rows are after one event has been processed.
  process_event-events :
      (event : EventPayload) (m : Manifest) (h k : Handler)
      → process_event io event m h ≡ done k
      → k.status_db ≡ (remove_event io.remove event h.status_db).1
  unfolding process_event
  process_event-events event m h k p =
      let (r, d, e) = >>=-eq-done (dispatch io event m h) _ p in
      let same : (remove_event io.remove event r.1.status_db).1 ≡ k.status_db = cc e in
      sym same ∙ ap (λ db. (remove_event io.remove event db).1) (dispatch-Kept event m h r d).status

  process_event-repo :
      (event : EventPayload) (m : Manifest) (h k : Handler)
      → process_event io event m h ≡ done k
      → k.repo ≡ h.repo
  unfolding process_event
  process_event-repo event m h k p =
      let (r, d, e) = >>=-eq-done (dispatch io event m h) _ p in
      let same : r.1.repo ≡ k.repo = cc e in sym same ∙ (dispatch-Kept event m h r d).repo

  during-status : (stopping : Bool) (h : Handler) → (during stopping h).status_db ≡ h.status_db
  unfolding during
  during-status stopping h = ground arith

  -- The two ways on from the test of `Stopped`.
  process_loop_step {ℓ} :
      (P : Handler → Type ℓ) (stopped : Bool) (events : List EventPayload) (h k : Handler)
      → (◌≡◌ {A = Outcome Handler}
          (elim stopped [ true ↦ done h | false ↦ process_loop io events h ])
          (done k))
      → P h
      → (process_loop io events h ≡ done k → P k)
      → P k
  process_loop_step P true events h k p here there = subst P (done-injective p) here
  process_loop_step P false events h k p here there = there p

  goes_on :
      (stopping : Bool) (events : List EventPayload) (h k : Handler)
      → stopping ≡ false
      → h.repo.stopped ≡ false
      → (◌≡◌ {A = Outcome Handler}
          (elim (during stopping h).repo.stopped [
            | true ↦ done (during stopping h)
            | false ↦ process_loop io events (during stopping h)
          ])
          (done k))
      → process_loop io events h ≡ done k
  unfolding during
  goes_on true events h k s r p = cc
  goes_on false events h k s r p = rw r at p

  -- A property of the rows lasts when each event that is a manifest keeps it.
  process_loop_keeps {ℓ} :
      (P : Dict String → Type ℓ) (events : List EventPayload) (h k : Handler)
      → All
          (λ event.
            (io.parse_manifest event.payload ≡ none)
            ⊎ ((db : StatusDb) → P db.events → P (remove_event io.remove event db).1.events))
          events
      → process_loop io events h ≡ done k
      → P h.status_db.events
      → P k.status_db.events
  unfolding process_loop
  process_loop_keeps P [] h k each p q = subst (λ x. P x.status_db.events) (done-injective p) q
  process_loop_keeps P (event ∷ events) h k each p q =
      elim (Option-cases (io.parse_manifest event.payload)) [
        | inl bad ↦ process_loop_keeps P events h k each.1 (rw (bad, process_loop) at p) q
        | inr (m, good) ↦
            let (h1, d, e) =
              >>=-eq-done (process_event io event m h) _ (rw (good, process_loop) at p) in
            let h2 : Handler = during (io.stop event) h1 in
            let removed : P h1.status_db.events = elim each.0 [
              | inl bad ↦ cc
              | inr keep ↦
                  subst (λ (db : StatusDb). P db.events) (sym (process_event-events event m h h1 d))
                    (keep h.status_db q)
            ] in
            let here : P h2.status_db.events =
              subst (λ (db : StatusDb). P db.events) (sym (during-status (io.stop event) h1))
                removed in
            process_loop_step (λ x. P x.status_db.events) h2.repo.stopped events h2 k e here
              (λ rest. process_loop_keeps P events h2 k each.1 rest here)
      ]

  other_kept :
      (id : String) (before : Dict String) (events : List EventPayload)
      → All
          (λ event. (io.parse_manifest event.payload ≡ none) ⊎ ((event_id event == id) ≡ false))
          events
      → All
          (λ event.
            (io.parse_manifest event.payload ≡ none)
            ⊎ ((db : StatusDb)
                → Dict.lookup id db.events ≡ Dict.lookup id before
                → Dict.lookup id (remove_event io.remove event db).1.events
                  ≡ Dict.lookup id before))
          events
  other_kept id before [] h = tt
  other_kept id before (event ∷ events) h = (
    elim h.0 [ inl bad ↦ inl bad | inr ne ↦ inr (λ db e. lookup_other event db id ne ∙ e) ],
    other_kept id before events h.1,
  )

  -- A batch leaves a row of the status database as it was if each event of the batch that has the
  -- row's id is no manifest: no other event is lost, and an event that cannot be parsed stays
  -- stored.
  pub process_loop_other :
      (id : String) (events : List EventPayload) (h k : Handler)
      → All
          (λ event. (io.parse_manifest event.payload ≡ none) ⊎ ((event_id event == id) ≡ false))
          events
      → process_loop io events h ≡ done k
      → Dict.lookup id k.status_db.events ≡ Dict.lookup id h.status_db.events
  process_loop_other id events h k ne p =
      process_loop_keeps (λ rows. Dict.lookup id rows ≡ Dict.lookup id h.status_db.events) events h
        k (other_kept id h.status_db.events events ne) p refl

  stays_gone :
      (id : String) (event : EventPayload) (db : StatusDb)
      → Dict.lookup id db.events ≡ none
      → Dict.lookup id (remove_event io.remove event db).1.events ≡ none
  unfolding remove_event exec_one
  stays_gone id event db e = ground (arith, lookup-remove (event_id event) id db.events)

  All-stay_gone :
      (id : String) (events : List EventPayload)
      → All
          (λ event.
            (io.parse_manifest event.payload ≡ none)
            ⊎ ((db : StatusDb)
                → Dict.lookup id db.events ≡ none
                → Dict.lookup id (remove_event io.remove event db).1.events ≡ none))
          events
  All-stay_gone id [] = tt
  All-stay_gone id (event ∷ events) = (inr (stays_gone id event), All-stay_gone id events)

  module _ (opens : io.remove.opening ≡ none) (runs : io.remove.exec ≡ none) where
    own_row :
        (event : EventPayload) (db : StatusDb)
        → Dict.lookup (event_id event) (remove_event io.remove event db).1.events ≡ none
    unfolding remove_event exec_one
    own_row event db = ground (arith, lookup-remove_self (event_id event) db.events)

    -- When the database works, the batch holds manifests only, and the handler is not told to stop,
    -- the rows of all events of the batch are gone after it.
    pub process_loop_removes :
        (events : List EventPayload) (h k : Handler)
        → All (λ event. has (io.parse_manifest event.payload) ≡ true) events
        → All (λ event. io.stop event ≡ false) events
        → h.repo.stopped ≡ false
        → process_loop io events h ≡ done k
        → All (λ event. Dict.lookup (event_id event) k.status_db.events ≡ none) events
    unfolding process_loop
    process_loop_removes [] h k good calm running p = tt
    process_loop_removes (event ∷ events) h k good calm running p =
        elim (Option-cases (io.parse_manifest event.payload)) [
          | inl bad ↦ cc (good.0, bad)
          | inr (m, e) ↦
              let (h1, d, q) =
                >>=-eq-done (process_event io event m h) _ (rw (e, process_loop) at p) in
              let running' : h1.repo.stopped ≡ false =
                ap (λ (r : RepoHandler). r.stopped) (process_event-repo event m h h1 d) ∙ running in
              let rest : process_loop io events h1 ≡ done k =
                goes_on (io.stop event) events h1 k calm.0 running' q in
              let gone : Dict.lookup (event_id event) h1.status_db.events ≡ none =
                ap (λ (db : StatusDb). Dict.lookup (event_id event) db.events)
                  (process_event-events event m h h1 d)
                ∙ own_row event h.status_db in
              (
                process_loop_keeps (λ rows. Dict.lookup (event_id event) rows ≡ none) events h1 k
                    (All-stay_gone (event_id event) events) rest gone,
                process_loop_removes events h1 k good.1 calm.1 running' rest,
              )
        ]
