-- ===== src/Repository/Manager/Double.antt =====
-- When a handler has stopped: the two races of `Get` with another call of `Get`, and with the
-- `cleanup` of the handler.
use beskar.Prelude.{ℕ, suc, ◌≡◌, ◌≢◌, refl, String, none, some, arith}
use beskar.Prelude.Dict
use beskar.Prelude.Dict.{lookup-remove_self}
use beskar.Repository.Manager.{
  Phase, starting, running, closing, gone, Entry, waiting, retrying, returned, Manager, make,
  set_phase, set_call, remove, Step, Steps, here, next,
}
use beskar.Repository.Manager.Single.{Numbered}

abbrev pub new_entry : String → Phase → Entry
new_entry repository phase = record { repository = repository; phase = phase }

-- The state after a `Started` that returned false, and after the handler that `Get` then makes has
-- started.
abbrev retried : ℕ → String → Manager → Manager
retried i repository m = set_call i (retrying repository) m

abbrev finished : ℕ → ℕ → String → Manager → Manager
finished i id repository m =
    set_call i (returned id) (set_phase id (new_entry repository starting) running m)

-- Two calls of `Get` that wait for the same handler can each make a new one once it has closed its
-- queue: there is a run after which both new handlers of the repository run.
pub two_handlers :
    (m : Manager) (i j id : ℕ) (repository : String) (e : Entry)
    → i ≢ j
    → m.calls i ≡ waiting repository id
    → m.calls j ≡ waiting repository id
    → m.handlers id ≡ some e
    → e.phase ≡ closing
    → (n : Manager) × Steps m n
      × (n.handlers m.next ≡ some (new_entry repository running))
      × (n.handlers (suc m.next) ≡ some (new_entry repository running))
unfolding make
two_handlers m i j id repository e ne p q h closed =
    let m1 : Manager = retried i repository m in
    let m2 : Manager = retried j repository m1 in
    let m3 : Manager = make i repository m2 in
    let m4 : Manager = make j repository m3 in
    let m5 : Manager = finished i m.next repository m4 in
    let m6 : Manager = finished j (suc m.next) repository m5 in
    (
      m6,
      next
          (next
            (next
              (next
                (next (next here (Step.retry i id repository e p h (ground arith) refl))
                  (Step.retry j id repository e (ground arith) h (ground arith) refl))
                (Step.again i repository (ground arith) refl))
              (Step.again j repository (ground arith) refl))
            (Step.start_done i m.next (new_entry repository starting) (ground arith) (ground arith)
              refl refl))
          (Step.start_done j (suc m.next) (new_entry repository starting) (ground arith)
            (ground arith) refl refl),
      ground arith,
      ground arith,
    )

-- The `cleanup` of a handler that has closed its queue can take the handler that replaced it out of
-- the table: there is a run after which the new handler runs, and its repository has no entry.
pub handler_lost :
    (m : Manager) (i id : ℕ) (repository : String) (e : Entry)
    → Numbered m
    → m.calls i ≡ waiting repository id
    → m.handlers id ≡ some e
    → e.phase ≡ closing
    → e.repository ≡ repository
    → (n : Manager) × Steps m n
      × (n.handlers m.next ≡ some (new_entry repository running))
      × (Dict.lookup repository n.repositories ≡ none)
unfolding make
handler_lost m i id repository e numbered p h closed name =
    let m1 : Manager = retried i repository m in
    let m2 : Manager = make i repository m1 in
    let m3 : Manager = finished i m.next repository m2 in
    let m4 : Manager = remove e.repository (set_phase id e gone m3) in
    (
      m4,
      next
          (next
            (next (next here (Step.retry i id repository e p h (ground arith) refl))
              (Step.again i repository (ground arith) refl))
            (Step.start_done i m.next (new_entry repository starting) (ground arith) (ground arith)
              refl refl))
          (Step.leave id e (ground (arith, numbered id e)) closed refl),
      ground (arith, numbered id e),
      rw name (lookup-remove_self repository m3.repositories),
    )
