-- ===== src/Repository/Manager/Examples.antt =====
-- The theorems on the table of handlers at concrete states.
use beskar.Prelude.{ℕ, ◌≡◌, refl, none, some, [], ◌∷◌, arith}
use beskar.Prelude.Dict
use beskar.Repository.Manager.{
  starting, running, closing, Entry, idle, making, calling, waiting, returned, Manager, make,
  new_manager, look_up, update, set_phase, set_call, Step, Steps, here, next,
}
use beskar.Repository.Manager.Single.{Numbered, AllUp, one_handler}
use beskar.Repository.Manager.Double.{new_entry, two_handlers, handler_lost}

-- Two calls of `Get` for one name: the first makes the handler, the second finds it.
abbrev called : Manager
called = set_call 0 (calling "el9") new_manager

abbrev made : Manager
made = record {
  repositories = ("el9", 0) ∷ [];
  handlers = update (λ id. none) 0 (some (new_entry "el9" starting));
  next = 1;
  calls = update (update (λ i. idle) 0 (calling "el9")) 0 (making 0);
}

abbrev found_it : Manager
found_it = set_call 1 (waiting "el9" 0) (set_call 1 (calling "el9") made)

abbrev up : Manager
up = set_call 0 (returned 0) (set_phase 0 (new_entry "el9" starting) running found_it)

up-Steps : Steps new_manager up
unfolding new_manager look_up make Dict.lookup Dict.insert
up-Steps =
    next
      (next
        (next (next (next here (Step.call 0 "el9" refl refl)) (Step.enter 0 "el9" refl refl))
          (Step.call 1 "el9" refl refl))
        (Step.enter 1 "el9" refl refl))
      (Step.start_done 0 0 (new_entry "el9" starting) refl refl refl refl)

up-AllUp : AllUp up
up-AllUp id e h = ground arith

one_handler_example : (◌≡◌ {A = ℕ} 0 0) × (Dict.lookup "el9" up.repositories ≡ some 0)
one_handler_example =
    one_handler 0 0 (new_entry "el9" running) (new_entry "el9" running) up-Steps up-AllUp refl refl
      refl

-- Two calls wait for a handler that has closed its queue.
abbrev closing_entry : Entry
closing_entry = new_entry "el9" closing

abbrev at_close : Manager
at_close = record {
  repositories = ("el9", 0) ∷ [];
  handlers = update (λ id. none) 0 (some closing_entry);
  next = 1;
  calls = λ i. waiting "el9" 0;
}

at_close-Numbered : Numbered at_close
at_close-Numbered id e h = ground arith

two_handlers_example :
    (n : Manager) × Steps at_close n
    × (n.handlers 1 ≡ some (new_entry "el9" running))
    × (n.handlers 2 ≡ some (new_entry "el9" running))
two_handlers_example =
    two_handlers at_close 1 2 0 "el9" closing_entry (omega arith) refl refl refl refl

handler_lost_example :
    (n : Manager) × Steps at_close n
    × (n.handlers 1 ≡ some (new_entry "el9" running))
    × (Dict.lookup "el9" n.repositories ≡ none)
handler_lost_example =
    handler_lost at_close 1 0 "el9" closing_entry at_close-Numbered refl refl refl refl
