-- ===== src/Repository/Manager.antt =====
-- The table of handlers of a plugin (manager.go), with the parts of Start, Stop and cleanup that
-- its callers meet. A call of `Get` is a thread; what it does under the mutex is one step.
pub mod Double
pub mod Single
mod Examples
use beskar.Prelude.{
  ℕ, suc, ◌≡◌, String, Bool, true, false, Option, none, some, [], if◌then◌else◌, nat_eq,
}
use beskar.Prelude.Dict
use beskar.Prelude.Dict.{Dict}

-- The life of a handler: `Start` runs; `startedCh` is closed; `Stopped` is set; `cleanup` has
-- closed `Queued`; `cleanup` has taken the handler out of the table. A start that fails runs
-- `cleanup` and does not set `Stopped` (`failed`); then `startedCh` is closed (`broken`).
pub data Phase : Type 0 where
  starting running stopping closing gone failed broken : Phase

pub record Entry : Type 0 where
  pub repository : String
  pub phase : Phase

-- A call of `Get`: before its lock; in `Started` of the handler that it found; behind a `Started`
-- that returned false; in `Start` of the handler that it made; at its end.
pub data Call : Type 0 where
  idle : Call
  calling : String → Call
  waiting : String → ℕ → Call
  retrying : String → Call
  making : ℕ → Call
  returned : ℕ → Call

-- `next` counts the handlers that were made: the handler `id` has the entry `handlers id`.
pub record Manager : Type 0 where
  pub repositories : Dict ℕ
  pub handlers : ℕ → Option Entry
  pub next : ℕ
  pub calls : ℕ → Call

abbrev pub update {ℓ} : {A : Type ℓ} → (ℕ → A) → ℕ → A → ℕ → A
update table at new other = if nat_eq at other then new else table other

unfoldable pub new_manager : Manager
new_manager = record { repositories = []; handlers = λ id. none; next = 0; calls = λ i. idle }

-- The locked part of `Get` that makes a handler and enters it under the name.
unfoldable pub make : ℕ → String → Manager → Manager
make i repository m = record {
  repositories = Dict.insert repository m.next m.repositories;
  handlers = update m.handlers m.next (some (record { repository = repository; phase = starting }));
  next = suc m.next;
  calls = update m.calls i (making m.next);
}

-- The locked part of `Get` that looks the name up.
unfoldable pub look_up : ℕ → String → Manager → Manager
look_up i repository m = elim (Dict.lookup repository m.repositories) [
  | some id ↦ record m { calls = update m.calls i (waiting repository id) }
  | none ↦ make i repository m
]

abbrev pub set_phase : ℕ → Entry → Phase → Manager → Manager
set_phase id e phase m = record m {
  handlers = update m.handlers id (some (record e { phase = phase }));
}

abbrev pub set_call : ℕ → Call → Manager → Manager
set_call i c m = record m { calls = update m.calls i c }

-- `Started` returns true when `startedCh` is closed and `Stopped` is not set.
abbrev pub is_started : Phase → Bool
is_started running = true
is_started broken = true
is_started _ = false

-- It can return false when `Stopped` is set: a token that is left in `Queued` lets it return
-- before `cleanup` closes that channel.
abbrev pub has_stopped : Phase → Bool
has_stopped stopping = true
has_stopped closing = true
has_stopped gone = true
has_stopped _ = false

-- `Params.Remove` deletes whatever entry the name has.
abbrev pub remove : String → Manager → Manager
remove repository m = record m { repositories = Dict.remove repository m.repositories }

unfoldable pub has : String → Manager → Bool
has repository m = elim (Dict.lookup repository m.repositories) [ none ↦ false | some id ↦ true ]

-- One step of a call, or of a handler.
pub data Step (m : Manager) (n : Manager) : Type 0 where
  call :
      (i : ℕ) (repository : String)
      → m.calls i ≡ idle
      → n ≡ set_call i (calling repository) m
      → Step m n
  enter :
      (i : ℕ) (repository : String)
      → m.calls i ≡ calling repository
      → n ≡ look_up i repository m
      → Step m n
  found :
      (i id : ℕ) (repository : String) (e : Entry)
      → m.calls i ≡ waiting repository id
      → m.handlers id ≡ some e
      → is_started e.phase ≡ true
      → n ≡ set_call i (returned id) m
      → Step m n
  retry :
      (i id : ℕ) (repository : String) (e : Entry)
      → m.calls i ≡ waiting repository id
      → m.handlers id ≡ some e
      → has_stopped e.phase ≡ true
      → n ≡ set_call i (retrying repository) m
      → Step m n
  again :
      (i : ℕ) (repository : String)
      → m.calls i ≡ retrying repository
      → n ≡ make i repository m
      → Step m n
  start_done :
      (i id : ℕ) (e : Entry)
      → m.calls i ≡ making id
      → m.handlers id ≡ some e
      → e.phase ≡ starting
      → n ≡ set_call i (returned id) (set_phase id e running m)
      → Step m n
  fail :
      (i id : ℕ) (e : Entry)
      → m.calls i ≡ making id
      → m.handlers id ≡ some e
      → e.phase ≡ starting
      → n ≡ remove e.repository (set_phase id e failed m)
      → Step m n
  fail_done :
      (i id : ℕ) (e : Entry)
      → m.calls i ≡ making id
      → m.handlers id ≡ some e
      → e.phase ≡ failed
      → n ≡ set_call i (returned id) (set_phase id e broken m)
      → Step m n
  stop :
      (id : ℕ) (e : Entry)
      → m.handlers id ≡ some e
      → e.phase ≡ running
      → n ≡ set_phase id e stopping m
      → Step m n
  close :
      (id : ℕ) (e : Entry)
      → m.handlers id ≡ some e
      → e.phase ≡ stopping
      → n ≡ set_phase id e closing m
      → Step m n
  leave :
      (id : ℕ) (e : Entry)
      → m.handlers id ≡ some e
      → e.phase ≡ closing
      → n ≡ remove e.repository (set_phase id e gone m)
      → Step m n

pub data Steps (m : Manager) : Manager → Type 0 where
  here : Steps m m
  next : {n k : Manager} → Steps m n → Step n k → Steps m k
