-- ===== src/Repository/Manager/Single.antt =====
-- While no handler is told to stop, a repository has one handler.
use beskar.Prelude.{
  ℕ, ◌≡◌, ◌≢◌, ◌<◌, refl, sym, ap, ◌∙◌, String, Bool, true, false, none, some, arith, eq_iff,
  Option-cases, some_injective, inl, inr,
}
use mathlib.Core.Path.{subst}
use beskar.Prelude.Dict
use beskar.Prelude.Dict.{Dict, lookup-insert}
use beskar.Repository.Manager.{
  Phase, starting, running, stopping, closing, gone, failed, broken, Entry, Call, calling, waiting,
  retrying, returned, Manager, new_manager, make, look_up, set_phase, set_call, remove, Step, Steps,
  here, next,
}

abbrev pub is_up : Phase → Bool
is_up starting = true
is_up running = true
is_up _ = false

-- No handler has been told to stop, and no start has failed.
abbrev pub AllUp : Manager → Type 0
AllUp m = (id : ℕ) (e : Entry) → m.handlers id ≡ some e → is_up e.phase ≡ true

-- Every handler is the one that its repository has in the table, and no call makes another.
pub record OneEach (m : Manager) : Type 0 where
  pub entered :
      (id : ℕ) (e : Entry)
      → m.handlers id ≡ some e
      → Dict.lookup e.repository m.repositories ≡ some id
  pub first : (i : ℕ) (repository : String) → m.calls i ≢ retrying repository

-- The handlers are numbered from 0.
abbrev pub Numbered : Manager → Type 0
Numbered m = (id : ℕ) (e : Entry) → m.handlers id ≡ some e → id < m.next

make-Numbered :
    (i : ℕ) (repository : String) (m : Manager) → Numbered m → Numbered (make i repository m)
unfolding make
make-Numbered i repository m v id e h = ground (arith, v id e)

set_phase-Numbered :
    (id : ℕ) (x : Entry) (phase : Phase) (m : Manager)
    → m.handlers id ≡ some x
    → Numbered m
    → Numbered (set_phase id x phase m)
set_phase-Numbered id x phase m q v j e h = ground (arith, v j e, v id x)

make-AllUp :
    (i : ℕ) (repository : String) (m : Manager) → Numbered m → AllUp (make i repository m) → AllUp m
unfolding make
make-AllUp i repository m v up id e h = ground (arith, v id e, up id e)

set_phase-AllUp :
    (id : ℕ) (x : Entry) (phase : Phase) (m : Manager)
    → m.handlers id ≡ some x
    → (is_up phase ≡ true → is_up x.phase ≡ true)
    → AllUp (set_phase id x phase m)
    → AllUp m
set_phase-AllUp id x phase m q back up j e h =
    ground (arith, up j e, up id (record x { phase = phase }))

make-OneEach :
    (i : ℕ) (repository : String) (m : Manager)
    → Dict.lookup repository m.repositories ≡ none
    → OneEach m
    → OneEach (make i repository m)
unfolding make
make-OneEach i repository m absent v = record {
  entered = λ id e h. ground (
    arith,
    lookup-insert repository e.repository m.next m.repositories,
    v.entered id e,
    eq_iff repository e.repository,
  );
  first = λ j r h. ground (arith, v.first j r);
}

set_phase-OneEach :
    (id : ℕ) (x : Entry) (phase : Phase) (m : Manager)
    → m.handlers id ≡ some x
    → OneEach m
    → OneEach (set_phase id x phase m)
set_phase-OneEach id x phase m q v = record {
  entered = λ j e h. ground (arith, v.entered j e, v.entered id x);
  first = v.first;
}

set_call-OneEach :
    (i : ℕ) (c : Call) (m : Manager)
    → ((repository : String) → c ≢ retrying repository)
    → OneEach m
    → OneEach (set_call i c m)
set_call-OneEach i c m other v = record {
  entered = v.entered;
  first = λ j r h. ground (arith, v.first j r, other r);
}

pub record Inv (m : Manager) : Type 0 where
  pub numbered : Numbered m
  pub one_each : AllUp m → OneEach m

set_call-Inv :
    (i : ℕ) (c : Call) (m : Manager)
    → ((repository : String) → c ≢ retrying repository)
    → Inv m
    → Inv (set_call i c m)
set_call-Inv i c m other v = record {
  numbered = v.numbered;
  one_each = λ up. set_call-OneEach i c m other (v.one_each up);
}

set_phase-Inv :
    (id : ℕ) (x : Entry) (phase : Phase) (m : Manager)
    → m.handlers id ≡ some x
    → (is_up phase ≡ true → is_up x.phase ≡ true)
    → Inv m
    → Inv (set_phase id x phase m)
set_phase-Inv id x phase m q back v = record {
  numbered = set_phase-Numbered id x phase m q v.numbered;
  one_each =
      λ up. set_phase-OneEach id x phase m q (v.one_each (set_phase-AllUp id x phase m q back up));
}

make-Inv :
    (i : ℕ) (repository : String) (m : Manager)
    → (AllUp m → Dict.lookup repository m.repositories ≡ none)
    → Inv m
    → Inv (make i repository m)
make-Inv i repository m absent v = record {
  numbered = make-Numbered i repository m v.numbered;
  one_each = λ up.
      let before : AllUp m = make-AllUp i repository m v.numbered up in
      make-OneEach i repository m (absent before) (v.one_each before);
}

look_up-Inv : (i : ℕ) (repository : String) (m : Manager) → Inv m → Inv (look_up i repository m)
unfolding look_up
look_up-Inv i repository m v = elim (Option-cases (Dict.lookup repository m.repositories)) [
  | inl none' ↦ rw (none', look_up) (make-Inv i repository m (λ up. none') v)
  | inr (id, some') ↦ rw (some', look_up) (set_call-Inv i (waiting repository id) m (λ r e. cc e) v)
]

-- A handler that was told to stop is no longer up, so nothing is claimed from then on.
stopped-Inv :
    (id : ℕ) (x : Entry) (n : Manager)
    → n.handlers id ≡ some x
    → is_up x.phase ≡ false
    → Numbered n
    → Inv n
stopped-Inv id x n q down numbered = record {
  numbered = numbered;
  one_each = λ up. absurd (cc (up id x q));
}

pub Step-Inv : {m n : Manager} → Step m n → Inv m → Inv n
Step-Inv {m} {n} (Step.call i repository p e) v =
    subst Inv (sym e) (set_call-Inv i (calling repository) m (λ r e. cc e) v)
Step-Inv {m} {n} (Step.enter i repository p e) v = subst Inv (sym e) (look_up-Inv i repository m v)
Step-Inv {m} {n} (Step.found i id repository x p q r e) v =
    subst Inv (sym e) (set_call-Inv i (returned id) m (λ r e. cc e) v)
Step-Inv {m} {n} (Step.retry i id repository x p q r e) v =
    subst Inv (sym e)
      (stopped-Inv id x (set_call i (retrying repository) m) q (ground arith) v.numbered)
Step-Inv {m} {n} (Step.again i repository p e) v =
    subst Inv (sym e)
      (make-Inv i repository m (λ up. absurd ((v.one_each up).first i repository p)) v)
Step-Inv {m} {n} (Step.start_done i id x p q r e) v = subst Inv (sym e) (
    set_call-Inv i (returned id) (set_phase id x running m) (λ r e. cc e)
      (set_phase-Inv id x running m q (λ h. ground arith) v))
Step-Inv {m} {n} (Step.fail i id x p q r e) v = subst Inv (sym e) (
    stopped-Inv id (record x { phase = failed }) (remove x.repository (set_phase id x failed m))
      (ground arith) refl (set_phase-Numbered id x failed m q v.numbered))
Step-Inv {m} {n} (Step.fail_done i id x p q r e) v = subst Inv (sym e) (
    set_call-Inv i (returned id) (set_phase id x broken m) (λ r e. cc e)
      (set_phase-Inv id x broken m q (λ h. cc) v))
Step-Inv {m} {n} (Step.stop id x q r e) v =
    subst Inv (sym e) (set_phase-Inv id x stopping m q (λ h. cc) v)
Step-Inv {m} {n} (Step.close id x q r e) v =
    subst Inv (sym e) (set_phase-Inv id x closing m q (λ h. cc) v)
Step-Inv {m} {n} (Step.leave id x q r e) v = subst Inv (sym e) (
    stopped-Inv id (record x { phase = gone }) (remove x.repository (set_phase id x gone m))
      (ground arith) refl (set_phase-Numbered id x gone m q v.numbered))

new-Inv : Inv new_manager
unfolding new_manager
new-Inv = record {
  numbered = λ id e h. cc h;
  one_each = λ up. record { entered = λ id e h. cc h; first = λ i r h. cc h };
}

Steps-Inv : {m n : Manager} → Steps m n → Inv m → Inv n
Steps-Inv here v = v
Steps-Inv (next r s) v = Step-Inv s (Steps-Inv r v)

pub Reach-Numbered : {m : Manager} → Steps new_manager m → Numbered m
Reach-Numbered r = (Steps-Inv r new-Inv).numbered

-- However the calls of `Get` interleave from the empty table, as long as no handler has been told
-- to stop and no start has failed, a repository has one handler, and the table holds it.
pub one_handler :
    {m : Manager} (id j : ℕ) (e f : Entry)
    → Steps new_manager m
    → AllUp m
    → m.handlers id ≡ some e
    → m.handlers j ≡ some f
    → e.repository ≡ f.repository
    → (id ≡ j) × (Dict.lookup e.repository m.repositories ≡ some id)
one_handler {m} id j e f r up p q same =
    let v : OneEach m = (Steps-Inv r new-Inv).one_each up in
    let there : Dict.lookup e.repository m.repositories ≡ some id = v.entered id e p in
    (
      some_injective (sym there ∙ ap (λ s. Dict.lookup s m.repositories) same ∙ v.entered j f q),
      there,
    )
