-- ===== src/Repository/Artifacts/Results.antt =====
-- The channels of the registered artifacts are open, and what follows for the three operations.
use mathlib.Core.Path.{subst}
use native.Mathlib.Decide.{ℕ_discrete}
use beskar.Prelude.{
  ℕ, String, ◌≡◌, ◌≢◌, refl, sym, ap, ◌∙◌, true, false, none, some, List, [], ◌∷◌, ◌⊎◌, get_elem?,
  set, All, ◌==◌, Bool-cases, Option-cases, some_injective, get_elem?-set_self, get_elem?-set_ne,
  inl, inr,
}
use beskar.Prelude.Dict
use beskar.Prelude.Dict.{Dict, dict_laws, lookup-insert_self}
use beskar.Prelude.Outcome.{done, panic, ◌>>=◌, Err}
use beskar.Repository.Artifacts.{
  Chan, Artifacts, receive, close, Choice, canceled, deadline_exceeded, context_done, answered,
  select_case, wait, reset_loop, sync_artifact_reset,
}

-- The state of the channel `i`.
abbrev pub IsOpen : List Chan → ℕ → Type 0
IsOpen chans i = (c : Chan) × (get_elem? chans i ≡ some c) × (c.closed ≡ false)

abbrev pub IsClosed : List Chan → ℕ → Type 0
IsClosed chans i = (c : Chan) × (get_elem? chans i ≡ some c) × (c.closed ≡ true)

-- Every registered channel is open, and no two names share one.
abbrev pub OpenIds : Dict ℕ → List Chan → Type 0
OpenIds [] chans = Unit
OpenIds ((k, v) ∷ rest) chans = IsOpen chans v × All (λ e. e.1 ≢ v) rest × OpenIds rest chans

abbrev pub IsValid : Artifacts → Type 0
IsValid st = OpenIds st.sync_artifacts st.chans

nat-cases : (a b : ℕ) → (a ≡ b) ⊎ (a ≢ b)
nat-cases a b = elim (ℕ_discrete a b) [ yes e ↦ inl e | no e ↦ inr e ]

pub close-open :
    (st : Artifacts) (id : ℕ) (c : Chan)
    → get_elem? st.chans id ≡ some c
    → c.closed ≡ false
    → close id st ≡ done (record st { chans = set st.chans id (record c { closed = true }) })
unfolding close
close-open st id c e f = rw (e, f, close)

close-closed : (st : Artifacts) (id : ℕ) → IsClosed st.chans id → close id st ≡ panic
unfolding close
close-closed st id (c, e, f) = rw (e, f, close)

-- Writing an open channel keeps the others.
OpenIds-set :
    (es : Dict ℕ) (chans : List Chan) (i : ℕ) (c : Chan)
    → All (λ e. e.1 ≢ i) es
    → OpenIds es chans
    → OpenIds es (set chans i c)
OpenIds-set [] chans i c ne o = tt
OpenIds-set ((k, v) ∷ rest) chans i c ne ((d, p, q), fresh, o) = (
  (d, get_elem?-set_ne chans i v c (λ e. ne.0 (sym e)) ∙ p, q),
  fresh,
  OpenIds-set rest chans i c ne.1 o,
)

IsClosed-set :
    (chans : List Chan) (i j : ℕ) (c : Chan)
    → IsClosed chans i
    → c.closed ≡ true
    → IsClosed (set chans j c) i
IsClosed-set chans i j c (d, p, q) h = elim (nat-cases j i) [
  | inl e ↦ (
    c,
    subst (λ k. get_elem? (set chans k c) i ≡ some c) (sym e) (get_elem?-set_self chans i c d p),
    h,
  )
  | inr ne ↦ (d, get_elem?-set_ne chans j i c ne ∙ p, q)
]

-- The loop of the reset closes every registered channel once.
reset_loop-done :
    (es : Dict ℕ) (chans : List Chan)
    → OpenIds es chans
    → (end : List Chan) × (reset_loop es chans ≡ done (record { chans = end; sync_artifacts = [] }))
      × All (λ e. IsClosed end e.1) es
      × ((i : ℕ) → IsClosed chans i → IsClosed end i)
unfolding reset_loop
reset_loop-done [] chans o = (chans, refl, tt, λ i h. h)
reset_loop-done ((k, v) ∷ rest) chans ((c, p, q), fresh, o) =
    let shut : List Chan = set chans v (record c { closed = true }) in
    let (end, e, all, keep) =
      reset_loop-done rest shut (OpenIds-set rest chans v (record c { closed = true }) fresh o) in
    (
      end,
      ap (λ r. r >>= λ st. reset_loop rest st.chans)
            (close-open (record { chans = chans; sync_artifacts = rest }) v c p q)
          ∙ e,
      (
        keep v (
          record c { closed = true },
          get_elem?-set_self chans v (record c { closed = true }) c p,
          refl,
        ),
        all,
      ),
      λ i h. keep i (IsClosed-set chans i v (record c { closed = true }) h refl),
    )

receive-IsClosed :
    (st : Artifacts) (id : ℕ)
    → IsClosed st.chans id
    → (err : Err) × (t : Artifacts) × (receive id st ≡ done (err, t)) × IsClosed t.chans id
unfolding receive
receive-IsClosed st id (c, e, f) = elim (Option-cases c.buffer) [
  | inl b ↦ (none, st, rw (e, receive) (rw (b, f)), (c, e, f))
  | inr (v, b) ↦
      let d : Chan = record c { buffer = none } in
      (
        v,
        record st { chans = set st.chans id d },
        rw (e, receive) (rw b),
        (d, get_elem?-set_self st.chans id d c e, f),
      )
]

-- A waiter whose channel is closed panics, whichever case its `select` takes.
wait-panics :
    (choice : Choice) (name : String) (id : ℕ) (st : Artifacts)
    → IsClosed st.chans id
    → wait choice name id st ≡ panic
unfolding wait select_case
wait-panics (context_done canceled) name id st h = rw (close-closed st id h)
wait-panics (context_done deadline_exceeded) name id st h = rw (close-closed st id h)
wait-panics answered name id st h =
    let (err, t, e, closed) = receive-IsClosed st id h in rw e (rw (close-closed t id closed))

pub lookup-All :
    (P : ℕ → Type 0) (m : Dict ℕ) (name : String) (id : ℕ)
    → All (λ e. P e.1) m
    → Dict.lookup name m ≡ some id
    → P id
unfolding Dict.lookup
lookup-All P [] name id h e = cc
lookup-All P ((k, v) ∷ m) name id h e = elim (Bool-cases (k == name)) [
  | inl t ↦ subst P (some_injective (rw t at e)) h.0
  | inr t ↦ lookup-All P m name id h.1 (rw t at e)
]

-- When every registered channel is open and no two names share one, a reset completes and empties
-- the table, and the waiter of any name that was registered then panics, on the second close of its
-- channel, whether it was answered or its context ended.
pub wait-reset-panics :
    (st : Artifacts) (name : String) (id : ℕ)
    → IsValid st
    → Dict.lookup name st.sync_artifacts ≡ some id
    → (t : Artifacts) × (sync_artifact_reset st ≡ done t)
      × (t.sync_artifacts ≡ [])
      × ((choice : Choice) → wait choice name id t ≡ panic)
unfolding sync_artifact_reset
wait-reset-panics st name id v l =
    let (end, e, all, keep) = reset_loop-done st.sync_artifacts st.chans v in
    let t : Artifacts = record { chans = end; sync_artifacts = [] } in
    (
      t,
      e,
      refl,
      λ choice.
          wait-panics choice name id t (lookup-All (IsClosed end) st.sync_artifacts name id all l),
    )
