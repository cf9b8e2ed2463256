-- ===== src/Repository/Artifacts/Answers.antt =====
-- Which answers the event loop can give, and that the operations keep the channels of the
-- registered artifacts open.
use beskar.Prelude.{
  ℕ, String, ◌≡◌, ◌≢◌, refl, sym, ap, ◌∙◌, true, false, none, some, List, [], ◌∷◌, ◌++◌, arith,
  length, get_elem?, set, All, ◌==◌, Bool-cases, Option-cases, get_elem?-set_self,
  get_elem?-append_last, get_elem?-append_left, get_elem?-lt, inl, inr,
}
use beskar.Prelude.Dict
use beskar.Prelude.Dict.{Dict, dict_laws, lookup-insert_self, lookup-remove_self}
use beskar.Prelude.Outcome.{done, blocked, panic, ◌>>=◌, Err}
use beskar.Repository.Artifacts.{
  Chan, Artifacts, new_chan, send, receive, sync_artifact, answered, select_case, wait,
  sync_artifact_result,
}
use beskar.Repository.Artifacts.Results.{IsOpen, IsClosed, OpenIds, IsValid, lookup-All, close-open}

OpenIds-All : (es : Dict ℕ) (chans : List Chan) → OpenIds es chans → All (λ e. IsOpen chans e.1) es
OpenIds-All [] chans o = tt
OpenIds-All ((k, v) ∷ es) chans o = (o.0, OpenIds-All es chans o.2)

send-open : (id : ℕ) (err : Err) (st : Artifacts) → IsOpen st.chans id → send id err st ≢ panic
unfolding send
send-open id err st (c, e, f) p = elim (Option-cases c.buffer) [
  | inl b ↦ cc (rw (e, send) at p, f, b)
  | inr (x, b) ↦ cc (rw (e, send) at p, f, b)
]

-- When every registered channel is open, the event loop's answer for a name does not panic.
pub sync_artifact_result-ne-panic :
    (st : Artifacts) (name : String) (err : Err)
    → IsValid st
    → sync_artifact_result name err st ≢ panic
unfolding sync_artifact_result
sync_artifact_result-ne-panic st name err v p =
    elim (Option-cases (Dict.lookup name st.sync_artifacts)) [
      | inl e ↦ cc (rw (e, sync_artifact_result) at p)
      | inr (id, e) ↦
          send-open id err st
            (lookup-All (IsOpen st.chans) st.sync_artifacts name id
              (OpenIds-All st.sync_artifacts st.chans v) e)
            (rw (e, sync_artifact_result) at p)
    ]

-- The waiter of an artifact that was registered and answered gets the answer; its entry goes, and
-- the entries of the other names stay.
pub record Answered (name : String) (id : ℕ) (before : Artifacts) (after : Artifacts) : Type 0 where
  pub closed : IsClosed after.chans id
  pub gone : Dict.lookup name after.sync_artifacts ≡ none
  pub others :
      (j : String)
      → (name == j) ≡ false
      → Dict.lookup j after.sync_artifacts ≡ Dict.lookup j before.sync_artifacts

abbrev full : Err → Chan
full err = record { buffer = some err; closed = false }

abbrev shut : Chan
shut = record { buffer = none; closed = true }

sync_artifact_result_lem :
    (name : String) (err : Err) (st : Artifacts) (id : ℕ)
    → Dict.lookup name st.sync_artifacts ≡ some id
    → get_elem? st.chans id ≡ some new_chan
    → sync_artifact_result name err st ≡ done (record st { chans = set st.chans id (full err) })
unfolding sync_artifact_result send
sync_artifact_result_lem name err st id l e = rw (l, sync_artifact_result) (rw (e, send))

send-full :
    (err again : Err) (st : Artifacts) (id : ℕ)
    → get_elem? st.chans id ≡ some (full err)
    → send id again st ≡ blocked
unfolding send
send-full err again st id e = rw (e, send)

-- When the channel of a name is open and empty, a second answer for the name before the waiter has
-- read the first one blocks the event loop, which then holds the read lock of the table.
pub result_twice-blocked :
    (name : String) (err again : Err) (st : Artifacts) (id : ℕ)
    → Dict.lookup name st.sync_artifacts ≡ some id
    → get_elem? st.chans id ≡ some new_chan
    → (sync_artifact_result name err st >>= sync_artifact_result name again) ≡ blocked
unfolding sync_artifact_result
result_twice-blocked name err again st id l e =
    let t : Artifacts = record st { chans = set st.chans id (full err) } in
    ap (λ r. r >>= sync_artifact_result name again) (sync_artifact_result_lem name err st id l e)
    ∙ rw (l, sync_artifact_result)
        (send-full err again t id (get_elem?-set_self st.chans id (full err) new_chan e))

receive-full :
    (err : Err) (st : Artifacts) (id : ℕ)
    → get_elem? st.chans id ≡ some (full err)
    → receive id st ≡ done (err, record st { chans = set st.chans id new_chan })
unfolding receive
receive-full err st id e = rw (e, receive)

wait-answered :
    (name : String) (st : Artifacts) (id : ℕ) (err : Err)
    → get_elem? st.chans id ≡ some (full err)
    → wait answered name id st
      ≡ done (
        err,
        record {
          chans = set (set st.chans id new_chan) id shut;
          sync_artifacts = Dict.remove name st.sync_artifacts;
        },
      )
unfolding wait select_case
wait-answered name st id err e =
    let t : Artifacts = record st { chans = set st.chans id new_chan } in
    rw (receive-full err st id e)
      (rw (close-open t id new_chan (get_elem?-set_self st.chans id new_chan (full err) e) refl))

-- Register, answer, wait: the waiter of an artifact gets the answer that was given for its name,
-- whatever it is; then its channel is closed, its entry is gone, and the entries of the other names
-- are as before.
pub wait-result-sync :
    (name : String) (err : Err) (st : Artifacts)
    → let (id, registered) = sync_artifact name st in
      (t : Artifacts) × ((sync_artifact_result name err registered >>= wait answered name id)
        ≡ done (err, t))
      × Answered name id st t
unfolding sync_artifact
wait-result-sync name err st =
    let id : ℕ = length st.chans in
    let c0 : List Chan = st.chans ++ new_chan ∷ [] in
    let table : Dict ℕ = Dict.insert name id st.sync_artifacts in
    let r : Artifacts = record { chans = c0; sync_artifacts = table } in
    let at0 : get_elem? c0 id ≡ some new_chan = get_elem?-append_last st.chans new_chan in
    let c1 : List Chan = set c0 id (full err) in
    let at1 : get_elem? c1 id ≡ some (full err) =
      get_elem?-set_self c0 id (full err) new_chan at0 in
    let at2 : get_elem? (set c1 id new_chan) id ≡ some new_chan =
      get_elem?-set_self c1 id new_chan (full err) at1 in
    (
      record { chans = set (set c1 id new_chan) id shut; sync_artifacts = Dict.remove name table },
      ap (λ x. x >>= wait answered name id)
            (sync_artifact_result_lem name err r id (lookup-insert_self name id st.sync_artifacts)
              at0)
          ∙ wait-answered name (record { chans = c1; sync_artifacts = table }) id err at1,
      record {
        closed = (shut, get_elem?-set_self (set c1 id new_chan) id shut new_chan at2, refl);
        gone = lookup-remove_self name table;
        others = λ j ne. simp dict_laws (rw ne);
      },
    )

-- A registration keeps every registered channel open and the names apart.
OpenIds-append :
    (es : Dict ℕ) (chans more : List Chan) → OpenIds es chans → OpenIds es (chans ++ more)
OpenIds-append [] chans more o = tt
OpenIds-append ((k, v) ∷ es) chans more ((c, e, f), fresh, o) =
    ((c, get_elem?-append_left chans more v c e, f), fresh, OpenIds-append es chans more o)

not-length : (es : Dict ℕ) (chans : List Chan) → OpenIds es chans → All (λ e. e.1 ≢ length chans) es
not-length [] chans o = tt
not-length ((k, v) ∷ es) chans ((c, e, f), fresh, o) =
    ((λ p. omega (arith, get_elem?-lt chans v c e)), not-length es chans o)

All-insert :
    (P : ℕ → Type 0) (k : String) (n : ℕ) (es : Dict ℕ)
    → P n
    → All (λ e. P e.1) es
    → All (λ e. P e.1) (Dict.insert k n es)
unfolding Dict.insert
All-insert P k n [] p h = (p, tt)
All-insert P k n ((j, w) ∷ m) p h = elim (Bool-cases (j == k)) [
  | inl t ↦ rw t (p, h.1)
  | inr t ↦ rw t (h.0, All-insert P k n m p h.1)
]

OpenIds-insert :
    (k : String) (n : ℕ) (es : Dict ℕ) (chans : List Chan)
    → IsOpen chans n
    → All (λ e. e.1 ≢ n) es
    → OpenIds es chans
    → OpenIds (Dict.insert k n es) chans
unfolding Dict.insert
OpenIds-insert k n [] chans here ne o = (here, tt, tt)
OpenIds-insert k n ((j, w) ∷ m) chans here ne (at, fresh, o) = elim (Bool-cases (j == k)) [
  | inl t ↦ rw t (here, ne.1, o)
  | inr t ↦ rw t (
    at,
    All-insert (λ i. i ≢ w) k n m (λ e. ne.0 (sym e)) fresh,
    OpenIds-insert k n m chans here ne.1 o,
  )
]

pub sync_artifact-IsValid :
    (name : String) (st : Artifacts) → IsValid st → IsValid (sync_artifact name st).1
unfolding sync_artifact
sync_artifact-IsValid name st v =
    OpenIds-insert name (length st.chans) st.sync_artifacts (st.chans ++ new_chan ∷ [])
      (new_chan, get_elem?-append_last st.chans new_chan, refl)
      (not-length st.sync_artifacts st.chans v)
      (OpenIds-append st.sync_artifacts st.chans (new_chan ∷ []) v)
