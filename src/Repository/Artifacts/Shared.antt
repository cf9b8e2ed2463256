-- ===== src/Repository/Artifacts/Shared.antt =====
-- Two sync operations that wait for artifacts of one name.
use beskar.Prelude.{
  ℕ, String, ◌≡◌, ◌≢◌, refl, ◌∙◌, true, false, none, some, List, [], ◌∷◌, ◌++◌, arith, length,
  length-append, get_elem?, set, get_elem?-append_last, get_elem?-append_left, get_elem?-set_ne,
}
use beskar.Prelude.Dict
use beskar.Prelude.Dict.{Dict, lookup-remove_self}
use beskar.Prelude.Outcome.{done, blocked, Err}
use beskar.Repository.Artifacts.{
  Chan, Artifacts, new_chan, receive, sync_artifact, ContextErr, canceled, deadline_exceeded,
  context_done, answered, select_case, wait, sync_artifact_result,
}
use beskar.Repository.Artifacts.Results.{close-open}

-- The text that a waiter returns when its context is done.
abbrev pub timeout_message : ContextErr → String
timeout_message canceled = "waiting timeout"
timeout_message deadline_exceeded = "waiting interruption"

wait-context_done :
    (e : ContextErr) (name : String) (id : ℕ) (c : Chan) (st : Artifacts)
    → get_elem? st.chans id ≡ some c
    → c.closed ≡ false
    → wait (context_done e) name id st
      ≡ done (
        some (timeout_message e),
        record {
          chans = set st.chans id (record c { closed = true });
          sync_artifacts = Dict.remove name st.sync_artifacts;
        },
      )
unfolding wait select_case
wait-context_done canceled name id c st at open' = rw (close-open st id c at open')
wait-context_done deadline_exceeded name id c st at open' = rw (close-open st id c at open')

wait-blocked :
    (name : String) (id : ℕ) (st : Artifacts)
    → get_elem? st.chans id ≡ some new_chan
    → wait answered name id st ≡ blocked
unfolding wait select_case receive
wait-blocked name id st at = rw (at, receive)

result-dropped :
    (name : String) (err : Err) (st : Artifacts)
    → Dict.lookup name st.sync_artifacts ≡ none
    → sync_artifact_result name err st ≡ done st
unfolding sync_artifact_result
result-dropped name err st e = rw (e, sync_artifact_result)

-- When the first of two waiters for one name gives up, it takes the entry of the second out of the
-- table: an answer that comes then is dropped, and the second waiter goes on waiting for it.
pub wait-same_name_lost :
    (name : String) (st : Artifacts) (e : ContextErr) (err : Err)
    → let (id, one) = sync_artifact name st in
      let (id', both) = sync_artifact name one in
      (t : Artifacts) × (wait (context_done e) name id both ≡ done (some (timeout_message e), t))
      × (sync_artifact_result name err t ≡ done t)
      × (wait answered name id' t ≡ blocked)
unfolding sync_artifact
wait-same_name_lost name st e err =
    let id : ℕ = length st.chans in
    let one : List Chan = st.chans ++ new_chan ∷ [] in
    let id' : ℕ = length one in
    let both : List Chan = one ++ new_chan ∷ [] in
    let table : Dict ℕ = Dict.insert name id' (Dict.insert name id st.sync_artifacts) in
    let at0 : get_elem? both id ≡ some new_chan =
      get_elem?-append_left one (new_chan ∷ []) id new_chan
        (get_elem?-append_last st.chans new_chan) in
    let apart : id ≢ id' = λ p. absurd (omega (arith, length-append st.chans (new_chan ∷ []), p)) in
    let at1 : get_elem? (set both id (record new_chan { closed = true })) id' ≡ some new_chan =
      get_elem?-set_ne both id id' (record new_chan { closed = true }) apart
      ∙ get_elem?-append_last one new_chan in
    let t : Artifacts = record {
      chans = set both id (record new_chan { closed = true });
      sync_artifacts = Dict.remove name table;
    } in
    (
      t,
      wait-context_done e name id new_chan (record { chans = both; sync_artifacts = table }) at0
          refl,
      result-dropped name err t (lookup-remove_self name table),
      wait-blocked name id' t at1,
    )
