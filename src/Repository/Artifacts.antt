-- ===== src/Repository/Artifacts.antt =====
-- SyncArtifact, SyncArtifactResult and SyncArtifactReset of a RepoHandler (handler.go): a sync
-- operation registers a channel under the artifact's name, and the event loop answers on it.
-- Channels live on a heap, since a waiter keeps its channel when the table loses it.
pub mod Results
pub mod Answers
pub mod Shared
use beskar.Prelude.{
  ℕ, String, Bool, true, false, Option, none, some, List, [], ◌∷◌, ◌++◌, if◌then◌else◌, length,
  get_elem?, set,
}
use beskar.Prelude.Dict
use beskar.Prelude.Dict.{Dict}
use beskar.Prelude.Outcome.{Outcome, done, blocked, panic, ◌>>=◌, Err}

-- `chan error` of capacity 1.
pub record Chan : Type 0 where
  pub buffer : Option Err
  pub closed : Bool

pub record Artifacts : Type 0 where
  pub chans : List Chan
  pub sync_artifacts : Dict ℕ

abbrev pub new_chan : Chan
new_chan = record { buffer = none; closed = false }

-- Operations of the language on the channel `id`; a channel that is not there is nil.
unfoldable pub send : ℕ → Err → Artifacts → Outcome Artifacts
send id v st = elim (get_elem? st.chans id) [
  | none ↦ blocked
  | some c ↦ if c.closed then panic else elim c.buffer [
    | none ↦ done (record st { chans = set st.chans id (record c { buffer = some v }) })
    | some _ ↦ blocked
  ]
]

unfoldable pub receive : ℕ → Artifacts → Outcome (Err × Artifacts)
receive id st = elim (get_elem? st.chans id) [
  | none ↦ blocked
  | some c ↦ elim c.buffer [
    | some v ↦ done (v, record st { chans = set st.chans id (record c { buffer = none }) })
    | none ↦ if c.closed then done (none, st) else blocked
  ]
]

unfoldable pub close : ℕ → Artifacts → Outcome Artifacts
close id st = elim (get_elem? st.chans id) [
  | none ↦ panic
  | some c ↦
      if c.closed
      then panic
      else done (record st { chans = set st.chans id (record c { closed = true }) })
]

-- `SyncArtifact`: the new channel, and the table with it.
unfoldable pub sync_artifact : String → Artifacts → ℕ × Artifacts
sync_artifact name st = (
  length st.chans,
  record {
    chans = st.chans ++ new_chan ∷ [];
    sync_artifacts = Dict.insert name (length st.chans) st.sync_artifacts;
  },
)

pub data ContextErr : Type 0 where
  canceled deadline_exceeded : ContextErr

-- The case that the waiter's `select` takes.
pub data Choice : Type 0 where
  context_done : ContextErr → Choice
  answered : Choice

unfoldable pub select_case : Choice → ℕ → Artifacts → Outcome (Err × Artifacts)
select_case (context_done canceled) id st = done (some "waiting timeout", st)
select_case (context_done deadline_exceeded) id st = done (some "waiting interruption", st)
select_case answered id st = receive id st

-- The function that `SyncArtifact` returns.
unfoldable pub wait : Choice → String → ℕ → Artifacts → Outcome (Err × Artifacts)
wait choice name id st = do
  (err, st') ← select_case choice id st
  st'' ← close id st'
  done (err, record st'' { sync_artifacts = Dict.remove name st''.sync_artifacts })

-- `SyncArtifactResult` blocks with the read lock held when the channel is full.
unfoldable pub sync_artifact_result : String → Err → Artifacts → Outcome Artifacts
sync_artifact_result name err st = elim (Dict.lookup name st.sync_artifacts) [
  | none ↦ done st
  | some id ↦ send id err st
]

-- The loop of `SyncArtifactReset`; `delete` during the iteration takes the visited entry.
unfoldable pub reset_loop : Dict ℕ → List Chan → Outcome Artifacts
reset_loop [] chans = done (record { chans = chans; sync_artifacts = [] })
reset_loop ((k, v) ∷ rest) chans = do
  st ← close v (record { chans = chans; sync_artifacts = rest })
  reset_loop rest st.chans

unfoldable pub sync_artifact_reset : Artifacts → Outcome Artifacts
unfolding reset_loop
sync_artifact_reset st = reset_loop st.sync_artifacts st.chans
