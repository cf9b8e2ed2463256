-- ===== src/Yum/Api/Sync.antt =====
-- The API calls that start a sync of a mirror (internal/plugins/yum/pkg/yumrepository/api.go).
-- `wait` is the channel that a call which waits has made; `served` is what the event loop and the
-- sync make of the handler until they answer on it.
pub mod Exclusive
use Prim.Native.String.{◌++◌ as str_append}
use beskar.Prelude.{
  ℕ, String, Bool, true, false, not, Option, none, some, List, [], ◌∷◌, if◌then◌else◌,
}
use beskar.Prelude.Outcome.{Outcome, done, blocked, panic, ◌>>=◌, Err}
use beskar.Prelude.Result.{Result}
use beskar.Repository.Queue.{started}
use beskar.Yum.Handler.{Handler}
use beskar.Yum.Properties.{set_mirror_urls}
use beskar.Yum.Api.{
  Code, unavailable, failed_precondition, already_exists, internal, ApiErr, wrapped,
  is_being_deleted,
}

abbrev pub already_running : ApiErr
already_running = wrapped already_exists "a repository sync is already running"

abbrev pub is_empty {ℓ} : {A : Type ℓ} → List A → Bool
is_empty [] = true
is_empty (x ∷ xs) = false

-- The `select` that sends on the channel of capacity 1, and the wait for the answer.
unfoldable pub send_sync :
    Option ℕ → (ℕ → Handler → Outcome (Err × Handler)) → Handler → Outcome (Option ApiErr × Handler)
send_sync wait served h = if h.sync_ch_closed then panic else elim h.sync_ch [
  | some _ ↦ done (some (wrapped unavailable "something goes wrong"), h)
  | none ↦
      let h1 : Handler = record h { sync_ch = some wait } in
      elim wait [
        | none ↦ done (none, h1)
        | some wait_err_ch ↦ served wait_err_ch h1 >>= λ (e, h2). elim e [
          | some e ↦ done (some (wrapped internal (str_append "synchronization failed: " e)), h2)
          | none ↦ done (none, h2)
        ]
      ]
]

-- The tests behind those on the mirror: `h.syncing.Swap(true)` sets the flag in either case.
unfoldable pub claim_sync :
    Option ℕ → (ℕ → Handler → Outcome (Err × Handler)) → Handler → Outcome (Option ApiErr × Handler)
claim_sync wait served h =
    if h.delete
    then done (some (is_being_deleted h.repository_name), h)
    else if h.syncing
    then done (some already_running, h)
    else send_sync wait served (record h { syncing = true })

unfoldable pub sync_started :
    Option ℕ → (ℕ → Handler → Outcome (Err × Handler)) → Handler → Outcome (Option ApiErr × Handler)
sync_started wait served h =
    if not h.mirror
    then done (some (wrapped failed_precondition "repository not setup as a mirror"), h)
    else if is_empty h.mirror_urls
    then done (some (wrapped failed_precondition "repository doesn't have mirror URLs setup"), h)
    else claim_sync wait served h

unfoldable pub sync_repository :
    Option ℕ → (ℕ → Handler → Outcome (Err × Handler)) → Handler → Outcome (Option ApiErr × Handler)
sync_repository wait served h = started h.repo >>= λ (running, repo).
    let h1 : Handler = record h { repo = repo } in
    if running then sync_started wait served h1 else done (some (wrapped unavailable ""), h1)

-- The URL is set before the tests on the deletion and on a running sync.
unfoldable pub sync_url_started :
    (String → Result String)
    → String
    → Option ℕ
    → (ℕ → Handler → Outcome (Err × Handler))
    → Handler
    → Outcome (Option ApiErr × Handler)
sync_url_started parse_url url wait served h =
    if not h.mirror
    then done (some (wrapped failed_precondition "repository not setup as a mirror"), h)
    else (let (e, h1) = set_mirror_urls parse_url (url ∷ []) h in
        elim e [ some e ↦ done (some (wrapped internal e), h1) | none ↦ claim_sync wait served h1 ])

unfoldable pub sync_repository_with_url :
    (String → Result String)
    → String
    → Option ℕ
    → (ℕ → Handler → Outcome (Err × Handler))
    → Handler
    → Outcome (Option ApiErr × Handler)
sync_repository_with_url parse_url url wait served h = started h.repo >>= λ (running, repo).
    let h1 : Handler = record h { repo = repo } in
    if running
    then sync_url_started parse_url url wait served h1
    else done (some (wrapped unavailable ""), h1)
