-- ===== src/Yum/Api/Sync/Exclusive.antt =====
-- One sync at a time: while one is requested or runs, another call is refused.
use mathlib.Core.Path.{subst}
use beskar.Prelude.{ℕ, ◌≡◌, sym, ◌∙◌, refl, true, false, Option, none, some, arith}
use beskar.Prelude.Outcome.{Outcome, done, Err}
use beskar.Repository.Queue.{RepoHandler, started}
use beskar.Yum.Handler.{Handler}
use beskar.Yum.Api.Sync.{
  already_running, is_empty, send_sync, claim_sync, sync_started, sync_repository,
}

-- What a call that returned no error and did not wait has found and left.
pub record Requested (h : Handler) (k : Handler) : Type 0 where
  pub mirror : h.mirror ≡ true
  pub urls : is_empty h.mirror_urls ≡ false
  pub delete : h.delete ≡ false
  pub idle : h.syncing ≡ false
  pub free : h.sync_ch ≡ none
  pub left : k ≡ record h { syncing = true; sync_ch = some none }

sync_started-Requested :
    (h k : Handler) (served : ℕ → Handler → Outcome (Err × Handler))
    → sync_started none served h ≡ done (none, k)
    → Requested h k
unfolding sync_started claim_sync send_sync
sync_started-Requested h k served e = ground arith

started-running :
    (rh : RepoHandler)
    → rh.started_closed ≡ true
    → rh.stopped ≡ false
    → started rh ≡ done (true, rh)
unfolding started
started-running rh p q = rw (p, started, q)

running-started :
    (h : Handler) (wait : Option ℕ) (served : ℕ → Handler → Outcome (Err × Handler))
    → h.repo.started_closed ≡ true
    → h.repo.stopped ≡ false
    → sync_repository wait served h ≡ sync_started wait served h
unfolding sync_repository
running-started h wait served p q = rw (started-running h.repo p q)

busy :
    (h : Handler) (wait : Option ℕ) (served : ℕ → Handler → Outcome (Err × Handler))
    → h.mirror ≡ true
    → is_empty h.mirror_urls ≡ false
    → h.delete ≡ false
    → h.syncing ≡ true
    → sync_started wait served h ≡ done (some already_running, h)
unfolding sync_started claim_sync
busy h wait served m u d s = ground arith

-- On a started repository, a call of `SyncRepository` that does not wait and reports no error has
-- found a mirror with URLs that is not being deleted and not syncing, and has left it syncing with
-- the request in the channel; in that state every call of `SyncRepository`, waiting or not, is
-- refused and changes nothing.
pub sync_repository-Requested :
    (h k : Handler) (served : ℕ → Handler → Outcome (Err × Handler))
    → h.repo.started_closed ≡ true
    → h.repo.stopped ≡ false
    → sync_repository none served h ≡ done (none, k)
    → Requested h k
      × ((wait : Option ℕ) (served' : ℕ → Handler → Outcome (Err × Handler))
          → sync_repository wait served' k ≡ done (some already_running, k))
sync_repository-Requested h k served p q e =
    let r : Requested h k =
      sync_started-Requested h k served (sym (running-started h none served p q) ∙ e) in
    let k' : Handler = record h { syncing = true; sync_ch = some none } in
    (
      r,
      λ wait served'.
          subst (λ x. sync_repository wait served' x ≡ done (some already_running, x)) (sym r.left)
            (running-started k' wait served' p q
              ∙ busy k' wait served' r.mirror r.urls r.delete refl),
    )
