-- ===== src/Yum/Loop/Start.antt =====
-- internal/plugins/yum/pkg/yumrepository/handler.go: what `Start` settles.
use beskar.Prelude.{ℕ, ◌≡◌, Bool, true, some, arith, ltb}
use beskar.Prelude.Outcome.{done}
use beskar.Yum.Status.{Reposync}
use beskar.Yum.Handler.{Handler}
use beskar.Yum.Loop.{resume_syncing, settle}

-- When the sync status is loaded, the end of the start's tests on it makes a mirror syncing exactly
-- when events are left, and another repository exactly when its sync status says so; the times of
-- the last sync and its error stay as they were stored.
pub settle_lem :
    (now num_events : ℕ) (h t : Handler) (r : Reposync)
    → h.reposync ≡ some r
    → settle now num_events h ≡ done t
    → (t.syncing ≡ resume_syncing h.mirror num_events r.syncing)
      × (t.reposync ≡ some (record r { syncing = resume_syncing h.mirror num_events r.syncing }))
unfolding settle
settle_lem now num_events h t r e s = ground arith

pub resume_syncing_mirror :
    (num_events : ℕ) (syncing : Bool) → resume_syncing true num_events syncing ≡ ltb 0 num_events
unfolding resume_syncing
resume_syncing_mirror n s = ground arith
