-- ===== src/Yum/Handler/Cleanup.antt =====
-- What `cleanup` does to the databases and the channels.
use mathlib.Core.Path.{subst}
use mathlib.Core.List.{append_assoc, append-nil}
use beskar.Prelude.{
  ◌≡◌, refl, ◌∙◌, sym, Bool, true, false, List, [], ◌∷◌, ◌++◌, arith, Bool-cases, inl, inr,
  if◌then◌else◌,
}
use beskar.Prelude.Outcome.{done, panic}
use beskar.Yum.Handler.{
  Handler, Database, repository, metadata, status, log, cleanup_db, cleanup_dbs, cleanup,
}

-- The database, if it is open, before the rest.
abbrev pub at : (Database → Bool) → Database → List Database → List Database
at opened d rest = if opened d then d ∷ rest else rest

-- The databases that are open, in the order of `cleanup`.
abbrev pub open_databases : (Database → Bool) → List Database
open_databases opened =
    at opened log (at opened status (at opened repository (at opened metadata [])))

-- What some databases add to the records of the handler `h`, before `rest` follows.
record Cleaned (grow : List Database → List Database) (h k : Handler) : Type 0 where
  closes : (rest : List Database) → k.closed ++ rest ≡ h.closed ++ grow rest
  deletes :
      (rest : List Database)
      → k.deleted ++ (if h.delete then rest else [])
        ≡ h.deleted ++ (if h.delete then grow rest else [])
  opened : k.opened ≡ h.opened
  delete : k.delete ≡ h.delete
  queued : k.repo.queued_closed ≡ h.repo.queued_closed
  sync_ch : k.sync_ch_closed ≡ h.sync_ch_closed

cleanup_db-Cleaned : (d : Database) (h : Handler) → Cleaned (at h.opened d) h (cleanup_db d h)
unfolding cleanup_db
cleanup_db-Cleaned d h = record {
  closes = λ rest. elim (Bool-cases (h.opened d)) [
    | inl e ↦ rw (e, cleanup_db) (append_assoc h.closed (d ∷ []) rest)
    | inr e ↦ rw (e, cleanup_db) refl
  ];
  deletes = λ rest.
      ground (arith, append_assoc h.deleted (d ∷ []) rest, append_assoc h.deleted (d ∷ []) []);
  opened = ground arith;
  delete = ground arith;
  queued = ground arith;
  sync_ch = ground arith;
}

Cleaned-trans :
    (f g : List Database → List Database) (h k l : Handler)
    → Cleaned f h k
    → Cleaned g k l
    → Cleaned (λ rest. f (g rest)) h l
Cleaned-trans f g h k l a b = record {
  closes = λ rest. b.closes rest ∙ a.closes (g rest);
  deletes = λ rest. ground (arith, b.deletes rest, a.deletes (g rest), a.delete);
  opened = b.opened ∙ a.opened;
  delete = b.delete ∙ a.delete;
  queued = b.queued ∙ a.queued;
  sync_ch = b.sync_ch ∙ a.sync_ch;
}

next-Cleaned :
    (opened : Database → Bool) (f : List Database → List Database) (d : Database) (h k : Handler)
    → h.opened ≡ opened
    → Cleaned f h k
    → Cleaned (λ rest. f (at opened d rest)) h (cleanup_db d k)
next-Cleaned opened f d h k e c =
    Cleaned-trans f (at opened d) h k (cleanup_db d k) c
      (subst (λ o. Cleaned (at o d) k (cleanup_db d k)) (c.opened ∙ e) (cleanup_db-Cleaned d k))

cleanup_dbs-Cleaned :
    (h : Handler)
    → Cleaned
        (λ rest.
          at h.opened log (at h.opened status (at h.opened repository (at h.opened metadata rest))))
        h
        (cleanup_dbs h)
unfolding cleanup_dbs
cleanup_dbs-Cleaned h =
    let h1 : Handler = cleanup_db log h in
    let h2 : Handler = cleanup_db status h1 in
    let h3 : Handler = cleanup_db repository h2 in
    next-Cleaned h.opened _ metadata h h3 refl (
      next-Cleaned h.opened _ repository h h2 refl
        (next-Cleaned h.opened _ status h h1 refl (cleanup_db-Cleaned log h)))

cleanup-dbs :
    (h : Handler)
    → (cleanup_dbs h).repo.queued_closed ≡ false
    → (cleanup_dbs h).sync_ch_closed ≡ false
    → cleanup h
      ≡ done (record (cleanup_dbs h) {
        repo = record (cleanup_dbs h).repo { queued_closed = true };
        sync_ch_closed = true;
        removed = true;
      })
unfolding cleanup
cleanup-dbs h q s = rw (q, s)

cleanup-closed : (h : Handler) → h.repo.queued_closed ≡ true → cleanup h ≡ panic
unfolding cleanup
cleanup-closed h q = rw ((cleanup_dbs-Cleaned h).queued ∙ q)

-- When neither channel is closed, a cleanup closes each open database once, deletes exactly those
-- when the repository is being deleted, and leaves the table; a second cleanup panics.
pub cleanup_lem :
    (h : Handler)
    → h.repo.queued_closed ≡ false
    → h.sync_ch_closed ≡ false
    → (k : Handler) × (cleanup h ≡ done k)
      × (k.closed ≡ h.closed ++ open_databases h.opened)
      × (k.deleted ≡ h.deleted ++ (if h.delete then open_databases h.opened else []))
      × (k.removed ≡ true)
      × (cleanup k ≡ panic)
cleanup_lem h q s =
    let c = cleanup_dbs-Cleaned h in
    let k : Handler = record (cleanup_dbs h) {
      repo = record (cleanup_dbs h).repo { queued_closed = true };
      sync_ch_closed = true;
      removed = true;
    } in
    (
      k,
      cleanup-dbs h (c.queued ∙ q) (c.sync_ch ∙ s),
      sym (append-nil k.closed) ∙ c.closes [],
      ground (arith, c.deletes [], append-nil k.deleted),
      refl,
      cleanup-closed k refl,
    )

pub cleanup-queued_closed : (h k : Handler) → cleanup h ≡ done k → k.repo.queued_closed ≡ true
unfolding cleanup
cleanup-queued_closed h k e = ground arith
