-- ===== src/Yum/Reposync/Bounds.antt =====
-- The count of synced packages, whose increments by the filter and by a worker may be lost.
use beskar.Prelude.{
  ℕ, ◌+◌, ◌≤◌, String, true, ◌≡◌, inl, inr, sym, ap, List, [], ◌∷◌, arith, length, length-append,
  Bool-cases, refl, ◌∙◌, none, some, ◌++◌,
}
use mathlib.Core.Path.{subst}
use beskar.Prelude.Dict
use beskar.Prelude.Dict.{Dict}
use beskar.Prelude.Outcome.{Err}
use beskar.Yum.Sql.{Io}
use beskar.Yum.Packages.{RepositoryPackage}
use beskar.Yum.Reposync.{
  Sync, Ids, Shown, asking, found, dropped, loaded, unlocked, counted, counting, visit, drop_found,
  add_synced_package, Step, walk, drop, load, store, spawn, look, push, lock, count, report, turn,
  remove, Fault, walk_fault, fetch_fault, push_fault, remove_fault, acquire_fault, Steps, start,
  step, fault, begin,
}
use beskar.Yum.Reposync.Sets.{in_map, Take-length}

-- The packages whose increment has not been stored.
abbrev ahead : Sync → ℕ
ahead s =
    length s.todo
    + elim s.filter [ asking ↦ 0 | found ↦ 0 | dropped ↦ 1 | loaded n ↦ 1 ]
    + length s.waiting
    + length s.fetching
    + length s.looked
    + length s.pushed
    + elim s.mutex [ unlocked ↦ 0 | counting n ↦ 1 | counted ↦ 0 ]

-- `n` bounds the count, and what a load of it will store.
record IsBounded (n : ℕ) (s : Sync) : Type 0 where
  pub now : s.synced_packages + ahead s ≤ n
  pub filtering : (k : ℕ) → s.filter ≡ loaded k → k + ahead s ≤ n
  pub working : (k : ℕ) → s.mutex ≡ counting k → k + ahead s ≤ n
  pub seen : s.shown.reposync.synced_packages ≤ n

-- A step that stores no count.
less :
    (n : ℕ) (s t : Sync)
    → IsBounded n s
    → t.synced_packages ≡ s.synced_packages
    → t.filter ≡ s.filter
    → t.mutex ≡ s.mutex
    → t.shown ≡ s.shown
    → ahead t ≤ ahead s
    → IsBounded n t
less n s t b c f m w a = record {
  now = ground (arith, b.now, c, a);
  filtering = λ k e. ground (arith, b.filtering k (sym f ∙ e), a);
  working = λ k e. ground (arith, b.working k (sym m ∙ e), a);
  seen = ground (arith, b.seen, ap (λ (x : Shown). x.reposync.synced_packages) w);
}

visit-IsBounded :
    (n : ℕ) (id : String) (ids : List String) (s : Sync)
    → IsBounded n s
    → s.todo ≡ id ∷ ids
    → s.filter ≡ asking
    → IsBounded n (visit id ids s)
unfolding visit
visit-IsBounded n id ids s b q f = elim (Bool-cases (in_map id s.db_packages)) [
  | inl m ↦ rw m (record {
    now = ground (arith, b.now, f);
    filtering = λ k e. absurd (ground (arith, e));
    working = λ k e. ground (arith, b.working k e, f);
    seen = b.seen;
  })
  | inr m ↦ rw m (
      less n s (record s { todo = ids; waiting = s.waiting ++ id ∷ [] }) b refl refl refl refl
        (ground (arith, ap length q, length-append s.waiting (id ∷ []))))
]

shown-seen :
    (n : ℕ) (opening : Err) (io : Io) (total synced : ℕ) (shown : Shown)
    → shown.reposync.synced_packages ≤ n
    → synced ≤ n
    → (add_synced_package opening io total synced shown).reposync.synced_packages ≤ n
unfolding add_synced_package
shown-seen n none io total synced shown h k = k
shown-seen n (some e) io total synced shown h k = h

module _ (md5_hex : String → String) (pkg_of : String → RepositoryPackage) (n : ℕ) where
  Step-IsBounded : {s t : Sync} → IsBounded n s → Step md5_hex pkg_of s t → IsBounded n t
  unfolding drop_found
  Step-IsBounded {s = s} b (walk id ids q f w e) =
      subst (IsBounded n) (sym e) (visit-IsBounded n id ids s b q f)
  Step-IsBounded {s = s} b (drop id ids q f e) = subst (IsBounded n) (sym e) (record {
    now = ground (arith, b.now, f, ap length q);
    filtering = λ k g. absurd (ground (arith, g));
    working = λ k g. ground (arith, b.working k g, f, ap length q);
    seen = b.seen;
  })
  Step-IsBounded {s = s} b (load f e) = subst (IsBounded n) (sym e) (record {
    now = ground (arith, b.now, f);
    filtering = λ k g. ground (arith, b.now, f, g);
    working = λ k g. ground (arith, b.working k g, f);
    seen = b.seen;
  })
  Step-IsBounded {s = s} b (store m f e) = subst (IsBounded n) (sym e) (record {
    now = ground (arith, b.filtering m f, f);
    filtering = λ k g. absurd (ground (arith, g));
    working = λ k g. ground (arith, b.working k g, f);
    seen = b.seen;
  })
  Step-IsBounded {s = s} {t = t} b (spawn id ids z q w e) = subst (IsBounded n) (sym e) (
      less n s (record s { waiting = ids; fetching = id ∷ s.fetching }) b refl refl refl refl
        (ground (arith, ap length q)))
  Step-IsBounded {s = s} b (look id ids map k o e) = subst (IsBounded n) (sym e) (
      less n s (record s { fetching = ids; looked = id ∷ s.looked; db_packages = map }) b refl refl
        refl refl (ground (arith, Take-length k)))
  Step-IsBounded {s = s} b (push io id ids rows k a e) = subst (IsBounded n) (sym e) (
      less n s (record s { looked = ids; rows = rows; pushed = id ∷ s.pushed }) b refl refl refl
        refl (ground (arith, Take-length k)))
  Step-IsBounded {s = s} b (lock id ids f k e) = subst (IsBounded n) (sym e) (record {
    now = ground (arith, b.now, f, Take-length k);
    filtering = λ j g. ground (arith, b.filtering j g, f, Take-length k);
    working = λ j g. ground (arith, b.now, f, g, Take-length k);
    seen = b.seen;
  })
  Step-IsBounded {s = s} b (count m f e) = subst (IsBounded n) (sym e) (record {
    now = ground (arith, b.working m f, f);
    filtering = λ k g. ground (arith, b.filtering k g, f);
    working = λ k g. absurd (ground (arith, g));
    seen = b.seen;
  })
  Step-IsBounded {s = s} b (report opening io total f e) = subst (IsBounded n) (sym e) (record {
    now = ground (arith, b.now, f);
    filtering = λ k g. ground (arith, b.filtering k g, f);
    working = λ k g. absurd (ground (arith, g));
    seen = shown-seen n opening io total s.synced_packages s.shown b.seen (ground (arith, b.now));
  })
  Step-IsBounded {s = s} b (turn r f x y z w u v q e) =
      subst (IsBounded n) (sym e)
        (less n s (record s { removing = true }) b refl refl refl refl (ground arith))
  Step-IsBounded {s = s} b (remove io id pkg deleted rows r z m o a e) =
      subst (IsBounded n) (sym e) (
        less n s (record s { db_packages = Dict.remove id s.db_packages; rows = rows }) b refl refl
          refl refl (ground arith))

  Fault-IsBounded : {s t : Sync} → IsBounded n s → Fault md5_hex pkg_of s t → IsBounded n t
  Fault-IsBounded {s = s} {t = t} b (walk_fault w e) =
      less n s t b (ap (λ x. x.synced_packages) e) (ap (λ x. x.filter) e) (ap (λ x. x.mutex) e)
        (ap (λ x. x.shown) e) (ground (arith, ap ahead e))
  Fault-IsBounded {s = s} {t = t} b (fetch_fault id ids k e) =
      less n s t b (ap (λ x. x.synced_packages) e) (ap (λ x. x.filter) e) (ap (λ x. x.mutex) e)
        (ap (λ x. x.shown) e) (ground (arith, ap ahead e, Take-length k))
  Fault-IsBounded {s = s} {t = t} b (push_fault io id ids k e) =
      less n s t b (ap (λ x. x.synced_packages) e) (ap (λ x. x.filter) e) (ap (λ x. x.mutex) e)
        (ap (λ x. x.shown) e) (ground (arith, ap ahead e, Take-length k))
  Fault-IsBounded {s = s} {t = t} b (remove_fault io id r m e) =
      less n s t b (ap (λ x. x.synced_packages) e) (ap (λ x. x.filter) e) (ap (λ x. x.mutex) e)
        (ap (λ x. x.shown) e) (ground (arith, ap ahead e))
  Fault-IsBounded {s = s} {t = t} b (acquire_fault e) =
      less n s t b (ap (λ x. x.synced_packages) e) (ap (λ x. x.filter) e) (ap (λ x. x.mutex) e)
        (ap (λ x. x.shown) e) (ground (arith, ap ahead e))

  Steps-IsBounded : {s t : Sync} → IsBounded n s → Steps md5_hex pkg_of s t → IsBounded n t
  Steps-IsBounded b start = b
  Steps-IsBounded b (step p x) = Step-IsBounded (Steps-IsBounded b p) x
  Steps-IsBounded b (fault p x) = Fault-IsBounded (Steps-IsBounded b p) x

-- At every step of a sync, also after an error and however the increments by the filter and by the
-- workers overlap, the count of synced packages is at most the number of packages that the mirror
-- lists, and so is the count that the status of the handler shows, when it was so at the start.
pub sync_bounded :
    (md5_hex : String → String) (pkg_of : String → RepositoryPackage) (upstream : List String)
    (ids : Ids) (rows : Dict RepositoryPackage) (shown : Shown) (t : Sync)
    → shown.reposync.synced_packages ≤ length upstream
    → Steps md5_hex pkg_of (begin upstream ids rows shown) t
    → (t.synced_packages ≤ length upstream) × (t.shown.reposync.synced_packages ≤ length upstream)
sync_bounded md5_hex pkg_of upstream ids rows shown t h p =
    let b : IsBounded (length upstream) t =
      Steps-IsBounded md5_hex pkg_of (length upstream)
        (record {
          now = ground arith;
          filtering = λ k e. absurd (ground (arith, e));
          working = λ k e. absurd (ground (arith, e));
          seen = h;
        })
        p in
    (ground (arith, b.now), b.seen)
