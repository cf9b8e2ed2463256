-- ===== src/Yum/Reposync/Completes.antt =====
-- A sync that has met no error can go on.
use mathlib.Core.Path.{subst}
use beskar.Prelude.{
  ℕ, String, Bool, true, false, ◌≡◌, ◌⊎◌, inl, inr, refl, sym, ◌∙◌, ap, Option, none, some, List,
  [], ◌∷◌, arith, length, length-append, ◌==◌, has, eq_refl, Bool-cases,
}
use beskar.Prelude.Dict
use beskar.Prelude.Dict.{Dict}
use beskar.Prelude.Result.{ok}
use beskar.Yum.Sql.{query_row, exec_one, exec_delete}
use beskar.Yum.Packages.{
  RepositoryPackage, add_package, remove_package, first_of_id, get_package_by_tag, no_entry_found,
}
use beskar.Yum.Packages.Ids.{first-lookup}
use beskar.Yum.Packages.Rows.{calm}
use beskar.Yum.Reposync.{
  Sync, Ids, Take, here, keep_overridden, visit, drop_found, tag_of, Step, walk, drop, load, store,
  lock, count, report, Filter, asking, found, dropped, loaded, Counting, unlocked, counted,
  counting, spawn, look, push, turn, remove, Fault, walk_fault, fetch_fault, push_fault,
  remove_fault, acquire_fault, Steps, start, step, fault,
}
use beskar.Yum.Reposync.Stored.{settled_row}
use beskar.Yum.Reposync.Invariant.{Inv}

keep_overridden-ok :
    (found : Option RepositoryPackage) (ids : Ids)
    → (t : Ids) × (keep_overridden (query_row calm no_entry_found found) ids ≡ ok t)
unfolding keep_overridden query_row
keep_overridden-ok none ids = (ids, refl)
keep_overridden-ok (some pkg) ids = elim (Bool-cases (pkg.id == "")) [
  | inl e ↦ (ids, rw e)
  | inr e ↦ (Dict.remove pkg.id ids, rw e)
]

pub List-cases :
    (xs : List String) → (xs ≡ []) ⊎ ((x : String) × (ys : List String) × (xs ≡ x ∷ ys))
List-cases [] = inl refl
List-cases (x ∷ ys) = inr (x, ys, refl)

Counting-cases : (m : Counting) → (m ≡ unlocked) ⊎ (m ≡ counted) ⊎ ((n : ℕ) × (m ≡ counting n))
Counting-cases unlocked = inl refl
Counting-cases counted = inr (inl refl)
Counting-cases (counting n) = inr (inr (n, refl))

Filter-cases :
    (f : Filter) → (f ≡ asking) ⊎ (f ≡ found) ⊎ (f ≡ dropped) ⊎ ((n : ℕ) × (f ≡ loaded n))
Filter-cases asking = inl refl
Filter-cases found = inr (inl refl)
Filter-cases dropped = inr (inr (inl refl))
Filter-cases (loaded n) = inr (inr (inr (n, refl)))

Ids-cases : (ids : Ids) → (ids ≡ []) ⊎ ((x : String) × (Dict.lookup x ids ≡ some tt))
unfolding Dict.lookup
Ids-cases [] = inl refl
Ids-cases ((x, tt) ∷ ids) = inr (x, rw (eq_refl x))

add_package-calm :
    (md5_hex : String → String) (pkg : RepositoryPackage) (rows : Dict RepositoryPackage)
    → (t : Dict RepositoryPackage) × (add_package md5_hex calm pkg rows ≡ (none, t))
unfolding add_package exec_one
add_package-calm md5_hex pkg rows = (_, refl)

pub remove_package-calm :
    (id : String) (rows : Dict RepositoryPackage)
    → (deleted : Bool) × (t : Dict RepositoryPackage) × (remove_package calm id rows
        ≡ (ok deleted, t))
unfolding remove_package exec_delete
remove_package-calm id rows = (_, _, refl)

visit-flags :
    (id : String) (ids : List String) (s : Sync)
    → ((visit id ids s).stopped ≡ s.stopped) × ((visit id ids s).failed ≡ s.failed)
unfolding visit
visit-flags id ids s = (ground arith, ground arith)

module _ (md5_hex : String → String) (pkg_of : String → RepositoryPackage) where
  pub Step-flags :
      {s t : Sync} → Step md5_hex pkg_of s t → (t.stopped ≡ s.stopped) × (t.failed ≡ s.failed)
  unfolding drop_found
  Step-flags {s = s} (walk id ids q f0 w e) =
      let (p, f) = visit-flags id ids s in (ap (λ x. x.stopped) e ∙ p, ap (λ x. x.failed) e ∙ f)
  Step-flags (drop id ids q f e) = (ap (λ x. x.stopped) e, ap (λ x. x.failed) e)
  Step-flags (load f e) = (ap (λ x. x.stopped) e, ap (λ x. x.failed) e)
  Step-flags (store n f e) = (ap (λ x. x.stopped) e, ap (λ x. x.failed) e)
  Step-flags (lock id ids f k e) = (ap (λ x. x.stopped) e, ap (λ x. x.failed) e)
  Step-flags (count n f e) = (ap (λ x. x.stopped) e, ap (λ x. x.failed) e)
  Step-flags (report opening io total f e) = (ap (λ x. x.stopped) e, ap (λ x. x.failed) e)
  Step-flags (spawn id ids z q w e) = (ap (λ x. x.stopped) e, ap (λ x. x.failed) e)
  Step-flags (look id ids map k o e) = (ap (λ x. x.stopped) e, ap (λ x. x.failed) e)
  Step-flags (push io id ids rows k a e) = (ap (λ x. x.stopped) e, ap (λ x. x.failed) e)
  Step-flags (turn r f a b c d _ _ _ e) = (ap (λ x. x.stopped) e, ap (λ x. x.failed) e)
  Step-flags (remove io id pkg deleted rows r z m o a e) =
      (ap (λ x. x.stopped) e, ap (λ x. x.failed) e)

  Fault-failed : {s t : Sync} → Fault md5_hex pkg_of s t → t.failed ≡ true
  Fault-failed (walk_fault w e) = ap (λ x. x.failed) e
  Fault-failed (fetch_fault id ids k e) = ap (λ x. x.failed) e
  Fault-failed (push_fault io id ids k e) = ap (λ x. x.failed) e
  Fault-failed (remove_fault io id r m e) = ap (λ x. x.failed) e
  Fault-failed (acquire_fault e) = ap (λ x. x.failed) e

  -- A loop that has given up has noted an error.
  pub stopped-failed :
      {s t : Sync}
      → s.stopped ≡ false
      → Steps md5_hex pkg_of s t
      → t.stopped ≡ true
      → t.failed ≡ true
  stopped-failed h start o = absurd (ground (arith, h, o))
  stopped-failed h (step p q) o = let (a, b) = Step-flags q in b ∙ stopped-failed h p (sym a ∙ o)
  stopped-failed h (fault p q) o = Fault-failed q

  -- What a sync with no error behind it can do next.
  pub next_removal :
      (upstream : List String) (before : Dict RepositoryPackage) (s : Sync)
      → Inv md5_hex pkg_of upstream before s
      → s.stopped ≡ false
      → s.removing ≡ true
      → (s.db_packages ≡ []) ⊎ ((t : Sync) × Step md5_hex pkg_of s t)
  next_removal upstream before s i z r = elim (Ids-cases s.db_packages) [
    | inl e ↦ inl e
    | inr (id, m) ↦
        let (pkg, l, q) = settled_row md5_hex pkg_of id s.rows (i.stored id (ap has m)) in
        let (row, o) = first-lookup (tag_of md5_hex pkg_of id) s.rows pkg l in
        let (deleted, rows, d) = remove_package-calm id s.rows in
        inr (
          _,
          remove calm id row deleted rows r z m (sym (ap (λ x. first_of_id x s.rows) q) ∙ o) d refl,
        )
  ]

  next_count :
      (s : Sync) → ((s.mutex ≡ unlocked) × (s.pushed ≡ [])) ⊎ ((t : Sync) × Step md5_hex pkg_of s t)
  next_count s = elim (Counting-cases s.mutex) [
    | inr (inl e) ↦ inr (_, report none calm 0 e refl)
    | inr (inr (n, e)) ↦ inr (_, count n e refl)
    | inl e ↦ elim (List-cases s.pushed) [
      | inl p ↦ inl (e, p)
      | inr (id, ids, q) ↦ inr (_, lock id ids e (subst (λ x. Take id x ids) (sym q) here) refl)
    ]
  ]

  next_filter :
      (upstream : List String) (before : Dict RepositoryPackage) (s : Sync)
      → Inv md5_hex pkg_of upstream before s
      → (s.filter ≡ asking) ⊎ ((t : Sync) × Step md5_hex pkg_of s t)
  next_filter upstream before s i = elim (Filter-cases s.filter) [
    | inl e ↦ inl e
    | inr (inl e) ↦ let (id, ids, q, held) = i.filtered e in inr (_, drop id ids q e refl)
    | inr (inr (inl e)) ↦ inr (_, load e refl)
    | inr (inr (inr (n, e))) ↦ inr (_, store n e refl)
  ]

  next_worker :
      (s : Sync) → ((s.looked ≡ []) × (s.fetching ≡ [])) ⊎ ((t : Sync) × Step md5_hex pkg_of s t)
  unfolding get_package_by_tag
  next_worker s = elim (List-cases s.looked) [
    | inr (id, ids, q) ↦
        let (rows, a) = add_package-calm md5_hex (pkg_of id) s.rows in
        inr (_, push calm id ids rows (subst (λ x. Take id x ids) (sym q) here) a refl)
    | inl nl ↦ elim (List-cases s.fetching) [
      | inr (id, ids, q) ↦
          let (map, o) =
            keep_overridden-ok (Dict.lookup (tag_of md5_hex pkg_of id) s.rows) s.db_packages in
          inr (_, look id ids map (subst (λ x. Take id x ids) (sym q) here) o refl)
      | inl nf ↦ inl (nl, nf)
    ]
  ]

  pub next_walk :
      (upstream : List String) (before : Dict RepositoryPackage) (s : Sync)
      → Inv md5_hex pkg_of upstream before s
      → s.stopped ≡ false
      → s.failed ≡ false
      → s.removing ≡ false
      → (t : Sync) × Step md5_hex pkg_of s t
  next_walk upstream before s i z f r = elim (next_count s) [
    | inr n ↦ n
    | inl (u, np) ↦ elim (next_worker s) [
      | inr n ↦ n
      | inl (nl, nf) ↦ elim (List-cases s.waiting) [
        | inr (id, ids, q) ↦ (
          _,
          spawn id ids z q
              (ground (
                arith,
                ap length nl,
                ap length nf,
                ap length np,
                u,
                length-append s.fetching s.looked,
              ))
              refl,
        )
        | inl nw ↦ elim (next_filter upstream before s i) [
          | inr n ↦ n
          | inl a ↦ elim (List-cases s.todo) [
            | inr (id, ids, q) ↦ (_, walk id ids q a (ground (arith, ap length nw)) refl)
            | inl nt ↦ (_, turn r f nt nw nf nl np a u refl)
          ]
        ]
      ]
    ]
  ]
