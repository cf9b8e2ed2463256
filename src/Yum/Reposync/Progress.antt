-- ===== src/Yum/Reposync/Progress.antt =====
-- What is left to do gets less with every step of a sync.
use Prim.Native.Nat.{◌*◌}
use mathlib.Core.Path.{subst}
use beskar.Prelude.{
  ℕ, ◌+◌, ◌≤◌, ◌<◌, String, ◌≡◌, inl, inr, sym, ap, Option, some, List, [], ◌∷◌, arith,
  if◌then◌else◌, length, length-append, ◌==◌, Bool-cases,
}
use beskar.Prelude.Dict
use beskar.Prelude.Dict.{Dict}
use beskar.Prelude.Result.{ok}
use beskar.Yum.Sql.{query_row}
use beskar.Yum.Packages.{RepositoryPackage, get_package_by_tag, no_entry_found}
use beskar.Yum.Packages.Rows.{calm}
use beskar.Yum.Reposync.{
  Sync, Ids, keep_overridden, visit, drop_found, tag_of, Step, walk, drop, load, store, spawn, look,
  push, lock, count, report, turn, asking, found, dropped, loaded, unlocked, counted, counting,
  remove,
}
use beskar.Yum.Reposync.Sets.{in_map, Take-length, keep_overridden-cases}

length-remove : (id : String) (ids : Ids) → length (Dict.remove id ids) ≤ length ids
unfolding Dict.remove
length-remove id [] = ground arith
length-remove id ((x, u) ∷ ids) = ground (arith, length-remove id ids)

length-remove_present :
    (id : String) (ids : Ids)
    → Dict.lookup id ids ≡ some tt
    → length (Dict.remove id ids) < length ids
unfolding Dict.remove Dict.lookup
length-remove_present id [] h = absurd (ground (arith, h))
length-remove_present id ((x, u) ∷ ids) h =
    let rest = length-remove_present id ids in
    elim (Bool-cases (x == id)) [
      | inl e ↦ ground (arith, e, length-remove id ids)
      | inr e ↦ ground (arith, e, rest (ground (arith, e, h)))
    ]

-- What is left to do.
abbrev pub measure : Sync → ℕ
measure s =
    7 * length s.todo
    + elim s.filter [ asking ↦ 1 | found ↦ 0 | dropped ↦ 3 | loaded n ↦ 2 ]
    + 6 * length s.waiting
    + 5 * length s.fetching
    + 4 * length s.looked
    + 3 * length s.pushed
    + elim s.mutex [ unlocked ↦ 0 | counting n ↦ 2 | counted ↦ 1 ]
    + length s.db_packages
    + (if s.removing then 0 else 1)

measure-visit :
    (id : String) (ids : List String) (s : Sync)
    → s.todo ≡ id ∷ ids
    → s.filter ≡ asking
    → measure (visit id ids s) < measure s
unfolding visit
measure-visit id ids s q w = elim (Bool-cases (in_map id s.db_packages)) [
  | inl b ↦ rw b (ground (arith, w))
  | inr b ↦ rw b (ground (arith, w, ap length q, length-append s.waiting (id ∷ [])))
]

keep_overridden-length :
    (row : Option RepositoryPackage) (ids t : Ids)
    → keep_overridden (query_row calm no_entry_found row) ids ≡ ok t
    → length t ≤ length ids
keep_overridden-length row ids t h = elim (keep_overridden-cases row ids t h) [
  | inl (n, e) ↦ ground (arith, ap length e)
  | inr (pkg, n, inl (z, e)) ↦ ground (arith, ap length e)
  | inr (pkg, n, inr e) ↦ ground (arith, ap length e, length-remove pkg.id ids)
]

module _ (md5_hex : String → String) (pkg_of : String → RepositoryPackage) where
  pub Step-measure : {s t : Sync} → Step md5_hex pkg_of s t → measure t < measure s
  unfolding get_package_by_tag drop_found
  Step-measure {s = s} (walk id ids q f w e) =
      subst (λ x. measure x < measure s) (sym e) (measure-visit id ids s q f)
  Step-measure {s = s} (drop id ids q f e) =
      subst (λ x. measure x < measure s) (sym e)
        (ground (arith, f, ap length q, length-remove id s.db_packages))
  Step-measure {s = s} (load f e) = subst (λ x. measure x < measure s) (sym e) (ground (arith, f))
  Step-measure {s = s} (store n f e) =
      subst (λ x. measure x < measure s) (sym e) (ground (arith, f))
  Step-measure {s = s} (lock id ids f k e) =
      subst (λ x. measure x < measure s) (sym e) (ground (arith, f, Take-length k))
  Step-measure {s = s} (count n f e) =
      subst (λ x. measure x < measure s) (sym e) (ground (arith, f))
  Step-measure {s = s} (report opening io total f e) =
      subst (λ x. measure x < measure s) (sym e) (ground (arith, f))
  Step-measure {s = s} (spawn id ids z q w e) =
      subst (λ x. measure x < measure s) (sym e) (ground (arith, ap length q))
  Step-measure {s = s} (look id ids map k o e) =
      subst (λ x. measure x < measure s) (sym e)
        (ground (
          arith,
          Take-length k,
          keep_overridden-length (Dict.lookup (tag_of md5_hex pkg_of id) s.rows) s.db_packages map
              o,
        ))
  Step-measure {s = s} (push io id ids rows k a e) =
      subst (λ x. measure x < measure s) (sym e) (ground (arith, Take-length k))
  Step-measure {s = s} (turn r f a b c d _ _ _ e) =
      subst (λ x. measure x < measure s) (sym e) (ground (arith, r))
  Step-measure {s = s} (remove io id pkg deleted rows r z m o a e) =
      subst (λ x. measure x < measure s) (sym e)
        (ground (arith, length-remove_present id s.db_packages m))
