-- ===== src/Yum/Reposync/Reached.antt =====
-- Every step of a sync keeps its invariant.
use mathlib.Core.Path.{subst}
use beskar.Prelude.{
  suc, String, true, ◌||◌, ◌≡◌, inl, inr, refl, sym, ◌∙◌, ap, List, [], ◌∷◌, arith, ◌==◌, has,
  eq_iff, Bool-cases, String-cases,
}
use beskar.Prelude.Dict
use beskar.Prelude.Dict.{Dict, lookup-remove, lookup-insert}
use beskar.Yum.Packages.{RepositoryPackage, without_id}
use beskar.Yum.Reposync.{
  Sync, tag_of, Step, walk, drop, load, store, spawn, look, push, lock, count, report, asking,
  loaded, unlocked, counted, counting, add_synced_package, turn, remove, Fault, walk_fault,
  fetch_fault, push_fault, remove_fault, acquire_fault, Steps, start, step, fault,
}
use beskar.Yum.Reposync.Sets.{
  has_id, Take-has_id, Take-length, add_package-ok, remove_package-ok, in_map, in_map-remove,
  add_package-cases, remove_package-cases,
}
use beskar.Yum.Reposync.Invariant.{Inv, visit-Inv, drop-Inv, count-Inv, look-apart, look-known}
use beskar.Yum.Reposync.Preserved.{push-Inv, remove-Inv, fault-Inv}

module _ (md5_hex : String → String) (pkg_of : String → RepositoryPackage) (upstream : List String)
    (before : Dict RepositoryPackage) (named : (id : String) → (pkg_of id).id ≡ id)
    (distinct : (id other : String)
      → has_id id upstream ≡ true
      → has_id other upstream ≡ true
      → tag_of md5_hex pkg_of id ≡ tag_of md5_hex pkg_of other
      → id ≡ other) where
  Step-Inv :
      {s t : Sync}
      → Inv md5_hex pkg_of upstream before s
      → Step md5_hex pkg_of s t
      → Inv md5_hex pkg_of upstream before t
  Step-Inv {s = s} i (walk id ids q f w e) =
      subst (Inv md5_hex pkg_of upstream before) (sym e)
        (visit-Inv md5_hex pkg_of upstream before id ids s i q f)
  Step-Inv {s = s} i (drop id ids q f e) =
      subst (Inv md5_hex pkg_of upstream before) (sym e)
        (drop-Inv md5_hex pkg_of upstream before id ids s i q f)
  Step-Inv {s = s} i (load f e) = subst (Inv md5_hex pkg_of upstream before) (sym e) (
      count-Inv md5_hex pkg_of upstream before (loaded s.synced_packages) s.pushed s.mutex
        s.synced_packages s.shown s i (λ g. absurd (ground (arith, g))))
  Step-Inv {s = s} i (store n f e) = subst (Inv md5_hex pkg_of upstream before) (sym e) (
      count-Inv md5_hex pkg_of upstream before asking s.pushed s.mutex (suc n) s.shown s i
        (λ g. absurd (ground (arith, g))))
  Step-Inv {s = s} i (lock id ids f k e) = subst (Inv md5_hex pkg_of upstream before) (sym e) (
      count-Inv md5_hex pkg_of upstream before s.filter ids (counting s.synced_packages)
        s.synced_packages s.shown s i (λ g. g))
  Step-Inv {s = s} i (count n f e) = subst (Inv md5_hex pkg_of upstream before) (sym e) (
      count-Inv md5_hex pkg_of upstream before s.filter s.pushed counted (suc n) s.shown s i
        (λ g. g))
  Step-Inv {s = s} i (report opening io total f e) =
      subst (Inv md5_hex pkg_of upstream before) (sym e) (
        count-Inv md5_hex pkg_of upstream before s.filter s.pushed unlocked s.synced_packages
          (add_synced_package opening io total s.synced_packages s.shown) s i (λ g. g))
  Step-Inv {s = s} i (spawn id ids z q w e) =
      let left : (x : String) → has_id x s.waiting ≡ ((id == x) || has_id x ids) =
        λ x. ap (has_id x) q in
      subst (Inv md5_hex pkg_of upstream before) (sym e) (record {
        keyed = i.keyed;
        unique = i.unique;
        covered = λ x u. ground (arith, i.covered x u, left x);
        known = i.known;
        stored = i.stored;
        apart = i.apart;
        ahead = i.ahead;
        turned = λ r. absurd (ground (arith, i.turned r, q));
        listed = λ x m. i.listed x (ground (arith, left x, m));
        kept = i.kept;
        filtered = i.filtered;
        nameless = i.nameless;
      })
  Step-Inv {s = s} i (look id ids map k o e) =
      let left : (x : String) → has_id x s.fetching ≡ ((id == x) || has_id x ids) =
        λ x. Take-has_id x k in
      subst (Inv md5_hex pkg_of upstream before) (sym e) (record {
        keyed = i.keyed;
        unique = i.unique;
        covered = λ x u. ground (arith, i.covered x u, left x);
        known = λ g pkg l. ground (
          arith,
          i.known g pkg l,
          look-known md5_hex pkg_of upstream before id g pkg s map i o l,
          eq_iff (tag_of md5_hex pkg_of id) g,
        );
        stored = λ x m. i.stored x (look-apart md5_hex pkg_of upstream before id x s map i o m).0;
        apart = λ x other m h.
            let (m', ne) = look-apart md5_hex pkg_of upstream before id x s map i o m in
            elim (String-cases id other) [
              | inl p ↦ λ z. ne (ap (tag_of md5_hex pkg_of) p ∙ z)
              | inr p ↦ i.apart x other m' (ground (arith, h, p))
            ];
        ahead = λ x m u. i.ahead x (look-apart md5_hex pkg_of upstream before id x s map i o m).0 u;
        turned = λ r. absurd (ground (arith, i.turned r, Take-length k));
        listed = λ x m. i.listed x (ground (arith, left x, m));
        kept = i.kept;
        filtered = i.filtered;
        nameless = elim (Bool-cases (in_map "" map)) [
          | inl m ↦ absurd (
              ground (
                arith,
                (look-apart md5_hex pkg_of upstream before id "" s map i o m).0,
                i.nameless,
              ))
          | inr m ↦ m
        ];
      })
  Step-Inv {s = s} {t = t} i (push io id ids rows k a e) =
      let tag : String = tag_of md5_hex pkg_of id in
      let q : rows ≡ Dict.insert tag (record (pkg_of id) { tag = tag }) s.rows =
        add_package-ok md5_hex io (pkg_of id) s.rows rows a in
      subst (Inv md5_hex pkg_of upstream before)
        (sym (e ∙ ap (λ x. record s { looked = ids; rows = x; pushed = id ∷ s.pushed }) q))
        (push-Inv md5_hex pkg_of upstream before named distinct id ids (id ∷ s.pushed) s.failed s i
          k (λ f. f))
  Step-Inv {s = s} i (turn r f a b c d _ _ _ e) =
      subst (Inv md5_hex pkg_of upstream before) (sym e) (record {
        keyed = i.keyed;
        unique = i.unique;
        covered = i.covered;
        known = i.known;
        stored = i.stored;
        apart = i.apart;
        ahead = λ x m u. ground (arith, i.ahead x m u, f, a);
        turned = λ _. (a, b, c, d);
        listed = i.listed;
        kept = i.kept;
        filtered = i.filtered;
        nameless = i.nameless;
      })
  Step-Inv {s = s} {t = t} i (remove io id pkg deleted rows r z m o a e) =
      let q : rows ≡ without_id id s.rows = remove_package-ok io id s.rows rows deleted a in
      subst (Inv md5_hex pkg_of upstream before)
        (sym (e ∙ ap (λ x. record s { db_packages = Dict.remove id s.db_packages; rows = x }) q))
        (remove-Inv md5_hex pkg_of upstream before named distinct id s.failed s i r (ap has m)
          (λ f. f))

  Fault-Inv :
      {s t : Sync}
      → Inv md5_hex pkg_of upstream before s
      → Fault md5_hex pkg_of s t
      → Inv md5_hex pkg_of upstream before t
  Fault-Inv {s = s} i (walk_fault w e) = subst (Inv md5_hex pkg_of upstream before) (sym e) (
      fault-Inv md5_hex pkg_of upstream before named distinct [] s.fetching s.looked s.db_packages
        s.stopped s i (λ g. absurd (ground (arith, g, w))) (λ x m. absurd (ground (arith, m)))
        (λ x m. m) (λ x m. m) (λ x m. m))
  Fault-Inv {s = s} i (fetch_fault id ids k e) =
      subst (Inv md5_hex pkg_of upstream before) (sym e) (
        fault-Inv md5_hex pkg_of upstream before named distinct s.todo ids s.looked s.db_packages
          s.stopped s i (λ g. refl) (λ x m. m) (λ x m. ground (arith, Take-has_id x k, m))
          (λ x m. m) (λ x m. m))
  Fault-Inv {s = s} i (push_fault io id ids k e) =
      let tag : String = tag_of md5_hex pkg_of id in
      let shape : Dict RepositoryPackage → Sync =
        λ x. record s { looked = ids; rows = x; failed = true } in
      elim (add_package-cases md5_hex io (pkg_of id) s.rows) [
        | inl q ↦ subst (Inv md5_hex pkg_of upstream before) (sym (e ∙ ap shape q)) (
            fault-Inv md5_hex pkg_of upstream before named distinct s.todo s.fetching ids
              s.db_packages s.stopped s i (λ g. refl) (λ x m. m) (λ x m. m)
              (λ x m. ground (arith, Take-has_id x k, m)) (λ x m. m))
        | inr q ↦ subst (Inv md5_hex pkg_of upstream before) (sym (e ∙ ap shape q)) (
            push-Inv md5_hex pkg_of upstream before named distinct id ids s.pushed true s i k
              (λ f. refl))
      ]
  Fault-Inv {s = s} i (remove_fault io id r m e) =
      let shape : Dict RepositoryPackage → Sync =
        λ x. record s { db_packages = Dict.remove id s.db_packages; rows = x; failed = true } in
      elim (remove_package-cases io id s.rows) [
        | inl q ↦ subst (Inv md5_hex pkg_of upstream before) (sym (e ∙ ap shape q)) (
            fault-Inv md5_hex pkg_of upstream before named distinct s.todo s.fetching s.looked
              (Dict.remove id s.db_packages) s.stopped s i (λ g. refl) (λ x m. m) (λ x m. m)
              (λ x m. m) (λ x m. ground (arith, in_map-remove id x s.db_packages, m)))
        | inr q ↦ subst (Inv md5_hex pkg_of upstream before) (sym (e ∙ ap shape q)) (
            remove-Inv md5_hex pkg_of upstream before named distinct id true s i r (ap has m)
              (λ f. refl))
      ]
  Fault-Inv {s = s} i (acquire_fault e) = subst (Inv md5_hex pkg_of upstream before) (sym e) (
      fault-Inv md5_hex pkg_of upstream before named distinct s.todo s.fetching s.looked
        s.db_packages true s i (λ g. refl) (λ x m. m) (λ x m. m) (λ x m. m) (λ x m. m))

  pub Steps-Inv :
      {s t : Sync}
      → Inv md5_hex pkg_of upstream before s
      → Steps md5_hex pkg_of s t
      → Inv md5_hex pkg_of upstream before t
  Steps-Inv i start = i
  Steps-Inv i (step p q) = Step-Inv (Steps-Inv i p) q
  Steps-Inv i (fault p q) = Fault-Inv (Steps-Inv i p) q
