-- ===== src/Yum/Api/Removal/Outcomes.antt =====
-- What a removal of a package that returns no error has found and done.
use beskar.Prelude.{
  String, ◌≡◌, refl, sym, ap, ◌∙◌, Bool, true, false, none, arith, Option-cases, Bool-cases, ◌⊎◌,
  inl, inr,
}
use beskar.Prelude.Dict.{Dict}
use beskar.Prelude.Outcome.{done, >>=-eq-done, Err}
use beskar.Prelude.Result.{Result, ok, err}
use beskar.Repository.Queue.{RepoHandler, started}
use beskar.Yum.Sql.{Io}
use beskar.Yum.Packages.{RepositoryPackage, get_package, get_package_by_tag}
use beskar.Yum.Handler.{Handler, Database, repository, get_db}
use beskar.Yum.Api.{ApiErr}
use beskar.Yum.Api.Removal.{
  Registry, remove_package_from_beskar, find_package, remove_after, remove_repository_package,
  remove_repository_package_by_tag, missing_id, missing_tag,
}

-- The parts of a removal: `find` is how the package was found, `asked` the handler that asked the
-- registry.
pub record IsRemoval (r : Registry) (find : Dict RepositoryPackage → Result RepositoryPackage)
    (h k : Handler) : Type 0 where
  pub repo : RepoHandler
  pub running : started h.repo ≡ done (true, repo)
  pub mirror : h.mirror ≡ false
  pub delete : h.delete ≡ false
  pub pkg : RepositoryPackage
  pub stored : find h.packages ≡ ok pkg
  pub asked : Handler
  pub packages : asked.packages ≡ h.packages
  pub removed : remove_package_from_beskar r pkg asked ≡ done (none, k)

pub get_db-packages :
    (d : Database) (opening : Err) (h : Handler) → (get_db d opening h).1.packages ≡ h.packages
unfolding get_db
get_db-packages d opening h = ground arith

Result-cases {ℓ} :
    {A : Type ℓ} (r : Result A) → ((e : String) × (r ≡ err e)) ⊎ ((a : A) × (r ≡ ok a))
Result-cases (err e) = inl (e, refl)
Result-cases (ok a) = inr (a, refl)

find_package-found :
    (opening : Err) (find : Dict RepositoryPackage → Result RepositoryPackage) (missing : String)
    (h : Handler) (pkg : RepositoryPackage)
    → (find_package opening find missing h).0 ≡ inr pkg
    → (find h.packages ≡ ok pkg) × ((find_package opening find missing h).1.packages ≡ h.packages)
unfolding find_package
find_package-found opening find missing h pkg p =
    let g : Err × Handler = get_db repository opening h in
    let same : g.1.packages ≡ h.packages = get_db-packages repository opening h in
    elim (Option-cases g.0) [
      | inr (e, n) ↦ absurd (ground (arith, p, n))
      | inl n ↦ elim (Result-cases (find g.1.packages)) [
        | inl (e, f) ↦ absurd (ground (arith, p, n, f))
        | inr (found, f) ↦
            (ap find (sym same) ∙ f ∙ ground (arith, p, n, f), ground (arith, n, f, same))
      ]
    ]

remove_after-none :
    (r : Registry) (x : (ApiErr ⊎ RepositoryPackage) × Handler) (k : Handler)
    → remove_after r x ≡ done (none, k)
    → (pkg : RepositoryPackage) × (x.0 ≡ inr pkg)
      × (remove_package_from_beskar r pkg x.1 ≡ done (none, k))
unfolding remove_after
remove_after-none r (inl e, h) k p = absurd (ground arith)
remove_after-none r (inr pkg, h) k p =
    let (a, q, s) = >>=-eq-done (remove_package_from_beskar r pkg h) _ p in
    elim (Option-cases a.0) [
      | inr (e, n) ↦ absurd (ground (arith, s, n))
      | inl n ↦ (pkg, refl, q ∙ ground (arith, s, n))
    ]

removal :
    (r : Registry) (opening : Err) (find : Dict RepositoryPackage → Result RepositoryPackage)
    (missing : String) (h k : Handler) (a : Bool × RepoHandler)
    → started h.repo ≡ done a
    → a.0 ≡ true
    → h.mirror ≡ false
    → h.delete ≡ false
    → remove_after r (find_package opening find missing (record h { repo = a.1 })) ≡ done (none, k)
    → IsRemoval r find h k
removal r opening find missing h k a q b m d p =
    let h1 : Handler = record h { repo = a.1 } in
    let x = find_package opening find missing h1 in
    let (pkg, f, removed) = remove_after-none r x k p in
    let (stored, packages) = find_package-found opening find missing h1 pkg f in
    (record {
      repo = a.1;
      running = q ∙ ap (λ y. done (y, a.1)) b;
      mirror = m;
      delete = d;
      pkg = pkg;
      stored = stored;
      asked = x.1;
      packages = packages;
      removed = removed;
    })

-- A call that removes a package by its id and returns no error has found the handler started, the
-- repository neither a mirror nor being deleted, and a package stored with that id; that package
-- was removed from the registry without an error, which gave the handler that the call leaves.
pub remove_repository_package-guarded :
    (r : Registry) (opening : Err) (io : Io) (id : String) (h k : Handler)
    → remove_repository_package r opening io id h ≡ done (none, k)
    → IsRemoval r (get_package io id) h k
unfolding remove_repository_package
remove_repository_package-guarded r opening io id h k p =
    let (a, q, s) = >>=-eq-done (started h.repo) _ p in
    elim (Bool-cases a.0) [
      | inr b ↦ absurd (ground (arith, b, s))
      | inl b ↦ elim (Bool-cases h.mirror) [
        | inl m ↦ absurd (ground (arith, b, s, m))
        | inr m ↦ elim (Bool-cases h.delete) [
          | inl d ↦ absurd (ground (arith, b, s, m, d))
          | inr d ↦
              removal r opening (get_package io id) (missing_id id) h k a q b m d
                (ground (arith, b, s, m, d))
        ]
      ]
    ]

-- A call that removes a package by its tag and returns no error has found the handler started, the
-- repository neither a mirror nor being deleted, and a package stored with that tag; that package
-- was removed from the registry without an error, which gave the handler that the call leaves.
pub remove_repository_package_by_tag-guarded :
    (r : Registry) (opening : Err) (io : Io) (tag : String) (h k : Handler)
    → remove_repository_package_by_tag r opening io tag h ≡ done (none, k)
    → IsRemoval r (get_package_by_tag io tag) h k
unfolding remove_repository_package_by_tag
remove_repository_package_by_tag-guarded r opening io tag h k p =
    let (a, q, s) = >>=-eq-done (started h.repo) _ p in
    elim (Bool-cases a.0) [
      | inr b ↦ absurd (ground (arith, b, s))
      | inl b ↦ elim (Bool-cases h.mirror) [
        | inl m ↦ absurd (ground (arith, b, s, m))
        | inr m ↦ elim (Bool-cases h.delete) [
          | inl d ↦ absurd (ground (arith, b, s, m, d))
          | inr d ↦
              removal r opening (get_package_by_tag io tag) (missing_tag tag) h k a q b m d
                (ground (arith, b, s, m, d))
        ]
      ]
    ]
