-- ===== src/Yum/Api/Removal.antt =====
-- The API calls that read and remove packages and delete a repository
-- (internal/plugins/yum/pkg/yumrepository/api.go). What `SyncArtifact`, `DeleteManifest` and the
-- waiter make of the handler, with the event loop behind them, is an argument (`removed`), as are the
-- concurrent workers of `DeleteRepository` (`packages`; Yum/Deletion has their steps) and what the
-- event loop does until `Stop` returns (`stopped`). The workers on the metadata are taken one after
-- the other.
pub mod Outcomes
use Prim.Native.String.{◌++◌ as str_append}
use beskar.Prelude.{
  ℕ, String, Bool, true, false, not, Option, none, some, List, [], ◌∷◌, ◌++◌, if◌then◌else◌, ◌==◌,
  ltb, ◌⊎◌, inl, inr,
}
use beskar.Prelude.Dict.{Dict}
use beskar.Prelude.Outcome.{Outcome, done, blocked, panic, ◌>>=◌, Err}
use beskar.Prelude.Result.{Result, ok, err}
use beskar.Yum.Sql.{Io}
use beskar.Repository.Queue.{started, stop_begin}
use beskar.Repository.Artifacts.{sync_artifact_reset}
use beskar.Yum.Status.{Properties, Reposync, get_properties}
use beskar.Yum.Packages.{
  RepositoryPackage, rpm_name, get_package, get_package_by_tag, walk_packages, count_packages,
  no_entry_found,
}
use beskar.Yum.Metadata.{ExtraMetadata, walk_table}
use beskar.Yum.Handler.{Handler, Database, repository, metadata, status, get_db}
use beskar.Yum.Api.{
  Code, unavailable, failed_precondition, already_exists, not_found, internal, ApiErr, wrapped,
  is_being_deleted,
}

pub record Registry : Type 0 where
  pub manifest_digest : String → Result String
  pub removed : String → String → Handler → Outcome (Err × Handler)

abbrev pub processing : String → String → Err → Err
processing what name none = none
processing what name (some e) =
    some (str_append what (str_append name (str_append " removal processing error: " e)))

unfoldable pub remove_package_from_beskar :
    Registry → RepositoryPackage → Handler → Outcome (Err × Handler)
remove_package_from_beskar r pkg h =
    elim (r.manifest_digest (str_append h.repository_name (str_append "/packages:" pkg.tag))) [
      | err e ↦ done (some e, h)
      | ok digest ↦
          r.removed (rpm_name pkg) (str_append h.repository_name (str_append "/packages@" digest)) h
          >>= λ (e, h1). done (processing "package " (rpm_name pkg) e, h1)
    ]

-- The package that a call names: `find` reads the database of the packages.
unfoldable pub find_package :
    Err
    → (Dict RepositoryPackage → Result RepositoryPackage)
    → String
    → Handler
    → (ApiErr ⊎ RepositoryPackage) × Handler
unfolding get_db
find_package opening find missing h =
    let (e, h1) = get_db repository opening h in
    elim e [
      | some e ↦ (inl (wrapped internal e), h1)
      | none ↦ elim (find h1.packages) [
        | ok pkg ↦ (inr pkg, h1)
        | err e ↦ (
          inl (if e == no_entry_found then wrapped not_found missing else wrapped internal e),
          h1,
        )
      ]
    ]

abbrev pub missing_id : String → String
missing_id id = str_append "package with id " (str_append id " not found")

abbrev pub missing_tag : String → String
missing_tag tag = str_append "package with tag " (str_append tag " not found")

-- `GetRepositoryPackage` and `GetRepositoryPackageByTag`, with the package as it is stored.
unfoldable pub read_package :
    Err
    → (Dict RepositoryPackage → Result RepositoryPackage)
    → String
    → Handler
    → Outcome ((ApiErr ⊎ RepositoryPackage) × Handler)
unfolding find_package
read_package opening find missing h = started h.repo >>= λ (running, repo).
    let h1 : Handler = record h { repo = repo } in
    if running
    then done (find_package opening find missing h1)
    else done (inl (wrapped unavailable ""), h1)

unfoldable pub get_repository_package :
    Err → Io → String → Handler → Outcome ((ApiErr ⊎ RepositoryPackage) × Handler)
unfolding read_package
get_repository_package opening io id = read_package opening (get_package io id) (missing_id id)

unfoldable pub get_repository_package_by_tag :
    Err → Io → String → Handler → Outcome ((ApiErr ⊎ RepositoryPackage) × Handler)
unfolding read_package
get_repository_package_by_tag opening io tag =
    read_package opening (get_package_by_tag io tag) (missing_tag tag)

-- `ListRepositoryPackages`
unfoldable pub list_repository_packages :
    Err → Io → Handler → Outcome ((ApiErr ⊎ List RepositoryPackage) × Handler)
unfolding get_db walk_packages
list_repository_packages opening io h = started h.repo >>= λ (running, repo).
    let h1 : Handler = record h { repo = repo } in
    if running
    then (let (e, h2) = get_db repository opening h1 in
        elim e [
          | some e ↦ done (inl (wrapped internal e), h2)
          | none ↦
              let (e, packages) =
                walk_packages io (λ pkg found. (none, found ++ pkg ∷ [])) h2.packages [] in
              elim e [
                | some e ↦ done (inl (wrapped internal e), h2)
                | none ↦ done (inr packages, h2)
              ]
        ])
    else done (inl (wrapped unavailable ""), h1)

-- `GetRepositorySyncStatus` reads the status through a pointer that is nil before the handler has
-- loaded it; the call does not ask whether the handler has started.
unfoldable pub get_repository_sync_status : Handler → Outcome Reposync
get_repository_sync_status h = elim h.reposync [ none ↦ panic | some r ↦ done r ]

unfoldable pub remove_after :
    Registry → (ApiErr ⊎ RepositoryPackage) × Handler → Outcome (Option ApiErr × Handler)
remove_after r (inl e, h) = done (some e, h)
remove_after r (inr pkg, h) = remove_package_from_beskar r pkg h >>= λ (e, h1). elim e [
  | some e ↦ done (some (wrapped internal e), h1)
  | none ↦ done (none, h1)
]

unfoldable pub remove_repository_package :
    Registry → Err → Io → String → Handler → Outcome (Option ApiErr × Handler)
remove_repository_package r opening io id h = started h.repo >>= λ (running, repo).
    let h1 : Handler = record h { repo = repo } in
    if running
    then if h.mirror
      then done
          (some (wrapped failed_precondition "could not delete package for mirror repository"), h1)
      else if h.delete
      then done (some (is_being_deleted h.repository_name), h1)
      else remove_after r (find_package opening (get_package io id) (missing_id id) h1)
    else done (some (wrapped unavailable ""), h1)

unfoldable pub remove_repository_package_by_tag :
    Registry → Err → Io → String → Handler → Outcome (Option ApiErr × Handler)
remove_repository_package_by_tag r opening io tag h = started h.repo >>= λ (running, repo).
    let h1 : Handler = record h { repo = repo } in
    if running
    then if h.mirror
      then done
          (some (wrapped failed_precondition "could not delete package for mirror repository"), h1)
      else if h.delete
      then done (some (is_being_deleted h.repository_name), h1)
      else remove_after r (find_package opening (get_package_by_tag io tag) (missing_tag tag) h1)
    else done (some (wrapped unavailable ""), h1)
