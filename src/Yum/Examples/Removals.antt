-- ===== src/Yum/Examples/Removals.antt =====
-- The theorems on the removal of packages and of a repository, on a handler with one package.
use beskar.Prelude.{◌≡◌, refl, false, Option, none, some, [], ◌∷◌}
use beskar.Prelude.Outcome.{done}
use beskar.Prelude.Result.{ok}
use beskar.Repository.Queue.{started, stop_begin}
use beskar.Repository.Artifacts.{sync_artifact_reset, reset_loop}
use beskar.Yum.Sql.{query_row, count_rows}
use beskar.Yum.Status.{get_properties}
use beskar.Yum.Packages.{
  RepositoryPackage, get_package, get_package_by_tag, count_packages, first_of_id,
}
use beskar.Prelude.Dict
use beskar.Yum.Metadata.{walk_table, walk_entries}
use beskar.Yum.Handler.{Handler, get_db}
use beskar.Yum.Api.{ApiErr}
use beskar.Yum.Api.Removal.{
  Registry, remove_package_from_beskar, find_package, remove_after, remove_repository_package,
  remove_repository_package_by_tag,
}
use beskar.Yum.Api.Removal.Outcomes.{
  IsRemoval, remove_repository_package-guarded, remove_repository_package_by_tag-guarded,
}
use beskar.Yum.Api.Deleting.{
  DeleteIo, remove_repomd_from_beskar, metadata_loop, delete_metadata, delete_packages,
  delete_created, finish_delete, delete_started, delete_repository,
}
use beskar.Yum.Api.Deleting.Flag.{delete_repository_lem}
use beskar.Yum.Examples.{fine, bash_pkg, el9, handler_of}

abbrev bash : RepositoryPackage
bash = record bash_pkg { tag = "t" }

abbrev with_bash : Handler
with_bash = record el9 { packages = ("t", bash) ∷ [] }

-- A registry that knows one manifest.
abbrev registry : Registry
registry = record {
  manifest_digest = λ ref. ok "sha256:aa";
  removed = λ name ref h. done (none, record h { packages = [] });
}

abbrev removed_bash : Handler
removed_bash = handler_of with_bash (remove_repository_package registry none fine "aa" with_bash)

remove_bash :
    remove_repository_package registry none fine "aa" with_bash ≡ done (none, removed_bash)
unfolding remove_repository_package remove_after remove_package_from_beskar find_package get_package
    query_row first_of_id started get_db
remove_bash = refl

remove_repository_package-guarded_example :
    IsRemoval registry (get_package fine "aa") with_bash removed_bash
remove_repository_package-guarded_example =
    remove_repository_package-guarded registry none fine "aa" with_bash removed_bash remove_bash

abbrev removed_t : Handler
removed_t = handler_of with_bash (remove_repository_package_by_tag registry none fine "t" with_bash)

remove_t :
    remove_repository_package_by_tag registry none fine "t" with_bash ≡ done (none, removed_t)
unfolding remove_repository_package_by_tag remove_after remove_package_from_beskar find_package
    get_package_by_tag query_row Dict.lookup started get_db
remove_t = refl

remove_repository_package_by_tag-guarded_example :
    IsRemoval registry (get_package_by_tag fine "t") with_bash removed_t
remove_repository_package_by_tag-guarded_example =
    remove_repository_package_by_tag-guarded registry none fine "t" with_bash removed_t remove_t

abbrev delete_io : DeleteIo
delete_io = record {
  opening = λ d. none;
  get = fine;
  count = fine;
  walk = fine;
  delete_manifest = λ ref h. (none, h);
  packages = λ h. done (none, record h { packages = [] });
  stopped = λ h. done h;
  decimal = λ n. "n";
}

abbrev no_error : Option ApiErr
no_error = none

abbrev deleted_el9 : Handler
deleted_el9 = handler_of el9 (delete_repository registry delete_io false el9)

delete_el9 : delete_repository registry delete_io false el9 ≡ done (none, deleted_el9)
unfolding delete_repository delete_started delete_created delete_packages delete_metadata
    metadata_loop remove_repomd_from_beskar finish_delete started get_db get_properties query_row
    count_packages count_rows walk_table walk_entries sync_artifact_reset reset_loop stop_begin
delete_el9 = refl

delete_repository_lem_example :
    ((x : ApiErr) → no_error ≡ some x → deleted_el9.delete ≡ false)
    × (no_error ≡ none → false ≡ false → el9.packages ≡ [])
delete_repository_lem_example =
    delete_repository_lem registry delete_io false el9 deleted_el9 no_error refl delete_el9
