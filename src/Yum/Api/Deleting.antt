-- ===== src/Yum/Api/Deleting.antt =====
-- `DeleteRepository` of internal/plugins/yum/pkg/yumrepository/api.go. What the concurrent workers
-- leave of the packages is an argument (`packages`; Yum/Deletion has their steps), and so is what the
-- event loop does until `Stop` returns (`stopped`). The workers on the metadata are taken one after
-- the other, in the order of the rows.
pub mod Flag
use Prim.Native.String.{◌++◌ as str_append}
use beskar.Prelude.{
  ℕ, String, Bool, true, false, not, Option, none, some, List, [], ◌∷◌, ◌++◌, if◌then◌else◌, ◌==◌,
  ltb,
}
use beskar.Prelude.Outcome.{Outcome, done, blocked, panic, ◌>>=◌, Err}
use beskar.Prelude.Result.{Result, ok, err}
use beskar.Yum.Sql.{Io}
use beskar.Repository.Queue.{RepoHandler, started, stop_begin}
use beskar.Repository.Artifacts.{Artifacts, sync_artifact_reset}
use beskar.Yum.Status.{Properties, get_properties}
use beskar.Yum.Packages.{count_packages}
use beskar.Yum.Metadata.{ExtraMetadata, walk_table}
use beskar.Yum.Handler.{Handler, Database, repository, metadata, status, get_db}
use beskar.Yum.Api.{
  Code, unavailable, failed_precondition, already_exists, not_found, internal, ApiErr, wrapped,
  is_being_deleted,
}
use beskar.Yum.Api.Removal.{Registry, processing}

-- `delete_manifest` is the call for repomd.xml, which waits for nothing; `decimal` is fmt's `%d`.
pub record DeleteIo : Type 0 where
  pub opening : Database → Err
  pub get : Io
  pub count : Io
  pub walk : Io
  pub delete_manifest : String → Handler → Err × Handler
  pub packages : Handler → Outcome (Err × Handler)
  pub stopped : Handler → Outcome Handler
  pub decimal : ℕ → String

abbrev pub repomd_xml_tag : String
repomd_xml_tag = "repomdxml"

-- `removeMetadataFromBeskar`, of repomd.xml and of an entry of the metadata database.
unfoldable pub remove_repomd_from_beskar : Registry → DeleteIo → Handler → Err × Handler
remove_repomd_from_beskar r io h =
    elim (r.manifest_digest
      (str_append h.repository_name (str_append "/repodata:" repomd_xml_tag))) [
        | err e ↦ (some e, h)
        | ok digest ↦
            let (e, h1) =
              io.delete_manifest (str_append h.repository_name (str_append "/repodata@" digest))
                h in
            (processing "metadata " repomd_xml_tag e, h1)
      ]

unfoldable pub remove_metadata_from_beskar :
    Registry → ExtraMetadata → Handler → Outcome (Err × Handler)
remove_metadata_from_beskar r meta h =
    elim (r.manifest_digest
      (str_append h.repository_name (str_append "/repodata:" meta.data_type))) [
        | err e ↦ done (some e, h)
        | ok digest ↦
            r.removed meta.filename (str_append h.repository_name (str_append "/repodata@" digest))
              h
            >>= λ (e, h1). done (processing "metadata " meta.data_type e, h1)
      ]

-- All the workers run; `Wait` reports their errors.
abbrev pub append_error : Err → Err → Err
append_error none e = e
append_error (some e) none = some e
append_error (some e) (some d) = some (str_append e (str_append "; " d))

unfoldable pub metadata_loop : Registry → List ExtraMetadata → Handler → Outcome (Err × Handler)
metadata_loop r [] h = done (none, h)
metadata_loop r (meta ∷ metas) h = remove_metadata_from_beskar r meta h >>= λ (e, h1).
    metadata_loop r metas h1 >>= λ (d, h2). done (append_error e d, h2)

-- The error of repomd.xml is dropped, whatever it is.
unfoldable pub delete_metadata : Registry → DeleteIo → Handler → Outcome (Option ApiErr × Handler)
unfolding get_db walk_table remove_repomd_from_beskar
delete_metadata r io h =
    let (e, h1) = get_db metadata (io.opening metadata) h in
    elim e [
      | some e ↦ done (some (wrapped internal e), h1)
      | none ↦
          let h2 : Handler = (remove_repomd_from_beskar r io h1).1 in
          let (e, metas) =
            walk_table io.walk (λ meta found. (none, found ++ meta ∷ [])) h2.extra_metadata [] in
          elim e [
            | some e ↦ done (some (wrapped internal e), h2)
            | none ↦ metadata_loop r metas h2 >>= λ (e, h3). elim e [
              | some e ↦ done (some (wrapped internal e), h3)
              | none ↦ done (none, h3)
            ]
          ]
    ]

unfoldable pub delete_packages :
    Registry → DeleteIo → Bool → Handler → Outcome (Option ApiErr × Handler)
unfolding get_db count_packages
delete_packages r io packages h =
    let (e, h1) = get_db repository (io.opening repository) h in
    elim e [
      | some e ↦ done (some (wrapped internal e), h1)
      | none ↦
          if packages
          then (io.packages h1 >>= λ (e, h2). elim e [
            | some e ↦ done (some (wrapped internal e), h2)
            | none ↦ delete_metadata r io h2
          ])
          else elim (count_packages io.count h1.packages) [
            | err e ↦ done (some (wrapped internal e), h1)
            | ok count ↦
                if ltb 0 count
                then done (
                  some (
                      wrapped failed_precondition (
                        str_append "repository " (
                          str_append h1.repository_name (
                            str_append " has "
                              (str_append (io.decimal count) " packages associated with it"))))),
                  h1,
                )
                else delete_metadata r io h1
          ]
    ]

unfoldable pub delete_created :
    Registry → DeleteIo → Bool → Handler → Outcome (Option ApiErr × Handler)
unfolding get_db
delete_created r io packages h =
    let (e, h1) = get_db status (io.opening status) h in
    elim e [
      | some e ↦ done (some (wrapped internal e), h1)
      | none ↦ elim (get_properties io.get h1.status_db) [
        | err e ↦ done (some (wrapped internal e), h1)
        | ok p ↦
            if p.created
            then delete_packages r io packages h1
            else done (
              some (
                  wrapped not_found
                    (str_append "repository " (str_append h1.repository_name " not found"))),
              h1,
            )
      ]
    ]

-- The deferred function: after an error the repository is open to calls again.
unfoldable pub finish_delete :
    DeleteIo → Option ApiErr × Handler → Outcome (Option ApiErr × Handler)
finish_delete io (e, h) = sync_artifact_reset h.artifacts >>= λ artifacts.
    let h1 : Handler = record h { artifacts = artifacts } in
    elim e [
      | some e ↦ done (some e, record h1 { delete = false })
      | none ↦ io.stopped (record h1 { repo = stop_begin h1.repo }) >>= λ h2. done (none, h2)
    ]

unfoldable pub delete_started :
    Registry → DeleteIo → Bool → Handler → Outcome (Option ApiErr × Handler)
delete_started r io packages h =
    if h.syncing
    then done (some (wrapped already_exists "a repository sync is running"), h)
    else if h.delete
    then done (some (is_being_deleted h.repository_name), h)
    else delete_created r io packages (record h { delete = true }) >>= finish_delete io

unfoldable pub delete_repository :
    Registry → DeleteIo → Bool → Handler → Outcome (Option ApiErr × Handler)
delete_repository r io packages h = started h.repo >>= λ (running, repo).
    let h1 : Handler = record h { repo = repo } in
    if running then delete_started r io packages h1 else done (some (wrapped unavailable ""), h1)
