-- ===== src/Yum/Manifests.antt =====
-- How a yum repository processes the manifest of a package: package.go and database.go of package
-- yumrepository, and the choice of the layer in pkg/oras/layer.go.
-- The registry, the RPM reader and the metadata generator are arguments. The log database and the
-- downloaded files are not modelled.
pub mod Kept
pub mod Quiet
use Prim.Native.String.{◌++◌ as str_append}
use beskar.Prelude.{
  String, Bool, true, false, not, ◌&&◌, Option, none, some, List, [], ◌∷◌, ◌++◌, if◌then◌else◌,
  ◌==◌, has, suc,
}
use beskar.Prelude.Dict.{Dict}
use beskar.Prelude.Outcome.{Outcome, done, blocked, panic, ◌>>=◌, Err}
use beskar.Prelude.Result.{Result, ok, err}
use beskar.Event.{EventPayload, is_put, is_delete}
use beskar.Repository.Artifacts.{sync_artifact_result}
use beskar.Repository.Queue.{stop_begin}
use beskar.Yum.Sql.{Io}
use beskar.Yum.Status.{remove_event}
use beskar.Yum.Packages.{RepositoryPackage}
use beskar.Yum.Packages
use beskar.Yum.Metadata.{PackageMetadata}
use beskar.Yum.Metadata
use beskar.Yum.Handler.{Handler, Database, repository, metadata, get_db}

-- The parts of a v1.Descriptor and a v1.Manifest that are read.
pub record Layer : Type 0 where
  pub media_type : String
  pub digest : String
  pub hex : String
  pub title : String

pub record Manifest : Type 0 where
  pub config_media_type : String
  pub layers : List Layer

abbrev pub rpm_config_type : String
rpm_config_type = "application/vnd.ciq.rpm.package.v1.config+json"

abbrev pub rpm_package_layer_type : String
rpm_package_layer_type = "application/vnd.ciq.rpm.package.v1.rpm"

abbrev pub repomd_data_config_type : String
repomd_data_config_type = "application/vnd.ciq.rpm.repomd.extra.v1.config+xml"

-- `oras.GetLayer`.
unfoldable pub get_layer : List Layer → String → Result Layer
get_layer [] media_type =
    err (str_append "no layer with mediatype " (str_append media_type " found in manifest"))
get_layer (layer ∷ rest) media_type =
    if layer.media_type == media_type then ok layer else get_layer rest media_type

-- What the processing of a package meets.
pub record PackageIo : Type 0 where
  pub md5_hex : String → String
  pub download_blob : String → Err
  pub validate : String → Option String → Result RepositoryPackage
  pub extract : String → Result PackageMetadata
  pub delete_manifest : String → Err
  pub opening : Database → Err
  pub packages : Io
  pub metadata : Io
  pub sync : Database → Err

-- `fmt.Errorf("... %w", err)`
abbrev pub wrap : String → Err → Err
wrap message none = none
wrap message (some e) = some (str_append message e)

-- `addPackageToMetadataDatabase`.
unfoldable pub add_to_metadata : PackageIo → PackageMetadata → Handler → Err × Handler
unfolding get_db
add_to_metadata io pkg h =
    let (e, h1) = get_db metadata (io.opening metadata) h in
    elim e [
      | some e ↦ (some e, h1)
      | none ↦
          let (e, rows) = Metadata.add_package io.metadata pkg h1.package_metadata in
          let h2 : Handler = record h1 { package_metadata = rows } in
          elim e [
            | some e ↦ (wrap "while adding package metadata to database: " (some e), h2)
            | none ↦ (io.sync metadata, h2)
          ]
    ]

-- `addPackageToRepositoryDatabase`.
unfoldable pub add_to_repository : PackageIo → RepositoryPackage → Handler → Err × Handler
unfolding get_db
add_to_repository io pkg h =
    let (e, h1) = get_db repository (io.opening repository) h in
    elim e [
      | some e ↦ (some e, h1)
      | none ↦
          let (e, rows) = Packages.add_package io.md5_hex io.packages pkg h1.packages in
          let h2 : Handler = record h1 { packages = rows } in
          elim e [
            | some e ↦ (wrap "while adding repository package to database: " (some e), h2)
            | none ↦ (io.sync repository, h2)
          ]
    ]

-- `removePackageFromMetadataDatabase`: the copy to the bucket is made only for one deleted row.
unfoldable pub remove_from_metadata : PackageIo → String → Handler → Err × Handler
unfolding get_db
remove_from_metadata io id h =
    let (e, h1) = get_db metadata (io.opening metadata) h in
    elim e [
      | some e ↦ (some e, h1)
      | none ↦
          let (r, rows) = Metadata.remove_package io.metadata id h1.package_metadata in
          let h2 : Handler = record h1 { package_metadata = rows } in
          elim r [
            | err e ↦ (wrap "while removing package metadata from database: " (some e), h2)
            | ok deleted ↦ (if deleted then io.sync metadata else none, h2)
          ]
    ]

-- `removePackageFromRepositoryDatabase`.
unfoldable pub remove_from_repository : PackageIo → String → Handler → Err × Handler
unfolding get_db
remove_from_repository io id h =
    let (e, h1) = get_db repository (io.opening repository) h in
    elim e [
      | some e ↦ (some e, h1)
      | none ↦
          let (r, rows) = Packages.remove_package io.packages id h1.packages in
          let h2 : Handler = record h1 { packages = rows } in
          elim r [
            | err e ↦ (wrap "while removing repository package from database: " (some e), h2)
            | ok deleted ↦ (if deleted then io.sync repository else none, h2)
          ]
    ]

abbrev pub about : String → String → String → String
about doing name rest = str_append doing (str_append name rest)

-- The body of `processPackageManifest`, between the layer and the deferred functions.
unfoldable pub store_package : PackageIo → Layer → Handler → Err × Handler
store_package io layer h =
    let name = layer.title in
    let ref = str_append h.repository_name (str_append "/packages@" layer.digest) in
    elim (io.download_blob ref) [
      | some e ↦ (wrap (about "while downloading package " name ": ") (some e), h)
      | none ↦ elim (io.validate layer.hex h.keyring) [
        | err e ↦ (wrap (about "while validating package " name ": ") (some e), h)
        | ok pkg ↦
            let last : Handler → Err × Handler = λ h1.
              let (e, h2) = add_to_repository io pkg h1 in
              (wrap (about "while adding package " name " to repository database: ") e, h2) in
            if h.mirror then last h else elim (io.extract layer.hex) [
              | err e ↦ (wrap (about "while extracting package " name " metadata: ") (some e), h)
              | ok meta ↦
                  let (e, h1) = add_to_metadata io meta h in
                  elim e [
                    | some e ↦ (
                      wrap (about "while adding package " name " to metadata database: ") (some e),
                      h1,
                    )
                    | none ↦ last h1
                  ]
            ]
      ]
    ]

-- The deferred call of `SyncArtifactResult`.
unfoldable pub answer : String → Err → Handler → Outcome Handler
answer name e h = do
  artifacts ← sync_artifact_result name e h.artifacts
  done (record h { artifacts = artifacts })

-- The deferred removal of the manifest, after an error; a failure of it is only logged.
unfoldable pub reject : String → Err → Handler → Handler
reject digest none h = h
reject digest (some e) h = record h {
  manifest_deletes =
      h.manifest_deletes ++ str_append h.repository_name (str_append "/packages@" digest) ∷ [];
}

unfoldable pub process_package_manifest :
    PackageIo → Manifest → String → Handler → Outcome (Err × Handler)
process_package_manifest io m digest h = elim (get_layer m.layers rpm_package_layer_type) [
  | err e ↦ done (some e, reject digest (some e) h)
  | ok layer ↦
      let (e, h1) = store_package io layer h in
      answer layer.title e h1 >>= λ h2. done (e, reject digest e h2)
]

-- The body of `deletePackageManifest`.
unfoldable pub delete_package : PackageIo → Layer → Handler → Err × Handler
delete_package io layer h =
    let last : Handler → Err × Handler = λ h1.
      let (e, h2) = remove_from_repository io layer.hex h1 in
      (wrap (about "while removing package " layer.title " from repository database: ") e, h2) in
    if h.mirror
    then last h
    else (let (e, h1) = remove_from_metadata io layer.hex h in
        elim e [
          | some e ↦ (
            wrap (about "while removing package " layer.title " from metadata database: ") (some e),
            h1,
          )
          | none ↦ last h1
        ])

unfoldable pub delete_package_manifest : PackageIo → Manifest → Handler → Outcome (Err × Handler)
delete_package_manifest io m h = elim (get_layer m.layers rpm_package_layer_type) [
  | err e ↦ done (some e, h)
  | ok layer ↦
      let (e, h1) = delete_package io layer h in answer layer.title e h1 >>= λ h2. done (e, h2)
]
