-- ===== src/Yum/Events.antt =====
-- `processEvents` of internal/plugins/yum/pkg/yumrepository/handler.go: how a yum repository works on
-- a batch of events.
pub mod Rows
pub mod Total
use Prim.Native.String.{◌++◌ as str_append}
use beskar.Prelude.{
  String, Bool, true, false, not, ◌&&◌, Option, none, some, List, [], ◌∷◌, ◌++◌, if◌then◌else◌,
  ◌==◌, has, suc,
}
use beskar.Prelude.Dict.{Dict}
use beskar.Prelude.Outcome.{Outcome, done, blocked, panic, ◌>>=◌, Err}
use beskar.Prelude.Result.{Result, ok, err}
use beskar.Event.{EventPayload, is_put, is_delete}
use beskar.Repository.Artifacts.{sync_artifact_result}
use beskar.Repository.Queue.{stop_begin}
use beskar.Yum.Sql.{Io}
use beskar.Yum.Status.{remove_event}
use beskar.Yum.Packages.{RepositoryPackage}
use beskar.Yum.Packages
use beskar.Yum.Metadata.{PackageMetadata}
use beskar.Yum.Metadata
use beskar.Yum.Handler.{Handler, Database, repository, metadata, get_db}
use beskar.Yum.Extra.{ExtraIo, process_metadata_manifest, delete_metadata_manifest}
use beskar.Yum.Manifests.{
  Layer, Manifest, PackageIo, about, add_to_metadata, add_to_repository, answer, delete_package,
  delete_package_manifest, get_layer, process_package_manifest, reject, remove_from_metadata,
  remove_from_repository, repomd_data_config_type, rpm_config_type, rpm_package_layer_type,
  store_package, wrap,
}

-- What `processEvents` meets, besides; `stop` says whether the handler is told to stop while the
-- event is processed.
pub record EventIo : Type 0 where
  pub stop : EventPayload → Bool
  pub parse_manifest : String → Option Manifest
  pub packages : PackageIo
  pub extra : ExtraIo
  pub remove : Io

-- The switch over the action and the media type; the error is only logged.
unfoldable pub dispatch : EventIo → EventPayload → Manifest → Handler → Outcome (Err × Handler)
dispatch io event m h =
    if is_put event.action
    then if m.config_media_type == rpm_config_type
      then process_package_manifest io.packages m event.digest h
      else if m.config_media_type == repomd_data_config_type
      then process_metadata_manifest io.extra m event.digest h
      else done (none, h)
    else if is_delete event.action
    then if m.config_media_type == rpm_config_type
      then delete_package_manifest io.packages m h
      else if m.config_media_type == repomd_data_config_type
      then delete_metadata_manifest io.extra m h
      else done (none, h)
    else done (none, h)

-- One round of the loop up to the test of `Stopped`: an event whose payload is no manifest is
-- skipped, and keeps its row.
unfoldable pub process_event : EventIo → EventPayload → Manifest → Handler → Outcome Handler
process_event io event m h = dispatch io event m h >>= λ (e, h1).
    done (record h1 { status_db = (remove_event io.remove event h1.status_db).1 })

-- A call of `Stop` by another goroutine, up to its wait.
unfoldable pub during : Bool → Handler → Handler
unfolding stop_begin
during stopping h = if stopping then record h { repo = stop_begin h.repo } else h

unfoldable pub process_loop : EventIo → List EventPayload → Handler → Outcome Handler
unfolding during
process_loop io [] h = done h
process_loop io (event ∷ events) h = elim (io.parse_manifest event.payload) [
  | none ↦ process_loop io events h
  | some m ↦ process_event io event m h >>= λ h1.
      let h2 = during (io.stop event) h1 in
      elim h2.repo.stopped [ true ↦ done h2 | false ↦ process_loop io events h2 ]
]

-- `processEvents`, with the metadata of the repository generated anew when it is no mirror.
unfoldable pub process_events : EventIo → List EventPayload → Handler → Outcome Handler
process_events io events h = process_loop io events h >>= λ h1. done (
    if not h1.mirror && not h1.delete
    then record h1 { metadata_pushes = suc h1.metadata_pushes }
    else h1)
