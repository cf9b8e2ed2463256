-- ===== src/Static/Manifests.antt =====
-- internal/plugins/static/pkg/staticrepository/file.go and database.go: the processing of the
-- manifest of a file. A layer's size, the time, and the errors of the database are arguments. The
-- log database is not modelled; a failed deletion of a manifest is only logged.
pub mod Names
use Prim.Native.String.{◌++◌ as str_append}
use beskar.Prelude.{
  ℕ, String, Bool, true, false, Option, none, some, List, [], ◌∷◌, ◌++◌, if◌then◌else◌,
}
use beskar.Prelude.Dict.{Dict}
use beskar.Prelude.Outcome.{Outcome, done, ◌>>=◌, Err}
use beskar.Prelude.Result.{Result, ok, err}
use beskar.Repository.Artifacts.{Artifacts, sync_artifact_result}
use beskar.Yum.Sql.{Io}
use beskar.Yum.Manifests.{Layer, Manifest, get_layer}
use beskar.Static.Files.{StaticFile, add_file, remove_file}

pub record StaticHandler : Type 0 where
  pub repository_name : String
  pub artifacts : Artifacts
  pub files : Dict StaticFile
  pub manifest_deletes : List String

pub record FileIo : Type 0 where
  pub md5_hex : String → String
  pub now : ℕ
  pub size : Layer → ℕ
  pub opening : Err
  pub add : Io
  pub remove : Io
  pub sync : Err

abbrev pub static_file_layer_type : String
static_file_layer_type = "application/vnd.ciq.static.v1.file"

unfoldable pub add_file_to_database : FileIo → StaticFile → StaticHandler → Err × StaticHandler
add_file_to_database io file h = elim io.opening [
  | some e ↦ (some e, h)
  | none ↦
      let (e, rows) = add_file io.md5_hex io.add file h.files in
      let h1 : StaticHandler = record h { files = rows } in
      elim e [
        | some e ↦ (some (str_append "while adding repository file to database: " e), h1)
        | none ↦ (io.sync, h1)
      ]
]

unfoldable pub remove_file_from_database : FileIo → String → StaticHandler → Err × StaticHandler
remove_file_from_database io name h = elim io.opening [
  | some e ↦ (some e, h)
  | none ↦
      let (r, rows) = remove_file io.remove (io.md5_hex name) h.files in
      let h1 : StaticHandler = record h { files = rows } in
      elim r [
        | err e ↦ (some (str_append "while removing repository file from database: " e), h1)
        | ok deleted ↦ (if deleted then io.sync else none, h1)
      ]
]

abbrev pub about : String → String → String → Err → Err
about doing name rest none = none
about doing name rest (some e) = some (str_append doing (str_append name (str_append rest e)))

-- `SyncArtifactResult`, deferred.
unfoldable pub answer_file : String → Err → StaticHandler → Outcome StaticHandler
answer_file name e h = do
  artifacts ← sync_artifact_result name e h.artifacts
  done (record h { artifacts = artifacts })

-- The deferred deletion after an error: the reference has the digest of the layer.
unfoldable pub reject_file : Layer → Err → StaticHandler → StaticHandler
reject_file layer none h = h
reject_file layer (some e) h = record h {
  manifest_deletes =
      h.manifest_deletes
      ++ str_append h.repository_name (str_append "/files@sha256:" layer.hex) ∷ [];
}

unfoldable pub new_file : FileIo → Layer → StaticFile
new_file io layer = record {
  tag = io.md5_hex layer.title;
  id = layer.hex;
  name = layer.title;
  upload_time = io.now;
  size = io.size layer;
}

unfoldable pub process_file_manifest :
    FileIo → Manifest → StaticHandler → Outcome (Err × StaticHandler)
unfolding get_layer
process_file_manifest io m h = elim (get_layer m.layers static_file_layer_type) [
  | err e ↦ done (some e, h)
  | ok layer ↦
      let (e, h1) = add_file_to_database io (new_file io layer) h in
      let failed = about "while adding file " layer.title " to repository database: " e in
      answer_file layer.title failed h1 >>= λ h2. done (failed, reject_file layer failed h2)
]

unfoldable pub delete_file_manifest :
    FileIo → Manifest → StaticHandler → Outcome (Err × StaticHandler)
unfolding get_layer
delete_file_manifest io m h = elim (get_layer m.layers static_file_layer_type) [
  | err e ↦ done (some e, h)
  | ok layer ↦
      let (e, h1) = remove_file_from_database io layer.title h in
      let failed = about "while removing file " layer.title " from metadata database: " e in
      answer_file layer.title failed h1 >>= λ h2. done (failed, h2)
]
