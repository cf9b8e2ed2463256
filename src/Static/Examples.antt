-- ===== src/Static/Examples.antt =====
-- The theorem on two manifests of one file name.
use beskar.Prelude.{String, ◌≡◌, refl, none, some, [], ◌∷◌}
use beskar.Prelude.Dict
use beskar.Prelude.Outcome.{done}
use beskar.Prelude.Result.{ok}
use beskar.Repository.Artifacts.{sync_artifact_result}
use beskar.Yum.Sql.{exec_one, exec_delete}
use beskar.Yum.Packages.Rows.{calm}
use beskar.Yum.Manifests.{Layer, Manifest, get_layer}
use beskar.Static.Files.{add_file, remove_file}
use beskar.Static.Manifests.{
  StaticHandler, FileIo, static_file_layer_type, add_file_to_database, remove_file_from_database,
  answer_file, reject_file, new_file, process_file_manifest, delete_file_manifest,
}
use beskar.Static.Manifests.Names.{delete_older_lost}

abbrev file_io : FileIo
file_io = record {
  md5_hex = λ text. text;
  now = 4;
  size = λ layer. 1;
  opening = none;
  add = calm;
  remove = calm;
  sync = none;
}

abbrev file_layer : String → Layer
file_layer hex = record {
  media_type = "application/vnd.ciq.static.v1.file";
  digest = hex;
  hex = hex;
  title = "disk.iso";
}

abbrev manifest_of : String → Manifest
manifest_of hex = record { config_media_type = "static"; layers = file_layer hex ∷ [] }

abbrev empty : StaticHandler
empty = record {
  repository_name = "artifacts/static/s";
  artifacts = record { chans = []; sync_artifacts = [] };
  files = [];
  manifest_deletes = [];
}

abbrev one_file : StaticHandler
one_file = record empty {
  files =
      (
        "disk.iso",
        record { tag = "disk.iso"; id = "bb"; name = "disk.iso"; upload_time = 4; size = 1 },
      )
      ∷ [];
}

layer_of :
    (hex : String) → get_layer (manifest_of hex).layers static_file_layer_type ≡ ok (file_layer hex)
unfolding get_layer
layer_of hex = refl

put_newer : process_file_manifest file_io (manifest_of "bb") empty ≡ done (none, one_file)
unfolding process_file_manifest get_layer add_file_to_database add_file exec_one answer_file
    sync_artifact_result reject_file new_file Dict.insert Dict.lookup
put_newer = refl

drop_older : delete_file_manifest file_io (manifest_of "aa") one_file ≡ done (none, empty)
unfolding delete_file_manifest get_layer remove_file_from_database remove_file exec_delete
    answer_file sync_artifact_result Dict.remove Dict.lookup
drop_older = refl

delete_older_lost_example :
    (Dict.lookup "disk.iso" one_file.files ≡ some (new_file file_io (file_layer "bb")))
    × (Dict.lookup "disk.iso" empty.files ≡ none)
delete_older_lost_example =
    delete_older_lost file_io (manifest_of "bb") (manifest_of "aa") (file_layer "bb")
      (file_layer "aa") empty one_file empty (layer_of "bb") (layer_of "aa") refl put_newer
      drop_older
