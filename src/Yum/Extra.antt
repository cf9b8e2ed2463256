-- ===== src/Yum/Extra.antt =====
-- How a yum repository processes the manifests of extra metadata: metadata.go of package
-- yumrepository, the calls for it in database.go, and GetLayerFilter of pkg/oras/layer.go.
-- The decompression and the hashes, the registry, and the scan of a media type are arguments.
pub mod Kept
pub mod Quiet
use Prim.Native.String.{◌++◌ as str_append}
use beskar.Prelude.{ℕ, String, Option, none, some, List, [], ◌∷◌, ◌++◌, if◌then◌else◌, ltb}
use beskar.Prelude.Outcome.{Outcome, done, ◌>>=◌, Err}
use beskar.Prelude.Result.{Result, ok, err}
use beskar.Yum.Sql.{Io}
use beskar.Yum.Metadata.{ExtraMetadata, add_extra_metadata, remove_extra_metadata}
use beskar.Yum.Handler.{Handler, metadata, get_db}
use beskar.Yum.Manifests.{Layer, Manifest, wrap, about, answer}

-- What reading a file to its end gives: of the file, and of the data in it.
pub record Sums : Type 0 where
  pub hex : String
  pub bytes_read : ℕ
  pub content : String
  pub open_hex : String
  pub open_bytes_read : ℕ

-- `data_type_of` is the scan of a media type, if it succeeds; `open_file` and `copy` are
-- `decompress.File` and the copy of its content; `now` is the time.
pub record ExtraIo : Type 0 where
  pub data_type_of : String → Option String
  pub download_blob : String → Err
  pub open_file : String → Err
  pub copy : String → Result Sums
  pub now : ℕ
  pub opening : Err
  pub extra : Io
  pub sync : Err

-- `oras.GetLayerFilter` with the filter of both functions, and the data type that it scanned.
unfoldable pub get_layer_filter : (String → Option String) → List Layer → Result (Layer × String)
get_layer_filter data_type_of [] = err "no recognized layer found in manifest"
get_layer_filter data_type_of (layer ∷ rest) = elim (data_type_of layer.media_type) [
  | some data_type ↦ ok (layer, data_type)
  | none ↦ get_layer_filter data_type_of rest
]

-- `addExtraMetadataToDatabase`.
unfoldable pub add_extra_to_database : ExtraIo → ExtraMetadata → Handler → Err × Handler
unfolding get_db
add_extra_to_database io extra h =
    let (e, h1) = get_db metadata io.opening h in
    elim e [
      | some e ↦ (some e, h1)
      | none ↦
          let (e, rows) = add_extra_metadata io.extra extra h1.extra_metadata in
          let h2 : Handler = record h1 { extra_metadata = rows } in
          elim e [
            | some e ↦ (wrap "while adding extra metadata to database: " (some e), h2)
            | none ↦ (io.sync, h2)
          ]
    ]

-- `removeExtraMetadataFromDatabase`.
unfoldable pub remove_extra_from_database : ExtraIo → String → Handler → Err × Handler
unfolding get_db
remove_extra_from_database io data_type h =
    let (e, h1) = get_db metadata io.opening h in
    elim e [
      | some e ↦ (some e, h1)
      | none ↦
          let (r, rows) = remove_extra_metadata io.extra data_type h1.extra_metadata in
          let h2 : Handler = record h1 { extra_metadata = rows } in
          elim r [
            | err e ↦ (wrap "while adding extra metadata to database: " (some e), h2)
            | ok deleted ↦ (if deleted then io.sync else none, h2)
          ]
    ]

unfoldable pub new_extra_metadata : ExtraIo → String → String → Sums → ExtraMetadata
new_extra_metadata io data_type filename sums = record {
  data_type = data_type;
  filename = filename;
  checksum = sums.hex;
  open_checksum = if ltb 0 sums.open_bytes_read then sums.open_hex else "";
  size = sums.bytes_read;
  open_size = sums.open_bytes_read;
  timestamp = io.now;
  content = sums.content;
}

-- The body of `processMetadataManifest`, between the layer and the deferred functions.
unfoldable pub store_metadata : ExtraIo → Layer → String → Handler → Err × Handler
store_metadata io layer data_type h =
    let ref = str_append h.repository_name (str_append "/repodata@" layer.digest) in
    elim (io.download_blob ref) [
      | some e ↦ (wrap (about "while downloading metadata " layer.title ": ") (some e), h)
      | none ↦ elim (io.open_file layer.title) [
        | some e ↦ (wrap (about "while reading " data_type " extra metadata: ") (some e), h)
        | none ↦ elim (io.copy layer.title) [
          | err e ↦
              (wrap (about "while computing " data_type " extra metadata checksums: ") (some e), h)
          | ok sums ↦ add_extra_to_database io (new_extra_metadata io data_type layer.title sums) h
        ]
      ]
    ]

-- The deferred removal of the manifest, after an error; a failure of it is only logged.
unfoldable pub reject_metadata : String → Err → Handler → Handler
reject_metadata digest none h = h
reject_metadata digest (some e) h = record h {
  manifest_deletes =
      h.manifest_deletes ++ str_append h.repository_name (str_append "/repodata@" digest) ∷ [];
}

unfoldable pub process_metadata_manifest :
    ExtraIo → Manifest → String → Handler → Outcome (Err × Handler)
process_metadata_manifest io m digest h = elim (get_layer_filter io.data_type_of m.layers) [
  | err e ↦ done (some e, reject_metadata digest (some e) h)
  | ok found ↦
      let (e, h1) = store_metadata io found.0 found.1 h in
      answer found.0.title e h1 >>= λ h2. done (e, reject_metadata digest e h2)
]

unfoldable pub delete_metadata_manifest : ExtraIo → Manifest → Handler → Outcome (Err × Handler)
delete_metadata_manifest io m h = elim (get_layer_filter io.data_type_of m.layers) [
  | err e ↦ done (some e, h)
  | ok found ↦
      let (e, h1) = remove_extra_from_database io found.1 h in
      answer found.0.title e h1 >>= λ h2. done (e, h2)
]
