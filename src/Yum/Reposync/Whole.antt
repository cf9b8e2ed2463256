-- ===== src/Yum/Reposync/Whole.antt =====
-- internal/plugins/yum/pkg/yumrepository/sync.go: the metadata of `repositorySync`, and
-- `updateReposyncDatabase`. The files on disk (`copy`), what the package orasrpm makes of them
-- (`new_layer`), and the push are arguments. A metadata layer is its file's name.
pub mod Layers
mod Examples
use Prim.Native.String.{◌++◌ as str_append}
use beskar.Prelude.{String, Option, none, some, List, [], ◌∷◌, ◌++◌}
use beskar.Prelude.Outcome.{Err}
use beskar.Prelude.Result.{Result, ok, err}
use beskar.Yum.Sql.{Io}
use beskar.Yum.Status.{Reposync, update_reposync}
use beskar.Yum.Handler.{Handler, status, get_db}
use beskar.Yum.Mirror.{Network, RepoMdData, Syncer, file_reader}

pub record MetadataIo : Type 0 where
  pub parse_reference : Err
  pub mkdir : Err
  pub base : String → String
  pub copy : String → Err
  pub new_layer : String → Err
  pub push : List String → Err

abbrev pub repomd_name : String
repomd_name = "repomd.xml"

abbrev pub signature_name : String
signature_name = "repomd.xml.asc"

abbrev pub wrap : String → String → String → String
wrap name doing e = str_append "metadata " (str_append name (str_append doing e))

-- A file that is written and made a layer.
unfoldable pub add_layer : MetadataIo → String → String → List String → Result (List String)
add_layer io copying name layers = elim (io.copy name) [
  | some e ↦ err (str_append copying e)
  | none ↦ elim (io.new_layer name) [
    | some e ↦ err (wrap name " push initialization: " e)
    | none ↦ ok (layers ++ name ∷ [])
  ]
]

unfoldable pub entry_loop :
    MetadataIo → Network → List String → List RepoMdData → List String → Result (List String)
unfolding add_layer
entry_loop io n urls [] layers = ok layers
entry_loop io n urls (entry ∷ entries) layers = elim (file_reader n urls entry.href) [
  | err e ↦ err (wrap entry.href " download: " e)
  | ok body ↦ elim (add_layer io (wrap entry.href " copy: " "") (io.base entry.href) layers) [
    | err e ↦ err e
    | ok layers1 ↦ entry_loop io n urls entries layers1
  ]
]

unfoldable pub add_signature : MetadataIo → Option String → List String → Result (List String)
unfolding add_layer
add_signature io none layers = ok layers
add_signature io (some signature) layers =
    add_layer io (wrap signature_name " copy: " "") signature_name layers

-- The layers of the metadata, in their order.
unfoldable pub metadata_layers :
    MetadataIo → Network → Syncer → List RepoMdData → Result (List String)
unfolding add_layer add_signature entry_loop
metadata_layers io n s root = elim (add_layer io "repomd.xml copy: " repomd_name []) [
  | err e ↦ err e
  | ok layers ↦ elim (add_signature io s.repomd_xml_signature layers) [
    | err e ↦ err e
    | ok layers1 ↦ entry_loop io n s.mirror_urls root layers1
  ]
]

unfoldable pub push_metadata : MetadataIo → Network → Syncer → List RepoMdData → Err
unfolding metadata_layers
push_metadata io n s root = elim io.parse_reference [
  | some e ↦ some e
  | none ↦ elim io.mkdir [
    | some e ↦ some e
    | none ↦ elim (metadata_layers io n s root) [ err e ↦ some e | ok layers ↦ io.push layers ]
  ]
]

-- `updateReposyncDatabase`: the opening of the status database, the update and the copy.
pub record UpdateIo : Type 0 where
  pub opening : Err
  pub update : Io
  pub sync : Err

unfoldable pub update_reposync_database : UpdateIo → Reposync → Handler → Err × Handler
unfolding get_db
update_reposync_database io r h =
    let (e, h1) = get_db status io.opening h in
    elim e [
      | some e ↦ (some e, h1)
      | none ↦
          let (e, db) = update_reposync io.update r h1.status_db in
          let h2 : Handler = record h1 { status_db = db } in
          elim e [
            | some e ↦ (some (str_append "while adding extra metadata to database: " e), h2)
            | none ↦ (io.sync, h2)
          ]
    ]
