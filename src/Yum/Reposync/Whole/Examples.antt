-- ===== src/Yum/Reposync/Whole/Examples.antt =====
-- The theorem on the metadata that a sync pushes, at a mirror with one signed file.
use Prim.Native.String.{◌++◌}
use beskar.Prelude.{String, List, none, some, [], ◌∷◌, ◌==◌, if◌then◌else◌}
use beskar.Prelude.Outcome.{Err}
use beskar.Prelude.Result.{ok, err}
use beskar.Yum.Mirror.{Network, RepoMdData, Syncer}
use beskar.Yum.Reposync.Whole.{MetadataIo}

abbrev one_mirror : Network
one_mirror = record {
  join = λ url path. url ++ path;
  new_request = λ url. none;
  get = λ url. if url == "a:repodata/primary.xml" then ok (200, "primary") else err "refused";
  read = λ body. ok body;
  unknown_status = λ status mirror. "unknown status";
}

abbrev primary : List RepoMdData
primary = record { data_type = "primary"; href = "repodata/primary.xml" } ∷ []

abbrev syncer : Syncer
syncer = record {
  mirror_urls = "a:" ∷ [];
  keyring = none;
  repomd_root = some primary;
  repomd_xml = some "xml";
  repomd_xml_signature = some "signature";
}

-- A registry that takes these three layers only.
abbrev accepted : List String → Err
accepted (a ∷ b ∷ c ∷ []) =
    if a == "repomd.xml"
    then if b == "repomd.xml.asc"
      then if c == "primary.xml" then none else some "refused"
      else some "refused"
    else some "refused"
accepted layers = some "refused"

abbrev metadata_io : MetadataIo
metadata_io = record {
  parse_reference = none;
  mkdir = none;
  base = λ path. "primary.xml";
  copy = λ name. none;
  new_layer = λ name. none;
  push = accepted;
}
