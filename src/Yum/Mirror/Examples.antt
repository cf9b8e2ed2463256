-- ===== src/Yum/Mirror/Examples.antt =====
-- The theorems on the mirror client, with two mirrors of which the first has no file.
use Prim.Native.String.{◌++◌}
use beskar.Prelude.{String, ◌≡◌, ◌↔◌, ◌⊎◌, refl, none, some, List, [], ◌∷◌, if◌then◌else◌, ◌==◌}
use beskar.Prelude.Result.{ok, err}
use beskar.Yum.Mirror.{
  Network, Syncer, RepoMdData, Formats, file_reader, init_repomd_xml, read_signature,
  check_signature, parse_root,
}
use beskar.Yum.Mirror.Requests.{
  first_answer, file_reader-first_answer, IsSigned, init_repomd_xml-IsSigned,
}

abbrev two_mirrors : Network
two_mirrors = record {
  join = λ url path. url ++ path;
  new_request = λ url. none;
  get = λ url.
      if url == "b:repodata/repomd.xml"
      then ok (200, "xml")
      else if url == "b:repodata/repomd.xml.asc"
      then ok (200, "signature")
      else if url == "a:repodata/repomd.xml"
      then ok (404, "")
      else err "refused";
  read = λ body. ok body;
  unknown_status = λ status mirror. "unknown status";
}

abbrev signed : Formats
signed = record {
  check = λ keyring xml signature. if signature == "signature" then ok 1 else err "unknown";
  unknown_issuer = "unknown";
  parse = λ xml. ok (record { data_type = "primary"; href = "primary.xml" } ∷ []);
}

abbrev fresh : Syncer
fresh = record {
  mirror_urls = "a:" ∷ "b:" ∷ [];
  keyring = some "key";
  repomd_root = none;
  repomd_xml = none;
  repomd_xml_signature = none;
}

abbrev read : Syncer
read = record fresh {
  repomd_root = some (record { data_type = "primary"; href = "primary.xml" } ∷ []);
  repomd_xml = some "xml";
  repomd_xml_signature = some "signature";
}

init_fresh : init_repomd_xml two_mirrors signed fresh ≡ (none, read)
unfolding init_repomd_xml read_signature file_reader check_signature parse_root
init_fresh = refl

file_reader-first_answer_example :
    (file_reader two_mirrors ("a:" ∷ "b:" ∷ []) "repodata/repomd.xml" ≡ ok "xml")
    ↔ (first_answer two_mirrors ("a:" ∷ "b:" ∷ []) "repodata/repomd.xml" ≡ some "xml")
file_reader-first_answer_example =
    file_reader-first_answer two_mirrors ("a:" ∷ "b:" ∷ []) "repodata/repomd.xml" "xml"
      (λ url. refl)

init_repomd_xml-IsSigned_example :
    (xml : String) × (root : List RepoMdData) × (read.repomd_xml ≡ some xml)
    × (signed.parse xml ≡ ok root)
    × (read.repomd_root ≡ some root)
    × (((e : String) × (file_reader two_mirrors fresh.mirror_urls "repodata/repomd.xml.asc"
            ≡ err e))
        ⊎ IsSigned signed "key" xml read)
init_repomd_xml-IsSigned_example =
    init_repomd_xml-IsSigned two_mirrors signed "key" fresh read refl refl init_fresh
