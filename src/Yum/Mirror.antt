-- ===== src/Yum/Mirror.antt =====
-- internal/plugins/yum/pkg/mirror/syncer.go: the client of a mirror, up to the packages that it
-- lists. The HTTP client, the URLs, OpenPGP and the XML of the metadata are outside: `join` is the
-- URL of a path on a mirror, `get` a request with its status and body, `read` the content of a body.
pub mod Requests
mod Examples
use beskar.Prelude.{
  ℕ, zero, suc, String, Bool, true, false, Option, none, some, List, [], ◌∷◌, if◌then◌else◌, ◌==◌,
  nat_eq,
}
use beskar.Prelude.Outcome.{Err}
use beskar.Prelude.Result.{Result, ok, err}

pub record Network : Type 0 where
  pub join : String → String → String
  pub new_request : String → Err
  pub get : String → Result (ℕ × String)
  pub read : String → Result String
  pub unknown_status : ℕ → String → String

-- `NewSyncer` keeps the URLs in their order.
pub record RepoMdData : Type 0 where
  pub data_type : String
  pub href : String

pub record Syncer : Type 0 where
  pub mirror_urls : List String
  pub keyring : Option String
  pub repomd_root : Option (List RepoMdData)
  pub repomd_xml : Option String
  pub repomd_xml_signature : Option String

-- The error of the last mirror is returned, that of another one is dropped.
abbrev pub or_next : List String → String → Result String → Result String
or_next [] e rest = err e
or_next (url ∷ urls) e rest = rest

unfoldable pub file_reader : Network → List String → String → Result String
file_reader n [] path = err "all upstream mirrors were tried"
file_reader n (url ∷ urls) path =
    let rest = file_reader n urls path in
    let mirror = n.join url path in
    elim (n.new_request mirror) [
      | some e ↦ err e
      | none ↦ elim (n.get mirror) [
        | err e ↦ or_next urls e rest
        | ok (status, body) ↦
            if nat_eq status 200
            then ok body
            else or_next urls (n.unknown_status status mirror) rest
      ]
    ]

-- `check` is CheckArmoredDetachedSignature: the number of the signer's identities, or an error,
-- which is that of an unknown issuer or another one. `parse` is ParseRepomd.
pub record Formats : Type 0 where
  pub check : String → String → String → Result ℕ
  pub unknown_issuer : String
  pub parse : String → Result (List RepoMdData)

-- The test of the signature.
unfoldable pub check_signature : Formats → String → String → String → Err
check_signature f keyring xml signature = elim (f.check keyring xml signature) [
  | err e ↦
      if e == f.unknown_issuer
      then some "repomd.xml.asc: GPG signature validation failed"
      else some e
  | ok zero ↦ some "repomd.xml.asc: no identity found in public key"
  | ok (suc n) ↦ none
]

unfoldable pub parse_root : Formats → String → Syncer → Err × Syncer
parse_root f xml s = elim (f.parse xml) [
  | err e ↦ (some e, s)
  | ok root ↦ (none, record s { repomd_root = some root })
]

-- The signature is looked for only with a keyring, and is not required then.
unfoldable pub read_signature : Network → Formats → String → Syncer → Err × Syncer
read_signature n f xml s = elim s.keyring [
  | none ↦ (none, s)
  | some keyring ↦ elim (file_reader n s.mirror_urls "repodata/repomd.xml.asc") [
    | err e ↦ (none, s)
    | ok body ↦ elim (n.read body) [
      | err e ↦ (some e, s)
      | ok signature ↦ (
        check_signature f keyring xml signature,
        record s { repomd_xml_signature = some signature },
      )
    ]
  ]
]

unfoldable pub init_repomd_xml : Network → Formats → Syncer → Err × Syncer
unfolding read_signature parse_root
init_repomd_xml n f s = elim s.repomd_root [
  | some root ↦ (none, s)
  | none ↦ elim (file_reader n s.mirror_urls "repodata/repomd.xml") [
    | err e ↦ (some e, s)
    | ok body ↦ elim (n.read body) [
      | err e ↦ (some e, s)
      | ok xml ↦
          let (e, s1) = read_signature n f xml (record s { repomd_xml = some xml }) in
          elim e [ some e ↦ (some e, s1) | none ↦ parse_root f xml s1 ]
    ]
  ]
]

-- The place of the primary metadata that `DownloadPackages` reads.
unfoldable pub primary_href : List RepoMdData → String
primary_href [] = ""
primary_href (data1 ∷ rest) =
    let href = primary_href rest in if data1.data_type == "primary" then data1.href else href

-- `RepomdData`: the entry at an index, or nil.
unfoldable pub repomd_data : List RepoMdData → ℕ → Option RepoMdData
repomd_data [] index = none
repomd_data (data1 ∷ rest) zero = some data1
repomd_data (data1 ∷ rest) (suc index) = repomd_data rest index
