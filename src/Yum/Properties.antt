-- ===== src/Yum/Properties.antt =====
-- The properties of a yum repository: how the handler loads them from the status database
-- (internal/plugins/yum/pkg/yumrepository/handler.go).
use beskar.Prelude.{String, none, some, List, [], ◌∷◌, if◌then◌else◌, ◌==◌}
use beskar.Prelude.Outcome.{Err}
use beskar.Prelude.Result.{Result, ok, err}
use beskar.Yum.Sql.{Io}
use beskar.Yum.Status.{Properties, get_properties, get_reposync}
use beskar.Yum.Handler.{Handler, status, get_db}

-- The formats that the handler reads and writes: encoding/gob for a list of texts, net/url, and the
-- armored key ring of golang.org/x/crypto/openpgp. A value stands for what was parsed.
pub record Formats : Type 0 where
  pub encode_gob : List String → Result String
  pub decode_gob : String → Result (List String)
  pub parse_url : String → Result String
  pub read_keyring : String → Result String

-- `url.Parse` of each URL; the field is written when all of them parse.
unfoldable pub parse_urls : (String → Result String) → List String → Result (List String)
parse_urls parse [] = ok []
parse_urls parse (u ∷ us) =
    let rest = parse_urls parse us in
    elim (parse u) [
      | err e ↦ err e
      | ok url ↦ elim rest [ err e ↦ err e | ok urls ↦ ok (url ∷ urls) ]
    ]

unfoldable pub set_mirror_urls : (String → Result String) → List String → Handler → Err × Handler
unfolding parse_urls
set_mirror_urls parse urls h = elim (parse_urls parse urls) [
  | err e ↦ (some e, h)
  | ok urls ↦ (none, record h { mirror_urls = urls })
]

-- `armor.Decode` and `openpgp.ReadKeyRing`.
unfoldable pub set_keyring : (String → Result String) → String → Handler → Err × Handler
set_keyring read key h = elim (read key) [
  | err e ↦ (some e, h)
  | ok keyring ↦ (none, record h { keyring = some keyring })
]

-- What `initProperties` meets.
pub record InitIo : Type 0 where
  pub formats : Formats
  pub opening : Err
  pub properties : Io
  pub reposync : Io

unfoldable pub init_mirror_urls : InitIo → String → Handler → Err × Handler
unfolding set_mirror_urls
init_mirror_urls io urls h = if urls == "" then (none, h) else elim (io.formats.decode_gob urls) [
  | err e ↦ (some e, h)
  | ok us ↦ set_mirror_urls io.formats.parse_url us h
]

unfoldable pub init_keyring : InitIo → String → Handler → Err × Handler
unfolding set_keyring
init_keyring io key h = if key == "" then (none, h) else set_keyring io.formats.read_keyring key h

-- The steps of a chain that stops at the first error, with the state of that moment.
infixl 5 ◌andthen◌
abbrev pub ◌andthen◌ : Err × Handler → (Handler → Err × Handler) → Err × Handler
◌andthen◌ (none, h) f = f h
◌andthen◌ (some e, h) f = (some e, h)

-- `initProperties` from the stored properties on.
unfoldable pub load_stored : InitIo → Properties → Handler → Err × Handler
load_stored io p h =
    init_mirror_urls io p.mirror_urls (record h { mirror = p.mirror; created = p.created })
    andthen init_keyring io p.gpg_key

unfoldable pub load_properties : InitIo → Handler → Err × Handler
load_properties io h = elim (get_properties io.properties h.status_db) [
  | err e ↦ (some e, h)
  | ok p ↦ load_stored io p h
]

unfoldable pub load_reposync : InitIo → Handler → Err × Handler
load_reposync io h = elim (get_reposync io.reposync h.status_db) [
  | err e ↦ (some e, h)
  | ok r ↦ (none, record h { reposync = some r })
]

unfoldable pub init_properties : InitIo → Handler → Err × Handler
init_properties io h =
    get_db status io.opening h andthen load_properties io andthen load_reposync io
