-- ===== src/Yum/Api.antt =====
-- The API calls that create, update and read the properties of a yum repository
-- (internal/plugins/yum/pkg/yumrepository/api.go). `Close(false)` of a database, which a call
-- defers, is not modelled here.
pub mod Coherence
pub mod Agreement
pub mod Restart
pub mod Sync
pub mod Removal
pub mod Deleting
use Prim.Native.String.{◌++◌ as str_append}
use beskar.Prelude.{
  ℕ, String, Bool, true, false, not, ◌&&◌, Option, none, some, List, [], ◌∷◌, ◌++◌, if◌then◌else◌,
  ◌==◌, ◌⊎◌, inl, inr,
}
use beskar.Prelude.Outcome.{Outcome, done, blocked, panic, ◌>>=◌, Err}
use beskar.Prelude.Result.{Result, ok, err}
use beskar.Yum.Sql.{Io}
use beskar.Repository.Queue.{started}
use beskar.Yum.Status.{Properties, get_properties, get_reposync, update_properties}
use beskar.Yum.Handler.{Handler, status, get_db}
use beskar.Yum.Properties.{Formats, set_mirror_urls, set_keyring}

-- The codes of package gcode, and an error that is returned as it is.
pub data Code : Type 0 where
  unavailable invalid_argument internal already_exists not_found failed_precondition : Code

pub data ApiErr : Type 0 where
  wrapped : Code → String → ApiErr
  plain : String → ApiErr

-- The fields of apiv1.RepositoryProperties: each is nil or a value.
pub record RepositoryProperties : Type 0 where
  pub mirror : Option Bool
  pub mirror_urls : Option (List String)
  pub gpg_key : Option String

pub record ApiIo : Type 0 where
  pub formats : Formats
  pub opening : Err
  pub get : Io
  pub update : Io
  pub sync : Err

abbrev pub or_else {ℓ} : {A : Type ℓ} → Option A → A → A
or_else none a = a
or_else (some b) a = b

-- The steps that `CreateRepository` and `UpdateRepository` share. The mirror flag of the handler is
-- set before the rest is checked.
unfoldable pub apply_key :
    Formats → Option String → Properties × Handler → Option ApiErr × Properties × Handler
unfolding set_keyring
apply_key f none (p, h) = (none, p, h)
apply_key f (some key) (p, h) =
    let (e, h1) = set_keyring f.read_keyring key h in
    elim e [
      | some e ↦ (some (wrapped invalid_argument "bad gpg key"), record p { gpg_key = key }, h1)
      | none ↦ (none, record p { gpg_key = key }, h1)
    ]

unfoldable pub apply_urls :
    Formats → Option (List String) → Properties × Handler → Option ApiErr × Properties × Handler
unfolding set_mirror_urls
apply_urls f none (p, h) = (none, p, h)
apply_urls f (some urls) (p, h) = elim (f.encode_gob urls) [
  | err e ↦ (some (wrapped internal e), p, h)
  | ok buf ↦
      let (e, h1) = set_mirror_urls f.parse_url urls h in
      elim e [
        | some e ↦ (some (wrapped internal e), record p { mirror_urls = buf }, h1)
        | none ↦ (none, record p { mirror_urls = buf }, h1)
      ]
]

unfoldable pub store_properties : ApiIo → Properties → Handler → Option ApiErr × Handler
store_properties io p h =
    let (e, db) = update_properties io.update p h.status_db in
    let h1 : Handler = record h { status_db = db } in
    elim e [
      | some e ↦ (some (wrapped internal e), h1)
      | none ↦ elim io.sync [ some e ↦ (some (plain e), h1) | none ↦ (none, h1) ]
    ]

-- The steps of a chain that stops at the first error, with the handler of that moment.
abbrev pub and_then :
    Option ApiErr × Properties × Handler
    → (Properties → Handler → Option ApiErr × Handler)
    → Option ApiErr × Handler
and_then (some e, p, h) next = (some e, h)
and_then (none, p, h) next = next p h

unfoldable pub apply_properties :
    ApiIo → RepositoryProperties → Properties → Handler → Option ApiErr × Handler
apply_properties io properties p h =
    let mirror = or_else properties.mirror p.mirror in
    and_then
      (apply_key io.formats properties.gpg_key
        (record p { mirror = mirror }, record h { mirror = mirror }))
      λ p1 h1.
        and_then (apply_urls io.formats properties.mirror_urls (p1, h1)) (store_properties io)

-- The course that the calls share: the handler has started, `check` lets the call pass, and the
-- stored properties are read.
unfoldable pub read_properties {ℓ} :
    {A : Type ℓ}
    → ApiIo
    → (ApiErr → A)
    → (Properties → Handler → A × Handler)
    → Handler
    → A × Handler
unfolding get_db
read_properties io fail next h =
    let (e, h1) = get_db status io.opening h in
    elim e [
      | some e ↦ (fail (wrapped internal e), h1)
      | none ↦ elim (get_properties io.get h1.status_db) [
        | err e ↦ (fail (wrapped internal e), h1)
        | ok p ↦ next p h1
      ]
    ]

unfoldable pub when_started {ℓ} :
    {A : Type ℓ} → (ApiErr → A) → (Handler → A × Handler) → Handler → Outcome (A × Handler)
unfolding started
when_started fail next h = started h.repo >>= λ (running, repo).
    let h1 : Handler = record h { repo = repo } in
    if running then done (next h1) else done (fail (wrapped unavailable ""), h1)

abbrev pub is_being_deleted : String → ApiErr
is_being_deleted name =
    wrapped already_exists (str_append "repository " (str_append name " is being deleted"))

-- `CreateRepository`, from the stored properties on, and behind the test of `Started`.
unfoldable pub create_stored :
    ApiIo → RepositoryProperties → Properties → Handler → Option ApiErr × Handler
create_stored io properties p h =
    if p.created
    then (
      some (
          wrapped already_exists
            (str_append "repository " (str_append h.repository_name " already exists"))),
      h,
    )
    else apply_properties io properties (record p { created = true }) h

unfoldable pub create_started :
    ApiIo → Option RepositoryProperties → Handler → Option ApiErr × Handler
create_started io none h = (some (wrapped invalid_argument "properties can't be nil"), h)
create_started io (some properties) h = read_properties io some (create_stored io properties) h

unfoldable pub create_repository :
    ApiIo → Option RepositoryProperties → Handler → Outcome (Option ApiErr × Handler)
create_repository io properties h = when_started some (create_started io properties) h

-- `UpdateRepository`, likewise.
unfoldable pub update_stored :
    ApiIo → RepositoryProperties → Properties → Handler → Option ApiErr × Handler
update_stored io properties p h =
    if p.created
    then apply_properties io properties p h
    else (some (wrapped not_found "repository is not created"), h)

unfoldable pub update_started :
    ApiIo → Option RepositoryProperties → Handler → Option ApiErr × Handler
update_started io none h = (some (wrapped invalid_argument "properties can't be nil"), h)
update_started io (some properties) h =
    if h.delete
    then (some (is_being_deleted h.repository_name), h)
    else read_properties io some (update_stored io properties) h

unfoldable pub update_repository :
    ApiIo → Option RepositoryProperties → Handler → Outcome (Option ApiErr × Handler)
update_repository io properties h = when_started some (update_started io properties) h

-- `GetRepository`: an error, or the properties as they are stored.
unfoldable pub get_repository :
    ApiIo → Handler → Outcome ((ApiErr ⊎ RepositoryProperties) × Handler)
unfolding when_started read_properties
get_repository io = when_started inl (
    read_properties io inl λ p h.
      if p.created
      then (if p.mirror_urls == ""
          then (
            inr (record { mirror = some p.mirror; mirror_urls = none; gpg_key = some p.gpg_key }),
            h,
          )
          else elim (io.formats.decode_gob p.mirror_urls) [
            | err e ↦ (inl (wrapped internal e), h)
            | ok urls ↦ (
              inr (record {
                mirror = some p.mirror;
                mirror_urls = some urls;
                gpg_key = some p.gpg_key;
              }),
              h,
            )
          ])
      else (inl (wrapped not_found "repository not found"), h))
