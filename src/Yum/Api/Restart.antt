-- ===== src/Yum/Api/Restart.antt =====
-- What a restart of the handler reads back, and an update that leaves the two apart.
use beskar.Prelude.{
  String, ◌≡◌, refl, ◌∙◌, sym, ap, Bool, true, false, Option, none, some, List, [], arith,
}
use beskar.Prelude.Outcome.{done, Err}
use beskar.Prelude.Result.{ok, err}
use beskar.Repository.Queue.{started}
use beskar.Yum.Sql.{query_row}
use beskar.Yum.Status.{StatusDb, Properties, get_properties}
use beskar.Yum.Handler.{Handler, get_db, status}
use beskar.Yum.Properties.{
  set_mirror_urls, set_keyring, InitIo, init_properties, load_stored, load_properties,
  load_reposync, init_mirror_urls, init_keyring, ◌andthen◌,
}
use beskar.Yum.Api.{
  ApiIo, wrapped, invalid_argument, apply_key, apply_properties, read_properties, when_started,
  update_stored, update_started, update_repository,
}
use beskar.Yum.Api.Coherence.{Coherent, urls_of, key_of}

-- A handler that has loaded nothing yet.
abbrev pub IsFresh : Handler → Type 0
IsFresh h = (h.mirror_urls ≡ []) × (h.keyring ≡ none)

ok-injective {ℓ} : {A : Type ℓ} {a b : A} → ok a ≡ ok b → a ≡ b
ok-injective e = cc

init_mirror_urls-ok :
    (io : InitIo) (s : String) (h k : Handler)
    → init_mirror_urls io s h ≡ (none, k)
    → h.mirror_urls ≡ []
    → (urls_of io.formats s ≡ ok k.mirror_urls)
      × (k.keyring ≡ h.keyring)
      × (k.mirror ≡ h.mirror)
      × (k.status_db ≡ h.status_db)
unfolding init_mirror_urls set_mirror_urls
init_mirror_urls-ok io s h k e fresh = ground arith

init_keyring-ok :
    (io : InitIo) (s : String) (h k : Handler)
    → init_keyring io s h ≡ (none, k)
    → h.keyring ≡ none
    → (key_of io.formats s ≡ ok k.keyring)
      × (k.mirror_urls ≡ h.mirror_urls)
      × (k.mirror ≡ h.mirror)
      × (k.status_db ≡ h.status_db)
unfolding init_keyring set_keyring
init_keyring-ok io s h k e fresh = ground arith

andthen-ok :
    (r : Err × Handler) (f : Handler → Err × Handler) (k : Handler)
    → (r andthen f) ≡ (none, k)
    → (h : Handler) × (r ≡ (none, h)) × (f h ≡ (none, k))
andthen-ok (none, h) f k e = (h, refl, e)
andthen-ok (some x, h) f k e = absurd (ground arith)

load_reposync-ok :
    (io : InitIo) (h k : Handler)
    → load_reposync io h ≡ (none, k)
    → (k.mirror ≡ h.mirror) × (k.mirror_urls ≡ h.mirror_urls) × (k.keyring ≡ h.keyring)
unfolding load_reposync
load_reposync-ok io h k e = ground arith

module _ (io : InitIo) where
  load_stored-ok :
      (p : Properties) (h k : Handler)
      → load_stored io p h ≡ (none, k)
      → IsFresh h
      → Coherent io.formats p k
  unfolding load_stored
  load_stored-ok p h k e fresh =
      let (h1, e1, e2) =
        andthen-ok
          (init_mirror_urls io p.mirror_urls (record h { mirror = p.mirror; created = p.created }))
          (init_keyring io p.gpg_key) k e in
      let (urls, key1, mirror1, db1) =
        init_mirror_urls-ok io p.mirror_urls (record h { mirror = p.mirror; created = p.created })
          h1 e1 fresh.0 in
      let (key, urls2, mirror2, db2) = init_keyring-ok io p.gpg_key h1 k e2 (key1 ∙ fresh.1) in
      record { mirror = mirror2 ∙ mirror1; urls = urls ∙ ap ok (sym urls2); key = key }

  load_properties-ok :
      (p : Properties) (h k : Handler)
      → h.status_db.properties ≡ some p
      → load_properties io h ≡ (none, k)
      → load_stored io p h ≡ (none, k)
  unfolding load_properties get_properties query_row
  load_properties-ok p h k there e = ground arith

  get_db-ok :
      (h k : Handler)
      → get_db status io.opening h ≡ (none, k)
      → (k.status_db ≡ h.status_db) × (k.mirror_urls ≡ h.mirror_urls) × (k.keyring ≡ h.keyring)
  unfolding get_db
  get_db-ok h k e = ground arith

  -- When the loading of the properties of a handler with no mirror URLs and no key ring ends
  -- without an error, the handler agrees with the stored properties.
  pub init_properties-Coherent :
      (p : Properties) (h k : Handler)
      → IsFresh h
      → h.status_db.properties ≡ some p
      → init_properties io h ≡ (none, k)
      → Coherent io.formats p k
  unfolding init_properties
  init_properties-Coherent p h k fresh there e =
      let (h2, e2, e3) =
        andthen-ok (get_db status io.opening h andthen load_properties io) (load_reposync io) k e in
      let (h1, e0, e1) = andthen-ok (get_db status io.opening h) (load_properties io) h2 e2 in
      let (db, urls, key) = get_db-ok h h1 e0 in
      let c : Coherent io.formats p h2 =
        load_stored-ok p h1 h2
          (load_properties-ok p h1 h2 (ap (λ (d : StatusDb). d.properties) db ∙ there) e1)
          (urls ∙ fresh.0, key ∙ fresh.1) in
      let (mirror3, urls3, key3) = load_reposync-ok io h2 k e3 in
      record {
        mirror = mirror3 ∙ c.mirror;
        urls = c.urls ∙ ap ok (sym urls3);
        key = c.key ∙ ap ok (sym key3);
      }

  -- When a handler agrees with its database, a handler that has loaded nothing and starts on that
  -- database without an error has the same mirror flag, mirror URLs and key ring.
  pub restart-eq :
      (p : Properties) (h fresh k : Handler)
      → h.status_db.properties ≡ some p
      → Coherent io.formats p h
      → IsFresh fresh
      → fresh.status_db ≡ h.status_db
      → init_properties io fresh ≡ (none, k)
      → (k.mirror ≡ h.mirror) × (k.mirror_urls ≡ h.mirror_urls) × (k.keyring ≡ h.keyring)
  restart-eq p h fresh k there c new same e =
      let d : Coherent io.formats p k =
        init_properties-Coherent p fresh k new (ap (λ (db : StatusDb). db.properties) same ∙ there)
          e in
      (
        d.mirror ∙ sym c.mirror,
        ok-injective (sym d.urls ∙ c.urls),
        ok-injective (sym d.key ∙ c.key),
      )

-- On a started repository that is created, is not being deleted and whose open database can be
-- read, an update with a key that cannot be read is refused, and the handler still has the new
-- mirror flag while the database is as before.
pub update_bad_key-differs :
    (io : ApiIo) (p : Properties) (h : Handler) (key e : String) (mirror : Bool)
    (urls : Option (List String))
    → h.repo.started_closed ≡ true
    → h.repo.stopped ≡ false
    → h.delete ≡ false
    → h.opened status ≡ true
    → io.get ≡ record { opening = none; exec = none; affected = none }
    → h.status_db.properties ≡ some p
    → p.created ≡ true
    → io.formats.read_keyring key ≡ err e
    → update_repository io
        (some (record { mirror = some mirror; mirror_urls = urls; gpg_key = some key }))
        h
      ≡ done (some (wrapped invalid_argument "bad gpg key"), record h { mirror = mirror })
unfolding update_repository when_started update_started update_stored read_properties started get_db
    get_properties query_row apply_properties apply_key set_keyring
update_bad_key-differs io p h key e mirror urls s r d o g there c bad = ground arith
