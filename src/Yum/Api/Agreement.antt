-- ===== src/Yum/Api/Agreement.antt =====
-- A handler and its database agree after each call that reports no error.
use beskar.Prelude.{◌≡◌, refl, ◌∙◌, ap, Bool, true, false, none, some, arith, Bool-cases, inl, inr}
use beskar.Prelude.Outcome.{done}
use beskar.Yum.Status.{StatusDb, Properties}
use beskar.Yum.Handler.{Handler}
use beskar.Yum.Api.{
  create_stored, create_started, update_stored, update_started, ApiIo, RepositoryProperties,
  or_else, apply_key, apply_urls, store_properties, apply_properties, read_properties,
  create_repository, update_repository,
}
use beskar.Yum.Api.Coherence.{
  Alike, when_started-ok, read_properties-ok, and_then-ok, apply_key-Coherent, apply_urls-Coherent,
  store-Coherent, Coherent-Alike, Coherent, IsFormats,
}

module _ (io : ApiIo) (law : IsFormats io.formats) where
  -- A successful update stores properties that agree with what the handler keeps in memory.
  apply-Coherent :
      (properties : RepositoryProperties) (p : Properties) (h k : Handler)
      → apply_properties io properties p h ≡ (none, k)
      → Coherent io.formats p h
      → (q : Properties) × Coherent io.formats q k
        × (k.status_db.properties ≡ some q)
        × (q.created ≡ p.created)
        × (q.mirror ≡ or_else properties.mirror p.mirror)
  unfolding apply_properties
  apply-Coherent properties p h k e c =
      let mirror : Bool = or_else properties.mirror p.mirror in
      let p0 : Properties = record p { mirror = mirror } in
      let h0 : Handler = record h { mirror = mirror } in
      let c0 : Coherent io.formats p0 h0 = record { mirror = refl; urls = c.urls; key = c.key } in
      let (p1, h1, e1, rest) =
        and_then-ok (apply_key io.formats properties.gpg_key (p0, h0)) _ k e in
      let (c1, created1, mirror1) =
        apply_key-Coherent io.formats law properties.gpg_key p0 p1 h0 h1 e1 c0 in
      let (p2, h2, e2, stored) =
        and_then-ok (apply_urls io.formats properties.mirror_urls (p1, h1)) (store_properties io) k
          rest in
      let (c2, created2, mirror2) =
        apply_urls-Coherent io.formats law properties.mirror_urls p1 p2 h1 h2 e2 c1 in
      let (c3, there) = store-Coherent io.formats law io p2 h2 k stored c2 in
      (p2, c3, there, created2 ∙ created1, mirror2 ∙ mirror1)

  -- A handler and its database that agree.
  abbrev pub Agrees : Properties → Handler → Type 0
  Agrees p h = (h.status_db.properties ≡ some p) × Coherent io.formats p h

  Agrees-Alike : (p : Properties) (h k : Handler) → Alike h k → Agrees p h → Agrees p k
  Agrees-Alike p h k a c = (
    ap (λ (db : StatusDb). db.properties) a.status_same ∙ c.0,
    Coherent-Alike io.formats p h k a c.1,
  )

  update_stored-Coherent :
      (properties : RepositoryProperties) (p : Properties) (h k : Handler)
      → update_stored io properties p h ≡ (none, k)
      → Coherent io.formats p h
      → (q : Properties) × Agrees q k
        × (q.created ≡ true)
        × (q.mirror ≡ or_else properties.mirror p.mirror)
  unfolding update_stored
  update_stored-Coherent properties p h k e c = elim (Bool-cases p.created) [
    | inl yes' ↦
        let (q, c', there, created, mirror) = apply-Coherent properties p h k (ground arith) c in
        (q, (there, c'), created ∙ yes', mirror)
    | inr no' ↦ absurd (ground arith)
  ]

  update_started-ok :
      (properties : RepositoryProperties) (h k : Handler)
      → update_started io (some properties) h ≡ (none, k)
      → read_properties io some (update_stored io properties) h ≡ (none, k)
  unfolding update_started
  update_started-ok properties h k e = ground arith

  -- When the handler and its database agree, an update that reports no error leaves them in
  -- agreement: the stored properties are those that the handler holds, created, with the mirror
  -- flag that was asked for.
  pub update_repository-Agrees :
      (properties : RepositoryProperties) (p : Properties) (h k : Handler)
      → Agrees p h
      → update_repository io (some properties) h ≡ done (none, k)
      → (q : Properties) × Agrees q k
        × (q.created ≡ true)
        × (q.mirror ≡ or_else properties.mirror p.mirror)
  unfolding update_repository
  update_repository-Agrees properties p h k c e =
      let (h1, a1, e1) = when_started-ok (update_started io (some properties)) h k e in
      let c1 : Agrees p h1 = Agrees-Alike p h h1 a1 c in
      let (h2, a2, e2) =
        read_properties-ok io (update_stored io properties) p h1 k c1.0
          (update_started-ok properties h1 k e1) in
      update_stored-Coherent properties p h2 k e2 (Agrees-Alike p h1 h2 a2 c1).1

  create_stored-Coherent :
      (properties : RepositoryProperties) (p : Properties) (h k : Handler)
      → create_stored io properties p h ≡ (none, k)
      → Coherent io.formats p h
      → (p.created ≡ false)
        × (q : Properties) × Agrees q k
        × (q.created ≡ true)
        × (q.mirror ≡ or_else properties.mirror p.mirror)
  unfolding create_stored
  create_stored-Coherent properties p h k e c = elim (Bool-cases p.created) [
    | inl yes' ↦ absurd (ground arith)
    | inr no' ↦
        let (q, c', there, created, mirror) =
          apply-Coherent properties (record p { created = true }) h k (rw (no', create_stored) at e)
            (record { mirror = c.mirror; urls = c.urls; key = c.key }) in
        (no', q, (there, c'), created, mirror)
  ]

  create_started-ok :
      (properties : RepositoryProperties) (h k : Handler)
      → create_started io (some properties) h ≡ (none, k)
      → read_properties io some (create_stored io properties) h ≡ (none, k)
  unfolding create_started
  create_started-ok properties h k e = e

  -- When the handler and its database agree and a creation reports no error, the repository was not
  -- created before, and they agree after it: the repository is created, with the mirror flag that
  -- was asked for.
  pub create_repository-Agrees :
      (properties : RepositoryProperties) (p : Properties) (h k : Handler)
      → Agrees p h
      → create_repository io (some properties) h ≡ done (none, k)
      → (p.created ≡ false)
        × (q : Properties) × Agrees q k
        × (q.created ≡ true)
        × (q.mirror ≡ or_else properties.mirror p.mirror)
  unfolding create_repository
  create_repository-Agrees properties p h k c e =
      let (h1, a1, e1) = when_started-ok (create_started io (some properties)) h k e in
      let c1 : Agrees p h1 = Agrees-Alike p h h1 a1 c in
      let (h2, a2, e2) =
        read_properties-ok io (create_stored io properties) p h1 k c1.0
          (create_started-ok properties h1 k e1) in
      create_stored-Coherent properties p h2 k e2 (Agrees-Alike p h1 h2 a2 c1).1
