-- ===== src/Yum/Api/Coherence.antt =====
-- What the handler of a yum repository keeps in memory is what the status database says.
use beskar.Prelude.{
  String, ◌≡◌, ◌≢◌, refl, ◌∙◌, sym, ap, Bool, true, false, Option, none, some, List, [], arith,
  String-cases, inl, inr, ◌==◌, if◌then◌else◌,
}
use beskar.Prelude.Outcome.{Outcome, done, >>=-eq-done, done-injective}
use beskar.Prelude.Result.{Result, ok, err, Result-cases}
use beskar.Repository.Queue.{RepoHandler, started}
use beskar.Yum.Sql.{exec_one, query_row}
use beskar.Yum.Status.{Properties, get_properties, update_properties}
use beskar.Yum.Handler.{Handler, get_db, status}
use beskar.Yum.Properties.{Formats, set_mirror_urls, set_keyring, parse_urls}
use beskar.Yum.Api.{
  wrapped, unavailable, ApiErr, ApiIo, apply_key, apply_urls, store_properties, and_then,
  read_properties, when_started,
}

-- The values that stored properties stand for.
abbrev pub urls_of : Formats → String → Result (List String)
urls_of f s =
    if s == ""
    then ok []
    else elim (f.decode_gob s) [ err e ↦ err e | ok urls ↦ parse_urls f.parse_url urls ]

abbrev pub key_of : Formats → String → Result (Option String)
key_of f s =
    if s == "" then ok none else elim (f.read_keyring s) [ err e ↦ err e | ok k ↦ ok (some k) ]

pub record Coherent (f : Formats) (p : Properties) (h : Handler) : Type 0 where
  pub mirror : h.mirror ≡ p.mirror
  pub urls : urls_of f p.mirror_urls ≡ ok h.mirror_urls
  pub key : key_of f p.gpg_key ≡ ok h.keyring

-- What the code relies on: a list is read back as it was written, no list is written as the empty
-- text, and the empty text is no key.
pub record IsFormats (f : Formats) : Type 0 where
  pub decode-encode :
      (urls : List String) (s : String) → f.encode_gob urls ≡ ok s → f.decode_gob s ≡ ok urls
  pub encode_ne : (urls : List String) (s : String) → f.encode_gob urls ≡ ok s → (s == "") ≡ false
  pub no_key : (k : String) → f.read_keyring "" ≢ ok k

module _ (f : Formats) (law : IsFormats f) where
  key_of-read : (s k : String) → f.read_keyring s ≡ ok k → key_of f s ≡ ok (some k)
  key_of-read s k r = elim (String-cases s "") [
    | inl e ↦ absurd (law.no_key k (ap f.read_keyring (sym e) ∙ r))
    | inr ne ↦ rw ne (rw r)
  ]

  pub apply_key-Coherent :
      (key : Option String) (p q : Properties) (h k : Handler)
      → apply_key f key (p, h) ≡ (none, q, k)
      → Coherent f p h
      → Coherent f q k × (q.created ≡ p.created) × (q.mirror ≡ p.mirror)
  unfolding apply_key set_keyring
  apply_key-Coherent none p q h k e c = ground arith
  apply_key-Coherent (some s) p q h k e c = elim (Result-cases (f.read_keyring s)) [
    | inl (a, r) ↦ ground (arith, key_of-read s a r)
    | inr (x, r) ↦ ground arith
  ]

  urls_of-encode :
      (us : List String) (s : String)
      → f.encode_gob us ≡ ok s
      → urls_of f s ≡ parse_urls f.parse_url us
  urls_of-encode us s r = rw (law.encode_ne us s r) (rw (law.decode-encode us s r))

  pub apply_urls-Coherent :
      (urls : Option (List String)) (p q : Properties) (h k : Handler)
      → apply_urls f urls (p, h) ≡ (none, q, k)
      → Coherent f p h
      → Coherent f q k × (q.created ≡ p.created) × (q.mirror ≡ p.mirror)
  unfolding apply_urls set_mirror_urls
  apply_urls-Coherent none p q h k e c = ground arith
  apply_urls-Coherent (some us) p q h k e c = elim (Result-cases (f.encode_gob us)) [
    | inl (s, r) ↦ ground (arith, urls_of-encode us s r)
    | inr (x, r) ↦ ground arith
  ]

  -- A stored update keeps the handler and the database together.
  pub store-Coherent :
      (io : ApiIo) (p : Properties) (h k : Handler)
      → store_properties io p h ≡ (none, k)
      → Coherent f p h
      → Coherent f p k × (k.status_db.properties ≡ some p)
  unfolding store_properties update_properties exec_one
  store-Coherent io p h k e c = ground arith

pub and_then-ok :
    (r : Option ApiErr × Properties × Handler)
    (next : Properties → Handler → Option ApiErr × Handler) (k : Handler)
    → and_then r next ≡ (none, k)
    → (p : Properties) × (h : Handler) × (r ≡ (none, p, h)) × (next p h ≡ (none, k))
and_then-ok (none, p, h) next k e = (p, h, refl, e)
and_then-ok (some x, p, h) next k e = absurd (ground arith)

-- What the calls leave alone before they apply the new properties.
pub record Alike (h k : Handler) : Type 0 where
  pub status_same : k.status_db ≡ h.status_db
  pub mirror_same : k.mirror ≡ h.mirror
  pub urls_same : k.mirror_urls ≡ h.mirror_urls
  pub key_same : k.keyring ≡ h.keyring

pub Coherent-Alike :
    (f : Formats) (p : Properties) (h k : Handler) → Alike h k → Coherent f p h → Coherent f p k
Coherent-Alike f p h k a c = ground arith

pub when_started-ok :
    (next : Handler → Option ApiErr × Handler) (h k : Handler)
    → when_started some next h ≡ done (none, k)
    → (h1 : Handler) × Alike h h1 × (next h1 ≡ (none, k))
unfolding when_started
when_started-ok next h k e = let (r, d, q) = >>=-eq-done (started h.repo) _ e in go r q
  where
    go :
        (r : Bool × RepoHandler)
        → (◌≡◌ {A = Outcome (Option ApiErr × Handler)}
            (if r.0
              then done (next (record h { repo = r.1 }))
              else done (some (wrapped unavailable ""), record h { repo = r.1 }))
            (done (none, k)))
        → (h1 : Handler) × Alike h h1 × (next h1 ≡ (none, k))
    go (true, repo) q = (
      record h { repo = repo },
      record { status_same = refl; mirror_same = refl; urls_same = refl; key_same = refl },
      done-injective q,
    )
    go (false, repo) q = absurd (ground arith)

pub read_properties-ok :
    (io : ApiIo) (next : Properties → Handler → Option ApiErr × Handler) (p : Properties)
    (h k : Handler)
    → h.status_db.properties ≡ some p
    → read_properties io some next h ≡ (none, k)
    → (h1 : Handler) × Alike h h1 × (next p h1 ≡ (none, k))
unfolding read_properties get_properties query_row get_db
read_properties-ok io next p h k there e =
    let h1 : Handler = (get_db status io.opening h).1 in (h1, ground arith, ground arith)
