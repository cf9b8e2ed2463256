-- ===== src/Yum/Mirror/Requests.antt =====
-- Which mirror answers a request, and what the signature of a mirror's metadata guarantees.
use beskar.Prelude.{
  ℕ, zero, suc, String, ◌≡◌, ◌↔◌, ◌⊎◌, inl, inr, ap, ◌∙◌, Option, none, some, List, [], ◌∷◌, arith,
  if◌then◌else◌, nat_eq, Option-cases,
}
use beskar.Prelude.Outcome.{Err}
use beskar.Prelude.Result.{Result, ok, err, Result-cases}
use beskar.Yum.Mirror.{
  Network, Syncer, RepoMdData, file_reader, Formats, check_signature, parse_root, read_signature,
  init_repomd_xml,
}

-- The body that a mirror answers with.
abbrev accepted : Result (ℕ × String) → Option String
accepted (err e) = none
accepted (ok (status, body)) = if nat_eq status 200 then some body else none

abbrev pub first_answer : Network → List String → String → Option String
first_answer n [] path = none
first_answer n (url ∷ urls) path =
    let rest = first_answer n urls path in
    elim (accepted (n.get (n.join url path))) [ some body ↦ some body | none ↦ rest ]

-- When a request can be made for every URL, reading a file gives the answer of the first mirror, in
-- their order, that answers with the status 200, and an error exactly when none does.
pub file_reader-first_answer :
    (n : Network) (urls : List String) (path body : String)
    → ((url : String) → n.new_request url ≡ none)
    → (file_reader n urls path ≡ ok body) ↔ (first_answer n urls path ≡ some body)
unfolding file_reader
file_reader-first_answer n [] path body w = (λ h. ground (arith, h), λ h. ground (arith, h))
file_reader-first_answer n (url ∷ []) path body w =
    (λ h. ground (arith, h, w (n.join url path)), λ h. ground (arith, h, w (n.join url path)))
file_reader-first_answer n (url ∷ next ∷ urls) path body w =
    let (f, g) = file_reader-first_answer n (next ∷ urls) path body w in
    (
      λ h. ground (arith, h, w (n.join url path), f, g),
      λ h. ground (arith, h, w (n.join url path), f, g),
    )

-- What a test of the signature that reports no error has found.
pub record IsSigned (f : Formats) (keyring xml : String) (s : Syncer) : Type 0 where
  pub signature : String
  pub identities : ℕ
  pub checked : f.check keyring xml signature ≡ ok (suc identities)
  pub kept : s.repomd_xml_signature ≡ some signature

check_signature-ok :
    (f : Formats) (keyring xml signature : String)
    → check_signature f keyring xml signature ≡ none
    → (m : ℕ) × (f.check keyring xml signature ≡ ok (suc m))
unfolding check_signature
check_signature-ok f keyring xml signature h = elim (Result-cases (f.check keyring xml signature)) [
  | inr (e, q) ↦ absurd (ground (arith, h, q))
  | inl (zero, q) ↦ absurd (ground (arith, h, q))
  | inl (suc m, q) ↦ (m, q)
]

read_signature-IsSigned :
    (n : Network) (f : Formats) (xml keyring : String) (s t : Syncer)
    → s.keyring ≡ some keyring
    → read_signature n f xml s ≡ (none, t)
    → (t.repomd_xml ≡ s.repomd_xml)
      × (((e : String) × (file_reader n s.mirror_urls "repodata/repomd.xml.asc" ≡ err e))
          ⊎ IsSigned f keyring xml t)
unfolding read_signature
read_signature-IsSigned n f xml keyring s t k h =
    elim (Result-cases (file_reader n s.mirror_urls "repodata/repomd.xml.asc")) [
      | inr (e, q) ↦ (ground (arith, k, h, q), inl (e, q))
      | inl (body, q) ↦ elim (Result-cases (n.read body)) [
        | inr (e, r) ↦ absurd (ground (arith, k, h, q, r))
        | inl (signature, r) ↦
            let (m, c) = check_signature-ok f keyring xml signature (ground (arith, k, h, q, r)) in
            (
              ground (arith, k, h, q, r),
              inr (record {
                signature = signature;
                identities = m;
                checked = c;
                kept = ground (arith, k, h, q, r);
              }),
            )
      ]
    ]

-- With a keyring, the metadata of a mirror is accepted for the first time only with a signature of a
-- known identity on what was read, or when no mirror gives a signature.
pub init_repomd_xml-IsSigned :
    (n : Network) (f : Formats) (keyring : String) (s t : Syncer)
    → s.repomd_root ≡ none
    → s.keyring ≡ some keyring
    → init_repomd_xml n f s ≡ (none, t)
    → (xml : String) × (root : List RepoMdData) × (t.repomd_xml ≡ some xml)
      × (f.parse xml ≡ ok root)
      × (t.repomd_root ≡ some root)
      × (((e : String) × (file_reader n s.mirror_urls "repodata/repomd.xml.asc" ≡ err e))
          ⊎ IsSigned f keyring xml t)
unfolding init_repomd_xml parse_root
init_repomd_xml-IsSigned n f keyring s t o k h =
    elim (Result-cases (file_reader n s.mirror_urls "repodata/repomd.xml")) [
      | inr (e, q) ↦ absurd (ground (arith, o, h, q))
      | inl (body, q) ↦ elim (Result-cases (n.read body)) [
        | inr (e, r) ↦ absurd (ground (arith, o, h, q, r))
        | inl (xml, r) ↦
            let s1 : Syncer = record s { repomd_xml = some xml } in
            let p : Err × Syncer = read_signature n f xml s1 in
            elim (Option-cases p.0) [
              | inr (e, z) ↦ absurd (ground (arith, o, h, q, r, z))
              | inl z ↦ elim (Result-cases (f.parse xml)) [
                | inr (e, y) ↦ absurd (ground (arith, o, h, q, r, z, y))
                | inl (root, y) ↦
                    let w : read_signature n f xml s1 ≡ (none, p.1) = ground (arith, z) in
                    let (a, b) = read_signature-IsSigned n f xml keyring s1 p.1 k w in
                    let u : t ≡ record p.1 { repomd_root = some root } =
                      ground (arith, o, h, q, r, z, y) in
                    (
                      xml,
                      root,
                      ground (arith, a, u),
                      y,
                      ground (arith, u),
                      elim b [
                        | inl e ↦ inl e
                        | inr i ↦ inr (record {
                          signature = i.signature;
                          identities = i.identities;
                          checked = i.checked;
                          kept = ap (λ x. x.repomd_xml_signature) u ∙ i.kept;
                        })
                      ],
                    )
              ]
            ]
      ]
    ]
