-- ===== src/Yum/Reposync/Stored.antt =====
-- The rows of the package database, read by the tag that belongs to an id.
use beskar.Prelude.{
  String, Bool, true, false, not, ◌&&◌, ◌≡◌, ◌⊎◌, inl, inr, refl, sym, ◌∙◌, ap, Option, none, some,
  arith, if◌then◌else◌, ◌==◌, eq_iff, Bool-cases,
}
use beskar.Prelude.Dict
use beskar.Prelude.Dict.{Dict, lookup-insert}
use beskar.Yum.Packages.{RepositoryPackage, without_id}
use beskar.Yum.Packages.Ids.{IsUnique, unless_id, lookup-without_id}
use beskar.Yum.Reposync.{tag_of}
use beskar.Yum.Reposync.Sets.{is_id}

pub lookup-insert_inv :
    (key tag : String) (new pkg : RepositoryPackage) (rows : Dict RepositoryPackage)
    → Dict.lookup tag (Dict.insert key new rows) ≡ some pkg
    → ((key ≡ tag) × (pkg ≡ new)) ⊎ (((key == tag) ≡ false) × (Dict.lookup tag rows ≡ some pkg))
lookup-insert_inv key tag new pkg rows h =
    ground (arith, lookup-insert key tag new rows, h, eq_iff key tag)

unless_id-inv :
    (id : String) (o : Option RepositoryPackage) (pkg : RepositoryPackage)
    → unless_id id o ≡ some pkg
    → (o ≡ some pkg) × ((pkg.id == id) ≡ false)
unless_id-inv id none pkg h = absurd (ground arith)
unless_id-inv id (some x) pkg h = elim (Bool-cases (x.id == id)) [
  | inl e ↦ absurd (ground (arith, e, h))
  | inr e ↦
      (let q : x ≡ pkg = ground (arith, e, h) in
        (ap some q, ap (λ (y : RepositoryPackage). y.id == id) (sym q) ∙ e))
]

pub lookup-without_inv :
    (id tag : String) (rows : Dict RepositoryPackage) (pkg : RepositoryPackage)
    → IsUnique rows
    → Dict.lookup tag (without_id id rows) ≡ some pkg
    → (Dict.lookup tag rows ≡ some pkg) × ((pkg.id == id) ≡ false)
lookup-without_inv id tag rows pkg u h =
    unless_id-inv id (Dict.lookup tag rows) pkg (sym (lookup-without_id id tag rows u) ∙ h)

unless_id-is_id :
    (id other : String) (o : Option RepositoryPackage)
    → is_id other (unless_id id o) ≡ (not (id == other) && is_id other o)
unless_id-is_id id other none = ground arith
unless_id-is_id id other (some pkg) =
    ground (arith, eq_iff pkg.id id, eq_iff pkg.id other, eq_iff id other)

is_id-found :
    (id : String) (o : Option RepositoryPackage)
    → is_id id o ≡ true
    → (pkg : RepositoryPackage) × (o ≡ some pkg) × (pkg.id ≡ id)
is_id-found id none h = absurd (ground arith)
is_id-found id (some pkg) h = (pkg, refl, (eq_iff pkg.id id).0 h)

module _ (md5_hex : String → String) (pkg_of : String → RepositoryPackage) where
  abbrev pub settled : String → Dict RepositoryPackage → Bool
  settled id rows = is_id id (Dict.lookup (tag_of md5_hex pkg_of id) rows)

  pub settled_row :
      (id : String) (rows : Dict RepositoryPackage)
      → settled id rows ≡ true
      → (pkg : RepositoryPackage) × (Dict.lookup (tag_of md5_hex pkg_of id) rows ≡ some pkg)
        × (pkg.id ≡ id)
  settled_row id rows h = is_id-found id (Dict.lookup (tag_of md5_hex pkg_of id) rows) h

  pub settled-without_id :
      (id other : String) (rows : Dict RepositoryPackage)
      → IsUnique rows
      → settled other (without_id id rows) ≡ (not (id == other) && settled other rows)
  settled-without_id id other rows u =
      ap (is_id other) (lookup-without_id id (tag_of md5_hex pkg_of other) rows u)
      ∙ unless_id-is_id id other (Dict.lookup (tag_of md5_hex pkg_of other) rows)

  pub settled-insert :
      (id other : String) (rows : Dict RepositoryPackage)
      → (pkg_of id).id ≡ id
      → let tag : String = tag_of md5_hex pkg_of id in
        settled other (Dict.insert tag (record (pkg_of id) { tag = tag }) rows)
        ≡ (if tag == tag_of md5_hex pkg_of other then id == other else settled other rows)
  settled-insert id other rows h =
      let tag : String = tag_of md5_hex pkg_of id in
      rw (lookup-insert tag (tag_of md5_hex pkg_of other) (record (pkg_of id) { tag = tag }) rows)
        (elim (Bool-cases (tag == tag_of md5_hex pkg_of other)) [
          | inl e ↦ rw (e, h)
          | inr e ↦ rw e
        ])
