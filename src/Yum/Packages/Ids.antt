-- ===== src/Yum/Packages/Ids.antt =====
-- The rows of the package database under distinct tags: what removing an id leaves under a tag.
use beskar.Prelude.{
  String, ◌≡◌, refl, Option, none, some, [], ◌∷◌, arith, if◌then◌else◌, ◌==◌, eq_iff, Bool-cases,
  inl, inr,
}
use beskar.Prelude.Dict
use beskar.Prelude.Dict.{Dict, lookup-insert}
use beskar.Yum.Packages.{RepositoryPackage, without_id, first_of_id}

-- No two rows have one tag.
abbrev pub IsUnique : Dict RepositoryPackage → Type 0
IsUnique [] = Unit
IsUnique ((tag, pkg) ∷ rows) = (Dict.lookup tag rows ≡ none) × IsUnique rows

abbrev pub unless_id : String → Option RepositoryPackage → Option RepositoryPackage
unless_id id none = none
unless_id id (some pkg) = if pkg.id == id then none else some pkg

lookup-without_id-none :
    (id tag : String) (rows : Dict RepositoryPackage)
    → Dict.lookup tag rows ≡ none
    → Dict.lookup tag (without_id id rows) ≡ none
unfolding Dict.lookup without_id
lookup-without_id-none id tag [] h = refl
lookup-without_id-none id tag ((name, pkg) ∷ rows) h =
    ground (arith, lookup-without_id-none id tag rows)

pub lookup-without_id :
    (id tag : String) (rows : Dict RepositoryPackage)
    → IsUnique rows
    → Dict.lookup tag (without_id id rows) ≡ unless_id id (Dict.lookup tag rows)
unfolding Dict.lookup without_id
lookup-without_id id tag [] u = refl
lookup-without_id id tag ((name, pkg) ∷ rows) u = ground (
  arith,
  eq_iff name tag,
  lookup-without_id id tag rows u.1,
  lookup-without_id-none id name rows u.0,
)

pub without_id-IsUnique :
    (id : String) (rows : Dict RepositoryPackage) → IsUnique rows → IsUnique (without_id id rows)
unfolding without_id
without_id-IsUnique id [] u = tt
without_id-IsUnique id ((name, pkg) ∷ rows) u = elim (Bool-cases (pkg.id == id)) [
  | inl e ↦ rw e (without_id-IsUnique id rows u.1)
  | inr e ↦ rw e ((lookup-without_id-none id name rows u.0, without_id-IsUnique id rows u.1))
]

pub insert-IsUnique :
    (tag : String) (new : RepositoryPackage) (rows : Dict RepositoryPackage)
    → IsUnique rows
    → IsUnique (Dict.insert tag new rows)
unfolding Dict.insert Dict.lookup
insert-IsUnique tag new [] u = (refl, tt)
insert-IsUnique tag new ((name, pkg) ∷ rows) u = elim (Bool-cases (name == tag)) [
  | inl e ↦ rw e (u.0, u.1)
  | inr e ↦ rw e (
      (
        ground (arith, lookup-insert tag name new rows, eq_iff tag name, eq_iff name tag, u.0),
        insert-IsUnique tag new rows u.1,
      ))
]

-- A row that is found under a tag is found under its id, with a row of that id.
pub first-lookup :
    (tag : String) (rows : Dict RepositoryPackage) (pkg : RepositoryPackage)
    → Dict.lookup tag rows ≡ some pkg
    → (row : RepositoryPackage) × (first_of_id pkg.id rows ≡ some row)
unfolding Dict.lookup first_of_id
first-lookup tag [] pkg h = absurd (ground arith)
first-lookup tag ((name, row) ∷ rows) pkg h =
    let rest = first-lookup tag rows pkg in
    elim (Bool-cases (row.id == pkg.id)) [
      | inl e ↦ (row, rw e)
      | inr e ↦ rw e (rest (ground (arith, eq_iff row.id pkg.id)))
    ]
