-- ===== src/Yum/Metadata.antt =====
-- internal/plugins/yum/pkg/yumdb/metadata.go: the packages and the extra metadata of the metadata
-- database. The rows are keyed by the primary keys, the package name and the type of the metadata.
use beskar.Prelude.{ℕ, suc, String, Bool, none, some, [], ◌∷◌, if◌then◌else◌, length, ◌==◌, has}
use beskar.Prelude.Dict
use beskar.Prelude.Dict.{Dict}
use beskar.Prelude.Outcome.{Err}
use beskar.Prelude.Result.{Result}
use beskar.Yum.Sql.{Io, exec_one, exec_delete, count_rows}

pub record PackageMetadata : Type 0 where
  pub name : String
  pub id : String
  pub primary : String
  pub filelists : String
  pub other : String

-- INSERT INTO packages ... ON CONFLICT (name) DO UPDATE SET ...
unfoldable pub add_package :
    Io → PackageMetadata → Dict PackageMetadata → Err × Dict PackageMetadata
unfolding exec_one
add_package io pkg rows =
    exec_one io 1 "package not inserted into database" rows (Dict.insert pkg.name pkg rows)

unfoldable pub without_id : String → Dict PackageMetadata → Dict PackageMetadata
without_id id [] = []
without_id id ((name, pkg) ∷ rows) =
    let rest = without_id id rows in if pkg.id == id then rest else (name, pkg) ∷ rest

unfoldable pub count_id : String → Dict PackageMetadata → ℕ
count_id id [] = 0
count_id id ((name, pkg) ∷ rows) =
    let rest = count_id id rows in if pkg.id == id then suc rest else rest

-- DELETE FROM packages WHERE id = ?
unfoldable pub remove_package :
    Io → String → Dict PackageMetadata → Result Bool × Dict PackageMetadata
unfolding exec_delete
remove_package io id rows = exec_delete io (count_id id rows) rows (without_id id rows)

-- SELECT COUNT(name) FROM packages
unfoldable pub count_packages : Io → Dict PackageMetadata → Result ℕ
unfolding count_rows
count_packages io rows = count_rows io (length rows)

pub record ExtraMetadata : Type 0 where
  pub data_type : String
  pub filename : String
  pub checksum : String
  pub open_checksum : String
  pub size : ℕ
  pub open_size : ℕ
  pub timestamp : ℕ
  pub content : String

-- INSERT INTO extra_metadata ... ON CONFLICT (type) DO UPDATE SET ...
unfoldable pub add_extra_metadata :
    Io → ExtraMetadata → Dict ExtraMetadata → Err × Dict ExtraMetadata
unfolding exec_one
add_extra_metadata io extra rows =
    exec_one io 1 "extra repodata not inserted into database" rows
      (Dict.insert extra.data_type extra rows)

-- DELETE FROM extra_metadata WHERE type = ?
unfoldable pub remove_extra_metadata :
    Io → String → Dict ExtraMetadata → Result Bool × Dict ExtraMetadata
unfolding exec_delete
remove_extra_metadata io data_type rows =
    exec_delete io (if has (Dict.lookup data_type rows) then 1 else 0) rows
      (Dict.remove data_type rows)

-- The loop of `WalkPackageMetadata` and of `WalkExtraMetadata`, with the state that the walk
-- function changes.
unfoldable pub walk_entries {ℓ} :
    {A : Type 0} {S : Type ℓ} → (A → S → Err × S) → Dict A → S → Err × S
walk_entries walk_fn [] s = (none, s)
walk_entries walk_fn ((key, row) ∷ rows) s =
    let (e, s') = walk_fn row s in
    elim e [ some e ↦ (some e, s') | none ↦ walk_entries walk_fn rows s' ]

unfoldable pub walk_table {ℓ} :
    {A : Type 0} {S : Type ℓ} → Io → (A → S → Err × S) → Dict A → S → Err × S
unfolding walk_entries
walk_table io walk_fn rows s = elim io.opening [
  | some e ↦ (some e, s)
  | none ↦ elim io.exec [ some e ↦ (some e, s) | none ↦ walk_entries walk_fn rows s ]
]
