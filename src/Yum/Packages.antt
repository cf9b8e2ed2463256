-- ===== src/Yum/Packages.antt =====
-- internal/plugins/yum/pkg/yumdb/repository.go: the database of a repository's packages.
-- The rows are keyed by the tag, the table's primary key; their order is that of the table.
pub mod Rows
pub mod Ids
use Prim.Native.String.{◌++◌}
use beskar.Prelude.{
  ℕ, suc, String, Bool, true, false, Option, none, some, List, [], ◌∷◌, if◌then◌else◌, length, ◌==◌,
  ltb,
}
use beskar.Prelude.Dict
use beskar.Prelude.Dict.{Dict}
use beskar.Prelude.Outcome.{Err}
use beskar.Prelude.Result.{Result, ok, err}
use beskar.Yum.Sql.{Io, exec_one, exec_delete, query_row, count_rows}

pub record RepositoryPackage : Type 0 where
  pub tag : String
  pub id : String
  pub name : String
  pub upload_time : ℕ
  pub build_time : ℕ
  pub size : ℕ
  pub architecture : String
  pub source_rpm : String
  pub version : String
  pub release : String
  pub groups : String
  pub license : String
  pub vendor : String
  pub summary : String
  pub description : String
  pub verified : Bool
  pub gpg_signature : String

-- `RPMName`: a package with no source package is a source package.
unfoldable pub rpm_name : RepositoryPackage → String
rpm_name pkg =
    let arch = if pkg.source_rpm == "" then "src" else pkg.architecture in
    pkg.name ++ "-" ++ pkg.version ++ "-" ++ pkg.release ++ "." ++ arch ++ ".rpm"

-- INSERT INTO packages ... ON CONFLICT (tag) DO UPDATE SET ...; `md5_hex` is the hex digest of
-- crypto/md5. The tag is also written into the caller's package.
unfoldable pub add_package :
    (String → String)
    → Io
    → RepositoryPackage
    → Dict RepositoryPackage
    → Err × Dict RepositoryPackage
unfolding exec_one
add_package md5_hex io pkg rows =
    let tag = md5_hex (rpm_name pkg) in
    exec_one io 1 "inventory package not inserted into database" rows
      (Dict.insert tag (record pkg { tag = tag }) rows)

-- The rows that DELETE ... WHERE id = ? leaves, and how many it takes.
unfoldable pub without_id : String → Dict RepositoryPackage → Dict RepositoryPackage
without_id id [] = []
without_id id ((tag, pkg) ∷ rows) =
    let rest = without_id id rows in if pkg.id == id then rest else (tag, pkg) ∷ rest

unfoldable pub count_id : String → Dict RepositoryPackage → ℕ
count_id id [] = 0
count_id id ((tag, pkg) ∷ rows) =
    let rest = count_id id rows in if pkg.id == id then suc rest else rest

unfoldable pub remove_package :
    Io → String → Dict RepositoryPackage → Result Bool × Dict RepositoryPackage
unfolding exec_delete
remove_package io id rows = exec_delete io (count_id id rows) rows (without_id id rows)

-- SELECT * FROM packages WHERE id = ? LIMIT 1
unfoldable pub first_of_id : String → Dict RepositoryPackage → Option RepositoryPackage
first_of_id id [] = none
first_of_id id ((tag, pkg) ∷ rows) =
    let rest = first_of_id id rows in if pkg.id == id then some pkg else rest

abbrev pub no_entry_found : String
no_entry_found = "no entry found"

unfoldable pub get_package : Io → String → Dict RepositoryPackage → Result RepositoryPackage
unfolding query_row
get_package io id rows = query_row io no_entry_found (first_of_id id rows)

unfoldable pub get_package_by_tag : Io → String → Dict RepositoryPackage → Result RepositoryPackage
unfolding query_row
get_package_by_tag io tag rows = query_row io no_entry_found (Dict.lookup tag rows)

-- The loop of `WalkPackages`, with the state that the walk function changes.
unfoldable pub walk_loop {ℓ} :
    {S : Type ℓ} → (RepositoryPackage → S → Err × S) → Dict RepositoryPackage → S → Err × S
walk_loop walk_fn [] s = (none, s)
walk_loop walk_fn ((tag, pkg) ∷ rows) s =
    let (e, s') = walk_fn pkg s in
    elim e [ some e ↦ (some e, s') | none ↦ walk_loop walk_fn rows s' ]

unfoldable pub walk_packages {ℓ} :
    {S : Type ℓ} → Io → (RepositoryPackage → S → Err × S) → Dict RepositoryPackage → S → Err × S
unfolding walk_loop
walk_packages io walk_fn rows s = elim io.opening [
  | some e ↦ (some e, s)
  | none ↦ elim io.exec [ some e ↦ (some e, s) | none ↦ walk_loop walk_fn rows s ]
]

unfoldable pub has_package_id : Io → String → Dict RepositoryPackage → Result Bool
unfolding count_rows
has_package_id io id rows = elim (count_rows io (count_id id rows)) [
  | err e ↦ err e
  | ok count ↦ ok (ltb 0 count)
]

unfoldable pub count_packages : Io → Dict RepositoryPackage → Result ℕ
unfolding count_rows
count_packages io rows = count_rows io (length rows)
