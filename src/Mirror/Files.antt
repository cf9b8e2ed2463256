-- ===== src/Mirror/Files.antt =====
-- internal/plugins/mirror/pkg/mirrordb/repository.go: the database of a mirror's files. The rows are
-- keyed by the tag, the table's primary key.
use beskar.Prelude.{
  ℕ, String, Bool, true, not, Option, none, some, [], ◌∷◌, if◌then◌else◌, length, ◌==◌, nat_eq, has,
}
use beskar.Prelude.Dict
use beskar.Prelude.Dict.{Dict}
use beskar.Prelude.Outcome.{Err}
use beskar.Prelude.Result.{Result}
use beskar.Yum.Sql.{Io, exec_one, exec_delete, query_row, count_rows}

pub record RepositoryFile : Type 0 where
  pub tag : String
  pub name : String
  pub reference : String
  pub parent : String
  pub link : String
  pub modified_time : ℕ
  pub mode : ℕ
  pub size : ℕ
  pub config_id : ℕ
  pub link_reference : String

-- INSERT INTO files ... ON CONFLICT (tag) DO UPDATE SET ...; the tag is that of the reference,
-- whatever the caller has set.
unfoldable pub add_file :
    (String → String) → Io → RepositoryFile → Dict RepositoryFile → Err × Dict RepositoryFile
unfolding exec_one
add_file md5_hex io file rows =
    let tag = md5_hex file.reference in
    exec_one io 1 "file information not inserted into database" rows
      (Dict.insert tag (record file { tag = tag }) rows)

-- DELETE FROM files WHERE tag = ?
unfoldable pub remove_file : Io → String → Dict RepositoryFile → Result Bool × Dict RepositoryFile
unfolding exec_delete
remove_file io tag rows =
    exec_delete io (if has (Dict.lookup tag rows) then 1 else 0) rows (Dict.remove tag rows)

-- The rows that satisfy a condition, and the first of them.
unfoldable pub select : (RepositoryFile → Bool) → Dict RepositoryFile → Dict RepositoryFile
select holds [] = []
select holds ((tag, file) ∷ rows) =
    let rest = select holds rows in if holds file then (tag, file) ∷ rest else rest

abbrev pub first : Dict RepositoryFile → Option RepositoryFile
first [] = none
first ((tag, file) ∷ rows) = some file

abbrev pub no_entry_found : String
no_entry_found = "no entry found"

unfoldable pub get_file_by_tag : Io → String → Dict RepositoryFile → Result RepositoryFile
unfolding query_row
get_file_by_tag io tag rows = query_row io no_entry_found (Dict.lookup tag rows)

unfoldable pub get_file_by_name : Io → String → Dict RepositoryFile → Result RepositoryFile
unfolding query_row select
get_file_by_name io name rows =
    query_row io no_entry_found (first (select (λ file. file.name == name) rows))

unfoldable pub get_file_by_reference : Io → String → Dict RepositoryFile → Result RepositoryFile
unfolding query_row select
get_file_by_reference io reference rows =
    query_row io no_entry_found (first (select (λ file. file.reference == reference) rows))

-- `DeleteFileByName` and `DeleteFilesByMode` do not ask how many rows were deleted.
unfoldable pub delete_where :
    Io → (RepositoryFile → Bool) → Dict RepositoryFile → Err × Dict RepositoryFile
unfolding select
delete_where io holds rows = elim io.opening [
  | some e ↦ (some e, rows)
  | none ↦ elim io.exec [
    | some e ↦ (some e, rows)
    | none ↦ (io.affected, select (λ file. not (holds file)) rows)
  ]
]

unfoldable pub delete_file_by_name : Io → String → Dict RepositoryFile → Err × Dict RepositoryFile
unfolding delete_where
delete_file_by_name io name = delete_where io (λ file. file.name == name)

unfoldable pub delete_files_by_mode : Io → ℕ → Dict RepositoryFile → Err × Dict RepositoryFile
unfolding delete_where
delete_files_by_mode io mode = delete_where io (λ file. nat_eq file.mode mode)

-- The loop of the walks, with the state that the walk function changes.
unfoldable pub walk_loop {ℓ} :
    {S : Type ℓ} → (RepositoryFile → S → Err × S) → Dict RepositoryFile → S → Err × S
walk_loop walk_fn [] s = (none, s)
walk_loop walk_fn ((tag, file) ∷ rows) s =
    let (e, s1) = walk_fn file s in
    elim e [ some e ↦ (some e, s1) | none ↦ walk_loop walk_fn rows s1 ]

unfoldable pub walk_where {ℓ} :
    {S : Type ℓ}
    → Io
    → (RepositoryFile → Bool)
    → (RepositoryFile → S → Err × S)
    → Dict RepositoryFile
    → S
    → Err × S
unfolding walk_loop select
walk_where io holds walk_fn rows s = elim io.opening [
  | some e ↦ (some e, s)
  | none ↦ elim io.exec [ some e ↦ (some e, s) | none ↦ walk_loop walk_fn (select holds rows) s ]
]

unfoldable pub walk_files {ℓ} :
    {S : Type ℓ} → Io → (RepositoryFile → S → Err × S) → Dict RepositoryFile → S → Err × S
unfolding walk_where
walk_files io = walk_where io (λ file. true)

unfoldable pub walk_files_by_parent {ℓ} :
    {S : Type ℓ} → Io → String → (RepositoryFile → S → Err × S) → Dict RepositoryFile → S → Err × S
unfolding walk_where
walk_files_by_parent io parent = walk_where io (λ file. file.parent == parent)

unfoldable pub walk_files_by_config_id {ℓ} :
    {S : Type ℓ} → Io → ℕ → (RepositoryFile → S → Err × S) → Dict RepositoryFile → S → Err × S
unfolding walk_where
walk_files_by_config_id io config_id = walk_where io (λ file. nat_eq file.config_id config_id)

unfoldable pub count_files : Io → Dict RepositoryFile → Result ℕ
unfolding count_rows
count_files io rows = count_rows io (length rows)
