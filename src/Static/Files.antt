-- ===== src/Static/Files.antt =====
-- internal/plugins/static/pkg/staticdb/repository.go: the database of static files. The rows are
-- keyed by the tag, the table's primary key. The history that triggers keep is never read, and left
-- out.
use beskar.Prelude.{ℕ, String, Bool, Option, none, some, [], ◌∷◌, if◌then◌else◌, length, ◌==◌, has}
use beskar.Prelude.Dict
use beskar.Prelude.Dict.{Dict}
use beskar.Prelude.Outcome.{Err}
use beskar.Prelude.Result.{Result}
use beskar.Yum.Sql.{Io, exec_one, exec_delete, query_row, count_rows}

pub record StaticFile : Type 0 where
  pub tag : String
  pub id : String
  pub name : String
  pub upload_time : ℕ
  pub size : ℕ

-- INSERT INTO files ... ON CONFLICT (tag) DO UPDATE SET ...
unfoldable pub add_file :
    (String → String) → Io → StaticFile → Dict StaticFile → Err × Dict StaticFile
unfolding exec_one
add_file md5_hex io file rows =
    let tag = md5_hex file.name in
    exec_one io 1 "file information not inserted into database" rows
      (Dict.insert tag (record file { tag = tag }) rows)

-- DELETE FROM files WHERE tag = ?
unfoldable pub remove_file : Io → String → Dict StaticFile → Result Bool × Dict StaticFile
unfolding exec_delete
remove_file io tag rows =
    exec_delete io (if has (Dict.lookup tag rows) then 1 else 0) rows (Dict.remove tag rows)

abbrev pub no_entry_found : String
no_entry_found = "no entry found"

unfoldable pub get_file_by_tag : Io → String → Dict StaticFile → Result StaticFile
unfolding query_row
get_file_by_tag io tag rows = query_row io no_entry_found (Dict.lookup tag rows)

unfoldable pub first_of_name : String → Dict StaticFile → Option StaticFile
first_of_name name [] = none
first_of_name name ((tag, file) ∷ rows) =
    let rest = first_of_name name rows in if file.name == name then some file else rest

unfoldable pub get_file_by_name : Io → String → Dict StaticFile → Result StaticFile
unfolding query_row
get_file_by_name io name rows = query_row io no_entry_found (first_of_name name rows)

-- The loop of `WalkFiles`, with the state that the walk function changes.
unfoldable pub walk_loop {ℓ} :
    {S : Type ℓ} → (StaticFile → S → Err × S) → Dict StaticFile → S → Err × S
walk_loop walk_fn [] s = (none, s)
walk_loop walk_fn ((tag, file) ∷ rows) s =
    let (e, s1) = walk_fn file s in
    elim e [ some e ↦ (some e, s1) | none ↦ walk_loop walk_fn rows s1 ]

unfoldable pub walk_files {ℓ} :
    {S : Type ℓ} → Io → (StaticFile → S → Err × S) → Dict StaticFile → S → Err × S
unfolding walk_loop
walk_files io walk_fn rows s = elim io.opening [
  | some e ↦ (some e, s)
  | none ↦ elim io.exec [ some e ↦ (some e, s) | none ↦ walk_loop walk_fn rows s ]
]

unfoldable pub count_files : Io → Dict StaticFile → Result ℕ
unfolding count_rows
count_files io rows = count_rows io (length rows)
