-- ===== src/Yum/Sql.antt =====
-- The course that the methods of package yumdb share: open the database, run one statement, read
-- its result. SQLite and its driver are outside the repository: whether the database opens and
-- whether a statement fails are arguments, and a statement that runs does what its SQL says. The
-- reference counter and the locks of sqlite.DB are not modelled: a call is one step.
use beskar.Prelude.{ℕ, ◌≡◌, String, Bool, Option, none, some, arith, if◌then◌else◌, nat_eq}
use beskar.Prelude.Outcome.{Err}
use beskar.Prelude.Result.{Result, ok, err}

-- What one call meets: the errors of `Open`, of the statement, and of reading its result.
pub record Io : Type 0 where
  pub opening : Err
  pub exec : Err
  pub affected : Err

-- The common course of a statement that writes: the error checks and the count of rows.
unfoldable pub exec_one : {S : Type 0} → Io → ℕ → String → S → S → Err × S
exec_one io rows message before after = elim io.opening [
  | some e ↦ (some e, before)
  | none ↦ elim io.exec [
    | some e ↦ (some e, before)
    | none ↦ elim io.affected [
      | some e ↦ (some e, after)
      | none ↦ if nat_eq rows 1 then (none, after) else (some message, after)
    ]
  ]
]

-- A statement that deletes; whether it deleted one row.
unfoldable pub exec_delete : {S : Type 0} → Io → ℕ → S → S → Result Bool × S
exec_delete io rows before after = elim io.opening [
  | some e ↦ (err e, before)
  | none ↦ elim io.exec [
    | some e ↦ (err e, before)
    | none ↦ elim io.affected [ some e ↦ (err e, after) | none ↦ (ok (nat_eq rows 1), after) ]
  ]
]

-- A query for one row, with its message when there is no row.
unfoldable pub query_row : {A : Type 0} → Io → String → Option A → Result A
query_row io message row = elim io.opening [
  | some e ↦ err e
  | none ↦ elim io.exec [
    | some e ↦ err e
    | none ↦ elim row [
      | none ↦ err message
      | some r ↦ elim io.affected [ some e ↦ err e | none ↦ ok r ]
    ]
  ]
]

-- A query for a number of rows.
unfoldable pub count_rows : Io → ℕ → Result ℕ
count_rows io n = elim io.opening [
  | some e ↦ err e
  | none ↦ elim io.exec [
    | some e ↦ err e
    | none ↦ elim io.affected [ some e ↦ err e | none ↦ ok n ]
  ]
]

-- A write that reports no error changed one row.
pub exec_one-ok :
    {S : Type 0} (io : Io) (rows : ℕ) (message : String) (before after t : S)
    → exec_one io rows message before after ≡ (none, t)
    → (rows ≡ 1) × (t ≡ after)
unfolding exec_one
exec_one-ok io rows message before after t h = ground arith

-- A deletion that reports no error was made.
pub exec_delete-ok :
    {S : Type 0} (io : Io) (rows : ℕ) (before after t : S) (deleted : Bool)
    → exec_delete io rows before after ≡ (ok deleted, t)
    → (deleted ≡ nat_eq rows 1) × (t ≡ after)
unfolding exec_delete
exec_delete-ok io rows before after t deleted h = ground arith
