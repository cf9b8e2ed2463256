-- ===== src/Mirror/Plan/Rows.antt =====
-- The rows of a sync by a plan: what a call writes, and the invariant of the steps.
use beskar.Prelude.{
  String, ◌≡◌, ◌≢◌, ◌⊎◌, refl, sym, ◌∙◌, ap, Bool, true, false, ◌||◌, Option, none, some, List, [],
  ◌∷◌, arith, ◌==◌, eq_iff, eq_refl, inl, inr, Option-cases,
}
use beskar.Prelude.Dict
use beskar.Prelude.Dict.{Dict, lookup-insert, lookup-remove}
use beskar.Prelude.Outcome.{Err}
use beskar.Yum.Sql.{exec_one, exec_delete}
use beskar.Mirror.Files.{RepositoryFile, add_file, remove_file}
use beskar.Mirror.Plan.{
  Mode, regular, directory, symlink, other, FileInfo, PlanSyncer, Call,
  add_file_to_repository_database, remove_file_from_repository_database, file_reference,
  plain_entry, link_entry, file_push, add_remote_file,
}
use beskar.Mirror.Plan.Steps.{TakeFile, here, there}

abbrev pub Among : FileInfo → List FileInfo → Type 0
Among x [] = false ≡ true
Among x (y ∷ ys) = (x ≡ y) ⊎ Among x ys

pub Take-Among : {x : FileInfo} {xs ys : List FileInfo} → TakeFile x xs ys → Among x xs
Take-Among here = inl refl
Take-Among (there k) = inr (Take-Among k)

pub Take-rest :
    {x : FileInfo} {xs ys : List FileInfo} (y : FileInfo)
    → TakeFile x xs ys
    → Among y ys
    → Among y xs
Take-rest y here m = inr m
Take-rest y (there k) (inl e) = inl e
Take-rest y (there k) (inr m) = inr (Take-rest y k m)

-- The row that stands for a file; a file of another kind has none.
abbrev pub row_of : PlanSyncer → Dict String → FileInfo → Option RepositoryFile
row_of s symlinks file = elim file.kind [
  | regular ↦ some (plain_entry s file)
  | directory ↦ some (plain_entry s file)
  | symlink ↦ elim (Dict.lookup file.path symlinks) [
    | none ↦ none
    | some content ↦ some (link_entry s file content)
  ]
  | other ↦ none
]

abbrev pub deletes : PlanSyncer → String → List String → Bool
deletes s tag [] = false
deletes s tag (path ∷ paths) = (s.md5_hex (file_reference s path) == tag) || deletes s tag paths

pub insert-cases :
    (row : RepositoryFile) (tag : String) (rows : Dict RepositoryFile)
    → ((row.tag ≡ tag) × (Dict.lookup tag (Dict.insert row.tag row rows) ≡ some row))
      ⊎ (Dict.lookup tag (Dict.insert row.tag row rows) ≡ Dict.lookup tag rows)
insert-cases row tag rows = ground (arith, lookup-insert row.tag tag row rows, eq_iff row.tag tag)

pub lookup-insert_self :
    (row : RepositoryFile) (rows : Dict RepositoryFile)
    → Dict.lookup row.tag (Dict.insert row.tag row rows) ≡ some row
lookup-insert_self row rows =
    ground (arith, lookup-insert row.tag row.tag row rows, eq_refl row.tag)

pub remove-cases :
    (key tag : String) (rows : Dict RepositoryFile)
    → ((key ≡ tag) × (Dict.lookup tag (Dict.remove key rows) ≡ none))
      ⊎ (((key == tag) ≡ false) × (Dict.lookup tag (Dict.remove key rows) ≡ Dict.lookup tag rows))
remove-cases key tag rows = ground (arith, lookup-remove key tag rows, eq_iff key tag)

add_entry-cases :
    (s : PlanSyncer) (c : Call) (row : RepositoryFile) (rows : Dict RepositoryFile)
    → row.tag ≡ s.md5_hex row.reference
    → let a : Err × Dict RepositoryFile = add_file_to_repository_database s c row rows in
      (a.1 ≡ Dict.insert row.tag row rows) ⊎ ((a.1 ≡ rows) × (a.0 ≢ none))
unfolding add_file_to_repository_database add_file exec_one
add_entry-cases s c row rows e =
    let same : Dict.insert (s.md5_hex row.reference) (record row { tag = s.md5_hex row.reference })
          rows
        ≡ Dict.insert row.tag row rows =
      ap (λ x. Dict.insert x (record row { tag = x }) rows) (sym e) in
    elim (Option-cases c.opening) [
      | inr (x, o) ↦ inr (ground (arith, o), λ n. ground (arith, o, n))
      | inl o ↦ elim (Option-cases c.io.opening) [
        | inr (x, p) ↦ inr (ground (arith, o, p), λ n. ground (arith, o, p, n))
        | inl p ↦ elim (Option-cases c.io.exec) [
          | inr (x, q) ↦ inr (ground (arith, o, p, q), λ n. ground (arith, o, p, q, n))
          | inl q ↦ elim (Option-cases c.io.affected) [
            | inr (x, f) ↦ inl (ground (arith, o, p, q, f) ∙ same)
            | inl f ↦ inl (ground (arith, o, p, q, f) ∙ same)
          ]
        ]
      ]
    ]

pub remove_entry-cases :
    (s : PlanSyncer) (c : Call) (name : String) (rows : Dict RepositoryFile)
    → let a : Err × Dict RepositoryFile = remove_file_from_repository_database s c name rows in
      (a.1 ≡ Dict.remove (s.md5_hex name) rows) ⊎ ((a.1 ≡ rows) × (a.0 ≢ none))
unfolding remove_file_from_repository_database remove_file exec_delete
remove_entry-cases s c name rows = elim (Option-cases c.opening) [
  | inr (x, o) ↦ inr (ground (arith, o), λ n. ground (arith, o, n))
  | inl o ↦ elim (Option-cases c.io.opening) [
    | inr (x, p) ↦ inr (ground (arith, o, p), λ n. ground (arith, o, p, n))
    | inl p ↦ elim (Option-cases c.io.exec) [
      | inr (x, q) ↦ inr (ground (arith, o, p, q), λ n. ground (arith, o, p, q, n))
      | inl q ↦ elim (Option-cases c.io.affected) [
        | inr (x, f) ↦ inl (ground (arith, o, p, q, f))
        | inl f ↦ inl (ground (arith, o, p, q, f))
      ]
    ]
  ]
]

-- The row of a file was written, or nothing was; without an error it was, if the file has a row.
abbrev pub Wrote :
    PlanSyncer → Dict String → FileInfo → Err → Dict RepositoryFile → Dict RepositoryFile → Type 0
Wrote s symlinks file e rows t =
    ((row : RepositoryFile) × (row_of s symlinks file ≡ some row)
      × (t ≡ Dict.insert row.tag row rows))
    ⊎ ((t ≡ rows) × ((e ≢ none) ⊎ (row_of s symlinks file ≡ none)))

pub file_push-Wrote :
    (s : PlanSyncer) (symlinks : Dict String) (fetch : Err) (c : Call) (file : FileInfo)
    (rows : Dict RepositoryFile)
    → file.kind ≡ regular
    → let a : Err × Dict RepositoryFile = file_push s fetch c file rows in
      Wrote s symlinks file a.0 rows a.1
unfolding file_push plain_entry
file_push-Wrote s symlinks (some e) c file rows k = inr (refl, inl (λ n. ground (arith, n)))
file_push-Wrote s symlinks none c file rows k =
    elim (add_entry-cases s c (plain_entry s file) rows refl) [
      | inl e ↦ inl (plain_entry s file, ground (arith, k), e)
      | inr (e, n) ↦ inr (e, inl n)
    ]

pub add_remote_file-Wrote :
    (s : PlanSyncer) (symlinks : Dict String) (c : Call) (file : FileInfo) (kind : Mode)
    (rows : Dict RepositoryFile)
    → file.kind ≡ kind
    → kind ≢ regular
    → let a : Err × Dict RepositoryFile = add_remote_file s c symlinks file rows in
      Wrote s symlinks file a.0 rows a.1
unfolding add_remote_file plain_entry link_entry
add_remote_file-Wrote s symlinks c file regular rows k r = absurd (r refl)
add_remote_file-Wrote s symlinks c file directory rows k r =
    elim (add_entry-cases s c (plain_entry s file) rows refl) [
      | inl e ↦ inl (plain_entry s file, ground (arith, k), ground (arith, k, e))
      | inr (e, n) ↦ inr (ground (arith, k, e), inl (λ x. n (ground (arith, k, x))))
    ]
add_remote_file-Wrote s symlinks c file symlink rows k r =
    elim (Option-cases (Dict.lookup file.path symlinks)) [
      | inl l ↦ inr (ground (arith, k, l), inr (ground (arith, k, l)))
      | inr (content, l) ↦ elim (add_entry-cases s c (link_entry s file content) rows refl) [
        | inl e ↦ inl (link_entry s file content, ground (arith, k, l), ground (arith, k, l, e))
        | inr (e, n) ↦ inr (ground (arith, k, l, e), inl (λ x. n (ground (arith, k, l, x))))
      ]
    ]
add_remote_file-Wrote s symlinks c file other rows k r =
    inr (ground (arith, k), inr (ground (arith, k)))
