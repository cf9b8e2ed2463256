-- ===== src/Yum/Packages/Rows.antt =====
-- What the operations of the package database do to its rows.
use beskar.Prelude.{
  ◌<◌, String, ◌≡◌, ◌≢◌, refl, Bool, false, none, [], ◌∷◌, arith, if◌then◌else◌, ◌==◌, eq_iff,
  Bool-cases, inl, inr,
}
use beskar.Prelude.Dict
use beskar.Prelude.Dict.{Dict, lookup-insert}
use beskar.Prelude.Result.{ok, err}
use beskar.Yum.Sql.{Io, exec_one-ok, query_row, exec_delete-ok}
use beskar.Yum.Packages.{
  RepositoryPackage, rpm_name, add_package, without_id, count_id, remove_package, first_of_id,
  get_package, get_package_by_tag, no_entry_found,
}

abbrev pub calm : Io
calm = record { opening = none; exec = none; affected = none }

-- A package that was added without an error is found under the tag of its RPM name, with that tag;
-- what another tag finds is as before.
pub get-add_package :
    (md5_hex : String → String) (io : Io) (pkg : RepositoryPackage)
    (rows t : Dict RepositoryPackage) (tag : String)
    → add_package md5_hex io pkg rows ≡ (none, t)
    → get_package_by_tag calm tag t ≡ (
        if md5_hex (rpm_name pkg) == tag
        then ok (record pkg { tag = md5_hex (rpm_name pkg) })
        else get_package_by_tag calm tag rows)
unfolding add_package get_package_by_tag
get-add_package md5_hex io pkg rows t tag h =
    let row : RepositoryPackage = record pkg { tag = md5_hex (rpm_name pkg) } in
    let e : t ≡ Dict.insert (md5_hex (rpm_name pkg)) row rows =
      (exec_one-ok io 1 "inventory package not inserted into database" rows
        (Dict.insert (md5_hex (rpm_name pkg)) row rows) t h).1 in
    rw e (
      rw (lookup-insert (md5_hex (rpm_name pkg)) tag row rows, query_row)
        (elim (Bool-cases (md5_hex (rpm_name pkg) == tag)) [ inl b ↦ rw b | inr b ↦ rw b ]))

first-without_id :
    (id : String) (rows : Dict RepositoryPackage) → first_of_id id (without_id id rows) ≡ none
unfolding first_of_id without_id
first-without_id id [] = refl
first-without_id id ((tag, pkg) ∷ rows) = ground (arith, first-without_id id rows)

first-without_ne :
    (id other : String) (rows : Dict RepositoryPackage)
    → id ≢ other
    → first_of_id other (without_id id rows) ≡ first_of_id other rows
unfolding first_of_id without_id
first-without_ne id other [] ne = refl
first-without_ne id other ((tag, pkg) ∷ rows) ne =
    ground (arith, first-without_ne id other rows ne, eq_iff pkg.id id, eq_iff pkg.id other)

-- After a removal without an error no package has the id, and the packages of the other ids are
-- found as before.
pub get-remove_package :
    (io : Io) (id other : String) (rows t : Dict RepositoryPackage) (deleted : Bool)
    → remove_package io id rows ≡ (ok deleted, t)
    → (get_package calm id t ≡ err no_entry_found)
      × (id ≢ other → get_package calm other t ≡ get_package calm other rows)
unfolding remove_package get_package
get-remove_package io id other rows t deleted h =
    let e : t ≡ without_id id rows =
      (exec_delete-ok io (count_id id rows) rows (without_id id rows) t deleted h).1 in
    (rw (e, first-without_id), λ ne. rw (e, first-without_ne id other rows ne))

count-without_id :
    (id : String) (rows : Dict RepositoryPackage) → count_id id (without_id id rows) ≡ 0
unfolding count_id without_id
count-without_id id [] = refl
count-without_id id ((tag, pkg) ∷ rows) = ground (arith, count-without_id id rows)

-- When several packages have the id, a removal deletes them all and reports that it deleted none.
pub remove_package_several :
    (io : Io) (id : String) (rows t : Dict RepositoryPackage) (deleted : Bool)
    → 1 < count_id id rows
    → remove_package io id rows ≡ (ok deleted, t)
    → (deleted ≡ false) × (count_id id t ≡ 0)
unfolding remove_package
remove_package_several io id rows t deleted many h =
    let (d, e) = exec_delete-ok io (count_id id rows) rows (without_id id rows) t deleted h in
    (ground (arith, d), rw e (count-without_id id rows))
