-- ===== src/Yum/Reposync/Examples.antt =====
-- The theorems on a sync at a mirror with one package: of the two stored ones, one has its tag, and
-- the other is not on the mirror.
use mathlib.Core.Path.{subst}
use beskar.Prelude.{
  ◌⊎◌, inl, inr, ◌≤◌, String, true, false, ◌≡◌, refl, sym, ◌∙◌, none, some, List, [], ◌∷◌, arith,
  if◌then◌else◌, ◌==◌, eq_iff, length,
}
use beskar.Prelude.Dict
use beskar.Prelude.Dict.{Dict}
use beskar.Yum.Sql.{exec_one, exec_delete, query_row}
use beskar.Yum.Packages.{
  RepositoryPackage, rpm_name, add_package, remove_package, without_id, count_id, first_of_id,
  get_package_by_tag, walk_packages, walk_loop,
}
use beskar.Yum.Packages.Rows.{calm}
use beskar.Yum.Reposync.{
  Sync, Ids, here, collect_ids, keep_overridden, visit, drop_found, Shown, found, dropped, counting,
  counted, unlocked, add_synced_package, lock, count, report, drop, tag_of, Step, walk, spawn, look,
  push, turn, remove, Steps, start, step, begin,
}
use beskar.Yum.Status.{update_reposync}
use beskar.Yum.Reposync.Sets.{has_id}
use beskar.Yum.Reposync.Stored.{settled}
use beskar.Yum.Reposync.Collected.{IsTagged}
use beskar.Yum.Reposync.Mirrors.{sync_mirrors, sync_keeps}
use beskar.Yum.Reposync.Ends.{sync_completes}
use beskar.Yum.Reposync.Bounds.{sync_bounded}

abbrev package_name : String → String
package_name id = if id == "gone" then "other" else "bash"

abbrev pkg_of : String → RepositoryPackage
pkg_of id = record {
  tag = "";
  id = id;
  name = package_name id;
  upload_time = 0;
  build_time = 0;
  size = 1;
  architecture = "x86_64";
  source_rpm = "";
  version = "5";
  release = "1";
  groups = "";
  license = "";
  vendor = "";
  summary = "";
  description = "";
  verified = true;
  gpg_signature = "";
}

-- In place of the hash, the text itself.
abbrev plain : String → String
plain text = text

abbrev bash_tag : String
bash_tag = "bash-5-1.src.rpm"

abbrev other_tag : String
other_tag = "other-5-1.src.rpm"

abbrev old : RepositoryPackage
old = record (pkg_of "old") { tag = bash_tag }

abbrev new : RepositoryPackage
new = record (pkg_of "new") { tag = bash_tag }

abbrev gone : RepositoryPackage
gone = record (pkg_of "gone") { tag = other_tag }

abbrev rows : Dict RepositoryPackage
rows = (bash_tag, old) ∷ (other_tag, gone) ∷ []

abbrev ids : Ids
ids = ("old", tt) ∷ ("gone", tt) ∷ []

abbrev upstream : List String
upstream = "new" ∷ []

rows_collected : collect_ids calm rows ≡ (none, ids)
unfolding collect_ids walk_packages walk_loop Dict.insert
rows_collected = refl

row_cases :
    (tag : String) (pkg : RepositoryPackage)
    → Dict.lookup tag rows ≡ some pkg
    → ((bash_tag ≡ tag) × (pkg ≡ old)) ⊎ ((other_tag ≡ tag) × (pkg ≡ gone))
unfolding Dict.lookup
row_cases tag pkg l = ground (arith, l, eq_iff bash_tag tag, eq_iff other_tag tag)

abbrev Tagged : String → RepositoryPackage → Type 0
Tagged tag pkg = (tag ≡ tag_of plain pkg_of pkg.id) × ((pkg.id == "") ≡ false)

rows-IsTagged : IsTagged (tag_of plain pkg_of) rows
unfolding Dict.lookup rpm_name
rows-IsTagged = record {
  unique = (refl, (refl, tt));
  keyed = λ tag pkg l. elim (row_cases tag pkg l) [
    | inl (e, p) ↦ subst (Tagged tag) (sym p) (sym e, refl)
    | inr (e, p) ↦ subst (Tagged tag) (sym p) (sym e, refl)
  ];
}

one_id : (id : String) → has_id id upstream ≡ true → id ≡ "new"
one_id id h = ground (arith, h, eq_iff "new" id)

upstream_distinct :
    (id other : String)
    → has_id id upstream ≡ true
    → has_id other upstream ≡ true
    → tag_of plain pkg_of id ≡ tag_of plain pkg_of other
    → id ≡ other
upstream_distinct id other h k e = one_id id h ∙ sym (one_id other k)

abbrev shown : Shown
shown = record {
  reposync = record {
    syncing = true;
    start_time = 5;
    end_time = 0;
    total_packages = 0;
    synced_packages = 0;
    sync_error = "";
  };
  status_db = record { events = []; properties = none; reposync = none };
}

abbrev walked : Sync
walked = record (begin upstream ids rows shown) { todo = []; waiting = upstream }

abbrev spawned : Sync
spawned = record walked { waiting = []; fetching = upstream }

abbrev looked_up : Sync
looked_up = record spawned { fetching = []; looked = upstream; db_packages = ("gone", tt) ∷ [] }

abbrev pushed : Sync
pushed = record looked_up {
  looked = [];
  rows = (bash_tag, new) ∷ (other_tag, gone) ∷ [];
  pushed = upstream;
}

abbrev locked : Sync
locked = record pushed { pushed = []; mutex = counting 0 }

abbrev stored : Sync
stored = record locked { mutex = counted; synced_packages = 1 }

abbrev reported : Sync
reported = record stored {
  mutex = unlocked;
  shown = record {
    reposync = record shown.reposync { total_packages = 1; synced_packages = 1 };
    status_db = record shown.status_db { reposync = none };
  };
}

abbrev turned : Sync
turned = record reported { removing = true }

abbrev removed : Sync
removed = record turned { db_packages = []; rows = (bash_tag, new) ∷ [] }

walk_new : Step plain pkg_of (begin upstream ids rows shown) walked
unfolding visit Dict.lookup
walk_new = walk "new" [] refl refl (ground arith) refl

spawn_new : Step plain pkg_of walked spawned
spawn_new = spawn "new" [] refl refl (ground arith) refl

look_new : Step plain pkg_of spawned looked_up
unfolding keep_overridden get_package_by_tag query_row Dict.lookup Dict.remove rpm_name
look_new = look "new" [] (("gone", tt) ∷ []) here refl refl

push_new : Step plain pkg_of looked_up pushed
unfolding add_package exec_one Dict.insert rpm_name
push_new = push calm "new" [] pushed.rows here refl refl

lock_new : Step plain pkg_of pushed locked
lock_new = lock "new" [] refl here refl

count_new : Step plain pkg_of locked stored
count_new = count 0 refl refl

report_new : Step plain pkg_of stored reported
unfolding add_synced_package update_reposync exec_one
report_new = report none calm 1 refl refl

turn_all : Step plain pkg_of reported turned
turn_all = turn refl refl refl refl refl refl refl refl refl refl

remove_gone : Step plain pkg_of turned removed
unfolding remove_package exec_delete without_id count_id first_of_id Dict.lookup Dict.remove
remove_gone = remove calm "gone" gone true removed.rows refl refl refl refl refl refl

run_pushed : Steps plain pkg_of (begin upstream ids rows shown) pushed
run_pushed = step (step (step (step start walk_new) spawn_new) look_new) push_new

run_reported : Steps plain pkg_of (begin upstream ids rows shown) reported
run_reported = step (step (step run_pushed lock_new) count_new) report_new

run_removed : Steps plain pkg_of (begin upstream ids rows shown) removed
run_removed = step (step run_reported turn_all) remove_gone

sync_mirrors_example :
    ((id : String)
      → has_id id upstream ≡ true
      → (pkg : RepositoryPackage) × (Dict.lookup (tag_of plain pkg_of id) removed.rows ≡ some pkg)
        × (pkg.id ≡ id))
    × ((tag : String) (pkg : RepositoryPackage)
        → Dict.lookup tag removed.rows ≡ some pkg
        → (has_id pkg.id upstream ≡ true) × (tag ≡ tag_of plain pkg_of pkg.id))
sync_mirrors_example =
    sync_mirrors plain pkg_of upstream calm rows ids shown (λ id. refl) upstream_distinct
      rows-IsTagged rows_collected removed run_removed refl refl refl

sync_completes_example :
    (t : Sync) × Steps plain pkg_of pushed t
    × (t.removing ≡ true)
    × (t.db_packages ≡ [])
    × (t.failed ≡ false)
sync_completes_example =
    sync_completes plain pkg_of upstream calm rows ids shown (λ id. refl) upstream_distinct
      rows-IsTagged rows_collected pushed run_pushed refl

sync_bounded_example :
    (reported.synced_packages ≤ length upstream)
    × (reported.shown.reposync.synced_packages ≤ length upstream)
sync_bounded_example =
    sync_bounded plain pkg_of upstream ids rows shown reported (ground arith) run_reported

-- A second sync, which finds the package stored.
abbrev synced_rows : Dict RepositoryPackage
synced_rows = (bash_tag, new) ∷ []

synced_row :
    (tag : String) (pkg : RepositoryPackage)
    → Dict.lookup tag synced_rows ≡ some pkg
    → (bash_tag ≡ tag) × (pkg ≡ new)
unfolding Dict.lookup
synced_row tag pkg l = ground (arith, l, eq_iff bash_tag tag)

synced_rows-IsTagged : IsTagged (tag_of plain pkg_of) synced_rows
unfolding Dict.lookup rpm_name
synced_rows-IsTagged = record {
  unique = (refl, tt);
  keyed =
      λ tag pkg l. let (e, p) = synced_row tag pkg l in subst (Tagged tag) (sym p) (sym e, refl);
}

synced_rows_collected : collect_ids calm synced_rows ≡ (none, ("new", tt) ∷ [])
unfolding collect_ids walk_packages walk_loop Dict.insert
synced_rows_collected = refl

abbrev asked_again : Sync
asked_again = record (begin upstream (("new", tt) ∷ []) synced_rows shown) { filter = found }

abbrev found_again : Sync
found_again = record asked_again { todo = []; filter = dropped; db_packages = [] }

walk_again : Step plain pkg_of (begin upstream (("new", tt) ∷ []) synced_rows shown) asked_again
unfolding visit Dict.lookup
walk_again = walk "new" [] refl refl (ground arith) refl

drop_again : Step plain pkg_of asked_again found_again
unfolding drop_found Dict.remove
drop_again = drop "new" [] refl refl refl

new_stored : settled plain pkg_of "new" synced_rows ≡ true
unfolding Dict.lookup rpm_name
new_stored = refl

sync_keeps_example : settled plain pkg_of "new" found_again.rows ≡ true
sync_keeps_example =
    sync_keeps plain pkg_of upstream calm synced_rows (("new", tt) ∷ []) shown (λ id. refl)
      upstream_distinct synced_rows-IsTagged synced_rows_collected found_again "new"
      (step (step start walk_again) drop_again) refl new_stored
