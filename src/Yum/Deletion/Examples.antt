-- ===== src/Yum/Deletion/Examples.antt =====
-- The theorems on the deletion of a repository, with one package and with 101.
use beskar.Prelude.{ℕ, zero, suc, true, false, ◌≡◌, refl, [], ◌∷◌, arith}
use beskar.Prelude.Dict.{Dict}
use beskar.Yum.Sql.{exec_delete}
use beskar.Yum.Packages.{RepositoryPackage, remove_package, without_id, count_id}
use beskar.Yum.Packages.Rows.{calm}
use beskar.Yum.Reposync.{here}
use beskar.Yum.Deletion.{
  Deletion, read, read_end, removed, cut_off, Steps, start, step, fault, begin,
}
use beskar.Yum.Deletion.Many.{delete_many_fails}
use beskar.Yum.Deletion.Complete.{delete_completes}

abbrev bash : RepositoryPackage
bash = record {
  tag = "t";
  id = "b";
  name = "bash";
  upload_time = 0;
  build_time = 0;
  size = 1;
  architecture = "x86_64";
  source_rpm = "bash.src.rpm";
  version = "5";
  release = "1";
  groups = "";
  license = "";
  vendor = "";
  summary = "";
  description = "";
  verified = true;
  gpg_signature = "";
}

abbrev rows : Dict RepositoryPackage
rows = ("t", bash) ∷ []

abbrev asked : Deletion
asked = record (begin rows) { todo = []; asked = "b" ∷ [] }

abbrev walked : Deletion
walked = record asked { walking = false }

abbrev deleted : Deletion
deleted = record walked { asked = []; rows = [] }

run_asked : Steps (begin rows) asked
run_asked = step start (read "b" [] refl refl (ground arith) refl)

run_deleted : Steps (begin rows) deleted
unfolding remove_package exec_delete without_id count_id
run_deleted =
    step (step run_asked (read_end refl refl refl))
      (removed calm "b" [] true [] refl here refl refl)

delete_completes_example :
    (t : Deletion) × Steps asked t
    × (t.walking ≡ false)
    × (t.asked ≡ [])
    × (t.failed ≡ false)
    × (t.rows ≡ [])
delete_completes_example = delete_completes rows asked (ground arith) run_asked refl

-- 101 rows, of which the walk reads one before it is cut off.
abbrev copies : ℕ → Dict RepositoryPackage
copies zero = []
copies (suc n) = ("t", bash) ∷ copies n

abbrev cut : Deletion
cut = record (begin (copies 101)) { walking = false; todo = []; failed = true }

run_cut : Steps (begin (copies 101)) cut
run_cut = fault start (cut_off refl refl)

delete_many_fails_example : cut.failed ≡ true
delete_many_fails_example = delete_many_fails (copies 101) cut (ground arith) run_cut refl
