-- ===== src/Yum/Deletion/Many.antt =====
-- The deletion of a repository with more packages than workers.
use mathlib.Core.Path.{subst}
use beskar.Prelude.{
  ℕ, suc, ◌+◌, ◌≤◌, ◌<◌, true, false, ◌≡◌, refl, sym, ◌∙◌, ap, [], ◌∷◌, map, arith, length,
  Bool-cases, inl, inr,
}
use beskar.Prelude.Dict.{Dict}
use beskar.Yum.Packages.{RepositoryPackage}
use beskar.Yum.Reposync.Sets.{Take-length}
use beskar.Yum.Deletion.{
  Deletion, max_parallel, Step, read, read_end, removed, Fault, refused, timeout, not_removed,
  cut_off, removed_late, Steps, start, step, fault, begin,
}

-- Without an error no worker of a walk in progress is done, so that the walk ends only when all the
-- packages have their workers at one time.
pub record Inv (n : ℕ) (s : Deletion) : Type 0 where
  pub bounded : length s.asked ≤ max_parallel
  pub all_asked : s.walking ≡ true → length s.asked + length s.todo ≡ n
  pub few : s.walking ≡ false → n ≤ max_parallel

pub Step-failed : {s t : Deletion} → Step s t → t.failed ≡ s.failed
Step-failed (read id ids w q b e) = ap (λ x. x.failed) e
Step-failed (read_end w q e) = ap (λ x. x.failed) e
Step-failed (removed io id ids deleted rows w k r e) = ap (λ x. x.failed) e

pub Fault-failed : {s t : Deletion} → Fault s t → t.failed ≡ true
Fault-failed (refused id ids k e) = ap (λ x. x.failed) e
Fault-failed (timeout id ids k e) = ap (λ x. x.failed) e
Fault-failed (not_removed io id ids w k e) = ap (λ x. x.failed) e
Fault-failed (cut_off w e) = ap (λ x. x.failed) e
Fault-failed (removed_late io id ids w f k e) = ap (λ x. x.failed) e ∙ f

Step-Inv : (n : ℕ) {s t : Deletion} → Inv n s → Step s t → Inv n t
Step-Inv n i (read id ids w q b e) = subst (Inv n) (sym e) (record {
  bounded = ground (arith, b);
  all_asked = λ _. ground (arith, i.all_asked w, ap length q);
  few = λ f. absurd (ground (arith, w, f));
})
Step-Inv n i (read_end w q e) = subst (Inv n) (sym e) (record {
  bounded = i.bounded;
  all_asked = λ f. absurd (ground (arith, f));
  few = λ _. ground (arith, i.all_asked w, ap length q, i.bounded);
})
Step-Inv n i (removed io id ids deleted rows w k r e) = subst (Inv n) (sym e) (record {
  bounded = ground (arith, i.bounded, Take-length k);
  all_asked = λ f. absurd (ground (arith, w, f));
  few = i.few;
})

length-map : (rows : Dict RepositoryPackage) → length (map (λ e. e.1.id) rows) ≡ length rows
length-map [] = refl
length-map (e ∷ rows) = ap suc (length-map rows)

pub Steps-Inv :
    (rows : Dict RepositoryPackage) {t : Deletion}
    → Steps (begin rows) t
    → t.failed ≡ false
    → Inv (length rows) t
Steps-Inv rows start f = record {
  bounded = ground arith;
  all_asked = λ _. ground (arith, length-map rows);
  few = λ w. absurd (ground (arith, w));
}
Steps-Inv rows (step p q) f = Step-Inv (length rows) (Steps-Inv rows p (sym (Step-failed q) ∙ f)) q
Steps-Inv rows (fault p q) f = absurd (ground (arith, Fault-failed q, f))

-- A repository with more than a hundred packages is not deleted with its packages without an error:
-- whenever the walk over them has ended, a call or a worker has failed.
pub delete_many_fails :
    (rows : Dict RepositoryPackage) (t : Deletion)
    → max_parallel < length rows
    → Steps (begin rows) t
    → t.walking ≡ false
    → t.failed ≡ true
delete_many_fails rows t m p w = elim (Bool-cases t.failed) [
  | inl f ↦ f
  | inr f ↦ absurd (ground (arith, (Steps-Inv rows p f).few w, m))
]
