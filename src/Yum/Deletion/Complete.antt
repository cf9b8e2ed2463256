-- ===== src/Yum/Deletion/Complete.antt =====
-- The deletion of a repository with at most as many packages as workers.
use Prim.Native.Nat.{◌*◌}
use mathlib.Core.Path.{subst}
use beskar.Prelude.{
  ℕ, zero, suc, ◌+◌, ◌≤◌, ◌<◌, String, true, false, ◌||◌, ◌≡◌, ◌⊎◌, inl, inr, refl, sym, ◌∙◌, ap,
  List, [], ◌∷◌, map, arith, if◌then◌else◌, length, All, ◌==◌, eq_iff, eq_refl, Bool-cases,
}
use beskar.Prelude.Dict.{Dict}
use beskar.Yum.Packages.{RepositoryPackage, without_id}
use beskar.Yum.Packages.Rows.{calm}
use beskar.Yum.Reposync.{Take, here}
use beskar.Yum.Reposync.Sets.{has_id, Take-has_id, Take-length, remove_package-ok}
use beskar.Yum.Reposync.Completes.{List-cases, remove_package-calm}
use beskar.Yum.Deletion.{
  Deletion, max_parallel, Step, read, read_end, removed, Fault, refused, timeout, not_removed,
  cut_off, removed_late, Steps, start, step, fault, begin,
}
use beskar.Yum.Deletion.Many.{Inv, Steps-Inv, Step-failed, Fault-failed}

-- The worker of a row is still to come, or waits.
abbrev Awaited : Deletion → String × RepositoryPackage → Type 0
Awaited s (tag, pkg) = (has_id pkg.id s.todo || has_id pkg.id s.asked) ≡ true

All-imp :
    (P Q : String × RepositoryPackage → Type 0) (rows : Dict RepositoryPackage)
    → ((e : String × RepositoryPackage) → P e → Q e)
    → All P rows
    → All Q rows
All-imp P Q [] f a = tt
All-imp P Q (e ∷ rows) f a = (f e a.0, All-imp P Q rows f a.1)

All-without_id :
    (P Q : String × RepositoryPackage → Type 0) (id : String) (rows : Dict RepositoryPackage)
    → ((tag : String) (pkg : RepositoryPackage)
        → P (tag, pkg)
        → (pkg.id == id) ≡ false
        → Q (tag, pkg))
    → All P rows
    → All Q (without_id id rows)
unfolding without_id
All-without_id P Q id [] f a = tt
All-without_id P Q id ((tag, pkg) ∷ rows) f a = elim (Bool-cases (pkg.id == id)) [
  | inl e ↦ rw e (All-without_id P Q id rows f a.1)
  | inr e ↦ rw e ((f tag pkg a.0 e, All-without_id P Q id rows f a.1))
]

All-begin :
    (ids : List String) (rows : Dict RepositoryPackage)
    → ((id : String) → has_id id (map (λ e. e.1.id) rows) ≡ true → has_id id ids ≡ true)
    → All (λ e. (has_id e.1.id ids || false) ≡ true) rows
All-begin ids [] f = tt
All-begin ids ((tag, pkg) ∷ rows) f = (
  ground (arith, f pkg.id, eq_refl pkg.id),
  All-begin ids rows (λ id h. f id (ground (arith, h))),
)

Step-Awaited : {s t : Deletion} → All (Awaited s) s.rows → Step s t → All (Awaited t) t.rows
Step-Awaited {s = s} {t = t} a (read id ids w q b e) =
    subst (λ x. All (Awaited x) x.rows) (sym e)
      (All-imp (Awaited s) (Awaited (record s { todo = ids; asked = id ∷ s.asked })) s.rows
        (λ r h. ground (arith, h, ap (has_id r.1.id) q)) a)
Step-Awaited {s = s} a (read_end w q e) = subst (λ x. All (Awaited x) x.rows) (sym e) a
Step-Awaited {s = s} a (removed io id ids deleted rows w k r e) =
    let t : Deletion = record s { asked = ids; rows = without_id id s.rows } in
    subst (λ x. All (Awaited x) x.rows)
      (sym (
        e
        ∙ ap (λ x. record s { asked = ids; rows = x })
            (remove_package-ok io id s.rows rows deleted r)))
      (All-without_id (Awaited s) (Awaited t) id s.rows
        (λ tag pkg h n.
          ground (arith, h, n, Take-has_id pkg.id k, eq_iff id pkg.id, eq_iff pkg.id id))
        a)

Steps-Awaited :
    (rows : Dict RepositoryPackage) {t : Deletion}
    → Steps (begin rows) t
    → t.failed ≡ false
    → All (Awaited t) t.rows
Steps-Awaited rows start f = All-begin (map (λ e. e.1.id) rows) rows (λ id h. h)
Steps-Awaited rows (step p q) f = Step-Awaited (Steps-Awaited rows p (sym (Step-failed q) ∙ f)) q
Steps-Awaited rows (fault p q) f = absurd (ground (arith, Fault-failed q, f))

none_left :
    (s : Deletion) (rows : Dict RepositoryPackage)
    → s.todo ≡ []
    → s.asked ≡ []
    → All (Awaited s) rows
    → rows ≡ []
none_left s [] t k a = refl
none_left s (r ∷ rows) t k a =
    absurd (ground (arith, a.0, ap (has_id r.1.id) t, ap (has_id r.1.id) k))

Fault-read :
    {s t : Deletion}
    → (s.walking ≡ false → s.todo ≡ [])
    → Fault s t
    → t.walking ≡ false
    → t.todo ≡ []
Fault-read h (refused id ids k e) w = ap (λ x. x.todo) e ∙ h (sym (ap (λ x. x.walking) e) ∙ w)
Fault-read h (timeout id ids k e) w = ap (λ x. x.todo) e ∙ h (sym (ap (λ x. x.walking) e) ∙ w)
Fault-read h (not_removed io id ids v k e) w = ap (λ x. x.todo) e ∙ h v
Fault-read h (cut_off v e) w = ap (λ x. x.todo) e
Fault-read h (removed_late io id ids v f k e) w = ap (λ x. x.todo) e ∙ h v

-- The walk is open or all its rows have been read.
Steps-read :
    (rows : Dict RepositoryPackage) {t : Deletion}
    → Steps (begin rows) t
    → t.walking ≡ false
    → t.todo ≡ []
Steps-read rows start w = absurd (ground (arith, w))
Steps-read rows (step p (read id ids w q b e)) f =
    absurd (ground (arith, ap (λ x. x.walking) e, w, f))
Steps-read rows (step p (read_end w q e)) f = ap (λ x. x.todo) e ∙ q
Steps-read rows (step p (removed io id ids deleted r w k o e)) f =
    ap (λ x. x.todo) e ∙ Steps-read rows p w
Steps-read rows (fault p q) f = Fault-read (Steps-read rows p) q f

-- When the walk over the packages of a repository has ended, no worker is left, and no call or worker
-- has failed, the database has no package any more.
pub delete_all :
    (rows : Dict RepositoryPackage) (t : Deletion)
    → Steps (begin rows) t
    → t.walking ≡ false
    → t.asked ≡ []
    → t.failed ≡ false
    → t.rows ≡ []
delete_all rows t p w k f = none_left t t.rows (Steps-read rows p w) k (Steps-Awaited rows p f)

abbrev left : Deletion → ℕ
left s = 2 * length s.todo + length s.asked + (if s.walking then 1 else 0)

Step-left : {s t : Deletion} → Step s t → left t < left s
Step-left {s = s} (read id ids w q b e) = ground (arith, ap left e, ap length q)
Step-left {s = s} (read_end w q e) = ground (arith, ap left e, w)
Step-left {s = s} (removed io id ids deleted rows w k r e) =
    ground (arith, ap left e, Take-length k)

next_step :
    (n : ℕ) (s : Deletion)
    → n ≤ max_parallel
    → Inv n s
    → ((s.walking ≡ false) × (s.asked ≡ [])) ⊎ ((t : Deletion) × Step s t)
next_step n s b i = elim (Bool-cases s.walking) [
  | inl w ↦ elim (List-cases s.todo) [
    | inl e ↦ inr (_, read_end w e refl)
    | inr (id, ids, q) ↦
        inr (_, read id ids w q (ground (arith, b, i.all_asked w, ap length q)) refl)
  ]
  | inr w ↦ elim (List-cases s.asked) [
    | inl e ↦ inl (w, e)
    | inr (id, ids, q) ↦
        let (deleted, rows, r) = remove_package-calm id s.rows in
        inr (_, removed calm id ids deleted rows w (subst (λ x. Take id x ids) (sym q) here) r refl)
  ]
]

Steps-append : {s t u : Deletion} → Steps s t → Steps t u → Steps s u
Steps-append p start = p
Steps-append p (step q x) = step (Steps-append p q) x
Steps-append p (fault q x) = fault (Steps-append p q) x

complete :
    (rows : Dict RepositoryPackage) (n : ℕ) (s : Deletion)
    → length rows ≤ max_parallel
    → left s < n
    → Steps (begin rows) s
    → s.failed ≡ false
    → (t : Deletion) × Steps s t × (t.walking ≡ false) × (t.asked ≡ []) × (t.failed ≡ false)
complete rows zero s b m p f = absurd (ground (arith, m))
complete rows (suc n) s b m p f = elim (next_step (length rows) s b (Steps-Inv rows p f)) [
  | inl (w, k) ↦ (s, start, w, k, f)
  | inr (t, x) ↦
      let (u, q, w, k, g) =
        complete rows n t b (ground (arith, m, Step-left x)) (step p x) (Step-failed x ∙ f) in
      (u, Steps-append (step start x) q, w, k, g)
]

-- With at most a hundred packages, the deletion of a repository with its packages, which has met no
-- error so far, at whatever point, has steps without an error after which the walk has ended, no
-- worker is left and no package is left in the database.
pub delete_completes :
    (rows : Dict RepositoryPackage) (s : Deletion)
    → length rows ≤ max_parallel
    → Steps (begin rows) s
    → s.failed ≡ false
    → (t : Deletion) × Steps s t
      × (t.walking ≡ false)
      × (t.asked ≡ [])
      × (t.failed ≡ false)
      × (t.rows ≡ [])
delete_completes rows s b p f =
    let (t, q, w, k, g) = complete rows (suc (left s)) s b (ground arith) p f in
    (t, q, w, k, g, delete_all rows t (Steps-append p q) w k g)
