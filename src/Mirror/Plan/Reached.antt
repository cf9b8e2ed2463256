-- ===== src/Mirror/Plan/Reached.antt =====
-- What a sync by a plan leaves in the database, however its workers and its loop were interleaved.
use mathlib.Core.Path.{subst}
use beskar.Prelude.{
  String, ◌≡◌, ◌≢◌, ◌⊎◌, refl, sym, ◌∙◌, ap, true, false, ◌||◌, none, some, List, ◌∷◌, arith, ◌==◌,
  eq_iff, inl, inr, Bool-cases,
}
use beskar.Prelude.Dict
use beskar.Prelude.Dict.{Dict}
use beskar.Mirror.Files.{RepositoryFile}
use beskar.Mirror.Plan.{regular, FileInfo, SyncPlan, PlanSyncer, file_reference}
use beskar.Mirror.Plan.Steps.{
  PlanRun, PlanStep, hand, work, work_fails, entry, entry_fails, wait, remove, remove_fails, finish,
  PlanSteps, start, next, begin,
}
use beskar.Mirror.Plan.Rows.{
  Among, Take-Among, Take-rest, row_of, deletes, remove-cases, remove_entry-cases, Wrote,
  file_push-Wrote, add_remote_file-Wrote,
}
use beskar.Mirror.Plan.Invariant.{Written, Placed, Inv, adding-Inv, deleting-Inv}

module _ (s : PlanSyncer) (plan : SyncPlan) (before : Dict RepositoryFile) where
  not-deleting :
      (r : PlanRun) (file : FileInfo)
      → Inv s plan before r
      → Among file r.todo ⊎ Among file r.busy
      → r.deleting ≡ false
  not-deleting r file i a = elim (Bool-cases r.deleting) [
    | inr d ↦ d
    | inl d ↦ elim a [
      | inl x ↦ absurd (ground (arith, subst (Among file) (i.quiet d).0 x))
      | inr x ↦ absurd (ground (arith, subst (Among file) (i.quiet d).1 x))
    ]
  ]

  first :
      (file : FileInfo) (files : List FileInfo) (xs : List FileInfo)
      → xs ≡ file ∷ files
      → Among file xs
  first file files xs q = subst (Among file) (sym q) (inl refl)

  rest :
      (file x : FileInfo) (files xs : List FileInfo)
      → xs ≡ file ∷ files
      → Among x files
      → Among x xs
  rest file x files xs q a = subst (Among x) (sym q) (inr a)

  Step-Inv :
      {r t : PlanRun} → Inv s plan before r → PlanStep s plan.symlinks r t → Inv s plan before t
  Step-Inv {r = r} i (hand file files u q k w e) = subst (Inv s plan before) (sym e) (
      adding-Inv s plan before file (some "") files (file ∷ r.busy) r.written r.rows r.returned r i
        (not-deleting r file i (inl (first file files r.todo q)))
        (i.listed file (first file files r.todo q)) (inr (refl, inl (λ z. ground (arith, z))))
        (λ x a. rest file x files r.todo q a)
        (λ x a. elim a [
          | inl z ↦ (
            i.listed x (subst (λ y. Among y r.todo) (sym z) (first file files r.todo q)),
            ap (λ y. y.kind) z ∙ k,
          )
          | inr b ↦ i.held x b
        ])
        (λ x ne a. elim a [
          | inr b ↦ inr b
          | inl b ↦ elim (subst (Among x) q b) [
            | inl z ↦ absurd (ne (ap (λ y. y.kind) z ∙ k))
            | inr c ↦ inl c
          ]
        ])
        (λ x a. inl a) (λ z. ground (arith, u, z)))
  Step-Inv {r = r} i (work fetch c file files rows k p e) =
      let (m, kind) = i.held file (Take-Among k) in
      let w = file_push-Wrote s plan.symlinks fetch c file r.rows kind in
      let d = not-deleting r file i (inr (Take-Among k)) in
      subst (Inv s plan before) (sym e) (
        adding-Inv s plan before file none r.todo files (file ∷ r.written) rows r.returned r i d m
          (subst (λ y. Wrote s plan.symlinks file y.0 r.rows y.1) p w) (λ x a. a)
          (λ x a. i.held x (Take-rest x k a))
          (λ x ne a. elim a [ inl b ↦ inl b | inr b ↦ inr (inr b) ])
          (λ x a. elim a [ inl z ↦ inr (refl, z) | inr b ↦ inl b ])
          (λ z. ground (arith, (i.ended z).0, d)))
  Step-Inv {r = r} i (work_fails fetch c x file files rows k p e) =
      let (m, kind) = i.held file (Take-Among k) in
      let w = file_push-Wrote s plan.symlinks fetch c file r.rows kind in
      let d = not-deleting r file i (inr (Take-Among k)) in
      subst (Inv s plan before) (sym e) (
        adding-Inv s plan before file (some x) r.todo files r.written rows r.returned r i d m
          (subst (λ y. Wrote s plan.symlinks file y.0 r.rows y.1) p w) (λ y a. a)
          (λ y a. i.held y (Take-rest y k a)) (λ y ne a. a) (λ y a. inl a)
          (λ z. ground (arith, (i.ended z).0, d)))
  Step-Inv {r = r} i (entry c file files rows u q k p e) =
      let w = add_remote_file-Wrote s plan.symlinks c file file.kind r.rows refl k in
      subst (Inv s plan before) (sym e) (
        adding-Inv s plan before file none files r.busy (file ∷ r.written) rows r.returned r i
          (not-deleting r file i (inl (first file files r.todo q)))
          (i.listed file (first file files r.todo q))
          (subst (λ y. Wrote s plan.symlinks file y.0 r.rows y.1) p w)
          (λ x a. rest file x files r.todo q a) i.held
          (λ x ne a. elim a [
            | inr b ↦ inr (inr b)
            | inl b ↦ elim (subst (Among x) q b) [ inl z ↦ inr (inl z) | inr c ↦ inl c ]
          ])
          (λ x a. elim a [ inl z ↦ inr (refl, z) | inr b ↦ inl b ]) (λ z. ground (arith, u, z)))
  Step-Inv {r = r} i (entry_fails c x file files rows u q k p e) =
      let w = add_remote_file-Wrote s plan.symlinks c file file.kind r.rows refl k in
      subst (Inv s plan before) (sym e) (
        adding-Inv s plan before file (some x) r.todo r.busy r.written rows (some (some x)) r i
          (not-deleting r file i (inl (first file files r.todo q)))
          (i.listed file (first file files r.todo q))
          (subst (λ y. Wrote s plan.symlinks file y.0 r.rows y.1) p w) (λ y a. a) i.held
          (λ y ne a. a) (λ y a. inl a) (λ z. ground (arith, z)))
  Step-Inv {r = r} i (wait u t b d e) = subst (Inv s plan before) (sym e) (record {
    listed = i.listed;
    held = i.held;
    passed = i.passed;
    fate = i.fate;
    placed = i.placed;
    gone = i.gone;
    within = i.within;
    quiet = λ _. (t, b);
    early = λ h. absurd (ground (arith, h));
    ended = λ z. absurd (ground (arith, u, z));
  })
  Step-Inv {r = r} i (remove c path paths rows u d q p e) =
      let key : String = s.md5_hex (file_reference s path) in
      let whole : (tag : String) → deletes s tag r.deleted ≡ ((key == tag) || deletes s tag paths) =
        λ tag. ap (deletes s tag) q in
      let did : rows ≡ Dict.remove key r.rows =
        elim (remove_entry-cases s c (file_reference s path) r.rows) [
          | inl x ↦ sym (ap (λ y. y.1) p) ∙ x
          | inr (x, ne) ↦ absurd (ne (ap (λ y. y.0) p))
        ] in
      subst (Inv s plan before) (sym e) (
        deleting-Inv s plan before path paths rows r.returned r i d
          (ground (arith, whole key, eq_iff key key)) (inl did)
          (λ tag h. ground (arith, whole tag, h))
          (λ tag h. elim (remove-cases key tag r.rows) [
            | inl (_, l) ↦ inr (ap (Dict.lookup tag) did ∙ l)
            | inr (n, _) ↦ inl (ground (arith, whole tag, h, n))
          ])
          (λ z. ground (arith, u, z)))
  Step-Inv {r = r} i (remove_fails c x path paths rows u d q p e) =
      let key : String = s.md5_hex (file_reference s path) in
      subst (Inv s plan before) (sym e) (
        deleting-Inv s plan before path r.deleted rows (some (some x)) r i d
          (ap (deletes s key) q ∙ ground (arith, eq_iff key key))
          (elim (remove_entry-cases s c (file_reference s path) r.rows) [
            | inl y ↦ inl (sym (ap (λ z. z.1) p) ∙ y)
            | inr (y, _) ↦ inr (sym (ap (λ z. z.1) p) ∙ y)
          ])
          (λ tag h. h) (λ tag h. inl h) (λ z. ground (arith, z)))
  Step-Inv {r = r} i (finish u d q e) = subst (Inv s plan before) (sym e) (record {
    listed = i.listed;
    held = i.held;
    passed = i.passed;
    fate = i.fate;
    placed = i.placed;
    gone = i.gone;
    within = i.within;
    quiet = i.quiet;
    early = i.early;
    ended = λ _. (d, q);
  })

  Steps-Inv :
      {r t : PlanRun} → Inv s plan before r → PlanSteps s plan.symlinks r t → Inv s plan before t
  Steps-Inv i start = i
  Steps-Inv i (next p x) = Step-Inv (Steps-Inv i p) x

  begin-Inv : Inv s plan before (begin plan before)
  begin-Inv = record {
    listed = λ x a. a;
    held = λ x a. absurd (ground (arith, a));
    passed = λ x a k. inl a;
    fate = λ tag. inl refl;
    placed = λ x row a o. absurd (ground (arith, a));
    gone = λ tag h. inl h;
    within = λ tag h. h;
    quiet = λ h. absurd (ground (arith, h));
    early = λ h. refl;
    ended = λ h. absurd (ground (arith, h));
  }

  -- When `Sync` has returned no error, in whatever order its workers and its loop have written: a tag
  -- of a file to delete is not found; under any other tag there is what was there before, or the row
  -- of an added file with the tag; and for each added file that is no regular one, and each regular
  -- one whose push met no error, it is the row of an added file with the tag, if the file has a row
  -- and its tag is not deleted.
  pub sync_plan_rows :
      (t : PlanRun)
      → PlanSteps s plan.symlinks (begin plan before) t
      → t.returned ≡ some none
      → ((tag : String) → deletes s tag plan.deleted ≡ true → Dict.lookup tag t.rows ≡ none)
        × ((tag : String)
            → deletes s tag plan.deleted ≡ false
            → (Dict.lookup tag t.rows ≡ Dict.lookup tag before)
              ⊎ Written s plan before tag (Dict.lookup tag t.rows))
        × ((file : FileInfo) (row : RepositoryFile)
            → Among file plan.added
            → (file.kind ≢ regular) ⊎ Among file t.written
            → row_of s plan.symlinks file ≡ some row
            → deletes s row.tag plan.deleted ≡ false
            → Written s plan before row.tag (Dict.lookup row.tag t.rows))
  sync_plan_rows t p u =
      let i : Inv s plan before t = Steps-Inv begin-Inv p in
      let (d, z) = i.ended u in
      let kept : (tag : String)
          → deletes s tag plan.deleted ≡ false
          → Placed s plan before tag (Dict.lookup tag t.rows)
          → Written s plan before tag (Dict.lookup tag t.rows) =
        λ tag h x. elim x [ inl w ↦ w | inr (_, g) ↦ absurd (ground (arith, h, g)) ] in
      (
        λ tag h. elim (i.gone tag h) [
          | inl g ↦ absurd (ground (arith, sym (ap (deletes s tag) z) ∙ g))
          | inr g ↦ g
        ],
        λ tag h. elim (i.fate tag) [ inl x ↦ inl x | inr x ↦ inr (kept tag h x) ],
        λ file row m a o h.
            let wrote : Among file t.written = elim a [
              | inr x ↦ x
              | inl k ↦ elim (i.passed file m k) [
                | inr x ↦ x
                | inl x ↦ absurd (ground (arith, subst (Among file) (i.quiet d).0 x))
              ]
            ] in
            kept row.tag h (i.placed file row wrote o),
      )
