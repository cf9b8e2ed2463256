-- ===== src/Mirror/Plan/Invariant.antt =====
-- What holds at every step of a sync by a plan.
use mathlib.Core.Path.{subst}
use beskar.Prelude.{
  String, ◌≡◌, ◌≢◌, ◌⊎◌, sym, ◌∙◌, ap, true, false, Option, none, some, List, [], arith, inl, inr,
}
use beskar.Prelude.Dict
use beskar.Prelude.Dict.{Dict}
use beskar.Prelude.Outcome.{Err}
use beskar.Mirror.Files.{RepositoryFile}
use beskar.Mirror.Plan.{regular, FileInfo, SyncPlan, PlanSyncer, file_reference}
use beskar.Mirror.Plan.Steps.{PlanRun}
use beskar.Mirror.Plan.Rows.{
  Among, row_of, deletes, insert-cases, lookup-insert_self, remove-cases, Wrote,
}

module _ (s : PlanSyncer) (plan : SyncPlan) (before : Dict RepositoryFile) where
  -- What is found under a tag is the row of an added file that has the tag.
  abbrev pub Written : String → Option RepositoryFile → Type 0
  Written tag o =
      (file : FileInfo) × (row : RepositoryFile) × Among file plan.added
      × (row_of s plan.symlinks file ≡ some row)
      × (row.tag ≡ tag)
      × (o ≡ some row)

  abbrev pub Placed : String → Option RepositoryFile → Type 0
  Placed tag o = Written tag o ⊎ ((o ≡ none) × (deletes s tag plan.deleted ≡ true))

  pub record Inv (r : PlanRun) : Type 0 where
    pub listed : (file : FileInfo) → Among file r.todo → Among file plan.added
    pub held : (file : FileInfo) → Among file r.busy → Among file plan.added × (file.kind ≡ regular)
    pub passed :
        (file : FileInfo)
        → Among file plan.added
        → file.kind ≢ regular
        → Among file r.todo ⊎ Among file r.written
    pub fate :
        (tag : String)
        → (Dict.lookup tag r.rows ≡ Dict.lookup tag before) ⊎ Placed tag (Dict.lookup tag r.rows)
    pub placed :
        (file : FileInfo) (row : RepositoryFile)
        → Among file r.written
        → row_of s plan.symlinks file ≡ some row
        → Placed row.tag (Dict.lookup row.tag r.rows)
    pub gone :
        (tag : String)
        → deletes s tag plan.deleted ≡ true
        → (deletes s tag r.deleted ≡ true) ⊎ (Dict.lookup tag r.rows ≡ none)
    pub within : (tag : String) → deletes s tag r.deleted ≡ true → deletes s tag plan.deleted ≡ true
    pub quiet : r.deleting ≡ true → (r.todo ≡ []) × (r.busy ≡ [])
    pub early : r.deleting ≡ false → r.deleted ≡ plan.deleted
    pub ended : r.returned ≡ some none → (r.deleting ≡ true) × (r.deleted ≡ [])

  -- A step before `Wait` has returned, on one file.
  pub adding-Inv :
      (file : FileInfo) (e : Err) (todo busy written : List FileInfo) (rows : Dict RepositoryFile)
      (returned : Option Err) (r : PlanRun)
      → Inv r
      → r.deleting ≡ false
      → Among file plan.added
      → Wrote s plan.symlinks file e r.rows rows
      → ((x : FileInfo) → Among x todo → Among x r.todo)
      → ((x : FileInfo) → Among x busy → Among x plan.added × (x.kind ≡ regular))
      → ((x : FileInfo)
          → x.kind ≢ regular
          → Among x r.todo ⊎ Among x r.written
          → Among x todo ⊎ Among x written)
      → ((x : FileInfo) → Among x written → Among x r.written ⊎ ((e ≡ none) × (x ≡ file)))
      → returned ≢ some none
      → Inv (record r {
        todo = todo;
        busy = busy;
        written = written;
        rows = rows;
        returned = returned;
      })
  adding-Inv file e todo busy written rows returned r i d m w t b p n u =
      let put : (tag : String)
          → (Dict.lookup tag rows ≡ Dict.lookup tag r.rows) ⊎ Placed tag (Dict.lookup tag rows) =
        λ tag. elim w [
          | inr (q, _) ↦ inl (ap (Dict.lookup tag) q)
          | inl (row, o, q) ↦ elim (insert-cases row tag r.rows) [
            | inl (g, l) ↦ inr (inl (file, row, m, o, g, ap (Dict.lookup tag) q ∙ l))
            | inr l ↦ inl (ap (Dict.lookup tag) q ∙ l)
          ]
        ] in
      let kept : (tag : String)
          → Placed tag (Dict.lookup tag r.rows)
          → Placed tag (Dict.lookup tag rows) =
        λ tag h. elim (put tag) [ inr x ↦ x | inl q ↦ subst (Placed tag) (sym q) h ] in
      (record {
        listed = λ x a. i.listed x (t x a);
        held = b;
        passed = λ x a k. p x k (i.passed x a k);
        fate = λ tag. elim (put tag) [
          | inr x ↦ inr x
          | inl q ↦ elim (i.fate tag) [ inl h ↦ inl (q ∙ h) | inr h ↦ inr (kept tag h) ]
        ];
        placed = λ x row a o. elim (n x a) [
          | inl a1 ↦ kept row.tag (i.placed x row a1 o)
          | inr (z, same) ↦ elim w [
            | inr (q, inl f) ↦ absurd (f z)
            | inr (q, inr f) ↦ absurd (ground (arith, sym o ∙ ap (row_of s plan.symlinks) same ∙ f))
            | inl (row1, o1, q) ↦
                let g : ◌≡◌ {A = Option RepositoryFile} (some row) (some row1) =
                  sym o ∙ ap (row_of s plan.symlinks) same ∙ o1 in
                let g1 : row ≡ row1 = cc in
                inl (
                  file,
                  row1,
                  m,
                  o1,
                  ap (λ y. y.tag) (sym g1),
                  ap (λ y. Dict.lookup y rows) (ap (λ y. y.tag) g1)
                      ∙ ap (Dict.lookup row1.tag) q
                      ∙ lookup-insert_self row1 r.rows,
                )
          ]
        ];
        gone = λ tag h. inl (ap (deletes s tag) (i.early d) ∙ h);
        within = i.within;
        quiet = λ h. absurd (ground (arith, h, d));
        early = i.early;
        ended = λ h. absurd (u h);
      })

  -- A step of the loop over the files to delete.
  pub deleting-Inv :
      (path : String) (deleted : List String) (rows : Dict RepositoryFile) (returned : Option Err)
      (r : PlanRun)
      → let key : String = s.md5_hex (file_reference s path) in
        Inv r
        → r.deleting ≡ true
        → deletes s key r.deleted ≡ true
        → (rows ≡ Dict.remove key r.rows) ⊎ (rows ≡ r.rows)
        → ((tag : String) → deletes s tag deleted ≡ true → deletes s tag r.deleted ≡ true)
        → ((tag : String)
            → deletes s tag r.deleted ≡ true
            → (deletes s tag deleted ≡ true) ⊎ (Dict.lookup tag rows ≡ none))
        → returned ≢ some none
        → Inv (record r { deleted = deleted; rows = rows; returned = returned })
  deleting-Inv path deleted rows returned r i d k w sub cov u =
      let key : String = s.md5_hex (file_reference s path) in
      let put : (tag : String)
          → (Dict.lookup tag rows ≡ Dict.lookup tag r.rows)
            ⊎ ((Dict.lookup tag rows ≡ none) × (deletes s tag plan.deleted ≡ true)) =
        λ tag. elim w [
          | inr q ↦ inl (ap (Dict.lookup tag) q)
          | inl q ↦ elim (remove-cases key tag r.rows) [
            | inl (e, l) ↦ inr (
              ap (Dict.lookup tag) q ∙ l,
              i.within tag (ap (λ x. deletes s x r.deleted) (sym e) ∙ k),
            )
            | inr (_, l) ↦ inl (ap (Dict.lookup tag) q ∙ l)
          ]
        ] in
      let kept : (tag : String)
          → Placed tag (Dict.lookup tag r.rows)
          → Placed tag (Dict.lookup tag rows) =
        λ tag h. elim (put tag) [ inr x ↦ inr x | inl q ↦ subst (Placed tag) (sym q) h ] in
      (record {
        listed = i.listed;
        held = i.held;
        passed = i.passed;
        fate = λ tag. elim (put tag) [
          | inr x ↦ inr (inr x)
          | inl q ↦ elim (i.fate tag) [ inl h ↦ inl (q ∙ h) | inr h ↦ inr (kept tag h) ]
        ];
        placed = λ x row a o. kept row.tag (i.placed x row a o);
        gone = λ tag h. elim (i.gone tag h) [
          | inl g ↦ cov tag g
          | inr g ↦ elim (put tag) [ inl q ↦ inr (q ∙ g) | inr (z, _) ↦ inr z ]
        ];
        within = λ tag h. i.within tag (sub tag h);
        quiet = i.quiet;
        early = λ h. absurd (ground (arith, h, d));
        ended = λ h. absurd (u h);
      })
