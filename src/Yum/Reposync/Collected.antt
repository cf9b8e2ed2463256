-- ===== src/Yum/Reposync/Collected.antt =====
-- The map that a sync starts from holds the ids of the rows.
use beskar.Prelude.{
  String, true, false, ◌≡◌, ◌⊎◌, inl, inr, refl, sym, ◌∙◌, ap, none, some, [], ◌∷◌, arith,
  if◌then◌else◌, ◌==◌, eq_iff, eq_refl, Bool-cases, String-cases,
}
use beskar.Prelude.Dict
use beskar.Prelude.Dict.{Dict, lookup-insert}
use beskar.Prelude.Outcome.{Err}
use beskar.Yum.Sql.{Io}
use beskar.Yum.Packages.{RepositoryPackage, walk_loop, walk_packages}
use beskar.Yum.Packages.Ids.{IsUnique}
use beskar.Yum.Reposync.{Ids, collect_ids, tag_of}
use beskar.Yum.Reposync.Sets.{in_map, in_map-empty, is_id}
use beskar.Yum.Reposync.Stored.{settled}

-- The rows as `AddPackage` leaves them: each under the tag of its id, with an id.
pub record IsTagged (tag_of : String → String) (rows : Dict RepositoryPackage) : Type 0 where
  pub unique : IsUnique rows
  pub keyed :
      (tag : String) (pkg : RepositoryPackage)
      → Dict.lookup tag rows ≡ some pkg
      → (tag ≡ tag_of pkg.id) × ((pkg.id == "") ≡ false)

abbrev collect : RepositoryPackage → Ids → Err × Ids
collect pkg ids = (none, Dict.insert pkg.id tt ids)

in_map-insert :
    (id other : String) (ids : Ids)
    → in_map other (Dict.insert id tt ids) ≡ (if id == other then true else in_map other ids)
in_map-insert id other ids =
    rw (lookup-insert id other tt ids)
      (elim (Bool-cases (id == other)) [ inl e ↦ rw e | inr e ↦ rw e ])

collected_before :
    (rows : Dict RepositoryPackage) (ids : Ids) (x : String)
    → in_map x ids ≡ true
    → in_map x (walk_loop collect rows ids).1 ≡ true
unfolding walk_loop
collected_before [] ids x m = m
collected_before ((tag, pkg) ∷ rows) ids x m =
    collected_before rows (Dict.insert pkg.id tt ids) x
      (ground (arith, in_map-insert pkg.id x ids, m))

collected_row :
    (rows : Dict RepositoryPackage) (ids : Ids) (tag : String) (pkg : RepositoryPackage)
    → Dict.lookup tag rows ≡ some pkg
    → in_map pkg.id (walk_loop collect rows ids).1 ≡ true
unfolding walk_loop Dict.lookup
collected_row [] ids tag pkg h = absurd (ground arith)
collected_row ((name, row) ∷ rows) ids tag pkg h =
    let rest = collected_row rows (Dict.insert row.id tt ids) tag pkg in
    elim (Bool-cases (name == tag)) [
      | inl e ↦
          collected_before rows (Dict.insert row.id tt ids) pkg.id
            (ground (arith, h, e, in_map-insert row.id pkg.id ids, eq_iff row.id pkg.id))
      | inr e ↦ rest (ground (arith, h, e))
    ]

collected_from :
    (rows : Dict RepositoryPackage) (ids : Ids) (x : String)
    → IsUnique rows
    → in_map x (walk_loop collect rows ids).1 ≡ true
    → (in_map x ids ≡ true)
      ⊎ ((tag : String) × (pkg : RepositoryPackage) × (Dict.lookup tag rows ≡ some pkg)
          × (pkg.id ≡ x))
unfolding walk_loop Dict.lookup
collected_from [] ids x u m = inl m
collected_from ((name, row) ∷ rows) ids x u m =
    elim (collected_from rows (Dict.insert row.id tt ids) x u.1 m) [
      | inl n ↦ elim (String-cases row.id x) [
        | inl e ↦ inr (name, row, ground (arith, eq_refl name), e)
        | inr e ↦ inl (ground (arith, n, in_map-insert row.id x ids, e))
      ]
      | inr (tag, pkg, l, e) ↦ inr (tag, pkg, ground (arith, l, u.0, eq_iff name tag), e)
    ]

collect_ids-ok :
    (io : Io) (rows : Dict RepositoryPackage) (ids : Ids)
    → collect_ids io rows ≡ (none, ids)
    → ids ≡ (walk_loop collect rows []).1
unfolding collect_ids walk_packages
collect_ids-ok io rows ids h = ground arith

module _ (md5_hex : String → String) (pkg_of : String → RepositoryPackage) (io : Io)
    (rows : Dict RepositoryPackage) (ids : Ids) (tagged : IsTagged (tag_of md5_hex pkg_of) rows)
    (collected : collect_ids io rows ≡ (none, ids)) where
  pub row-in_map :
      (tag : String) (pkg : RepositoryPackage)
      → Dict.lookup tag rows ≡ some pkg
      → in_map pkg.id ids ≡ true
  row-in_map tag pkg l =
      ap (in_map pkg.id) (collect_ids-ok io rows ids collected) ∙ collected_row rows [] tag pkg l

  in_map-row :
      (id : String)
      → in_map id ids ≡ true
      → (tag : String) × (pkg : RepositoryPackage) × (Dict.lookup tag rows ≡ some pkg)
        × (pkg.id ≡ id)
  in_map-row id m =
      elim (collected_from rows [] id tagged.unique
        (ap (in_map id) (sym (collect_ids-ok io rows ids collected)) ∙ m)) [
          | inl n ↦ absurd (ground (arith, n, in_map-empty id [] refl))
          | inr r ↦ r
        ]

  pub in_map-settled : (id : String) → in_map id ids ≡ true → settled md5_hex pkg_of id rows ≡ true
  in_map-settled id m =
      let (tag, pkg, l, e) = in_map-row id m in
      let q : tag ≡ tag_of md5_hex pkg_of id =
        (tagged.keyed tag pkg l).0 ∙ ap (tag_of md5_hex pkg_of) e in
      ap (λ x. is_id id (Dict.lookup x rows)) (sym q)
      ∙ ap (is_id id) l
      ∙ ap (λ x. x == id) e
      ∙ eq_refl id

  pub in_map-nameless : in_map "" ids ≡ false
  in_map-nameless = elim (Bool-cases (in_map "" ids)) [
    | inl m ↦
        let (tag, pkg, l, e) = in_map-row "" m in
        absurd (ground (arith, (tagged.keyed tag pkg l).1, eq_iff pkg.id "", e))
    | inr m ↦ m
  ]
