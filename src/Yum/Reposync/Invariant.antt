-- ===== src/Yum/Reposync/Invariant.antt =====
-- What holds at every step of a sync, through the filter and the lookup of a worker.
use beskar.Prelude.{
  ℕ, String, true, false, not, ◌&&◌, ◌||◌, ◌≡◌, ◌≢◌, ◌⊎◌, inl, inr, sym, ◌∙◌, ap, some, List, [],
  ◌∷◌, arith, ◌==◌, eq_iff, Bool-cases, String-cases,
}
use beskar.Prelude.Dict
use beskar.Prelude.Dict.{Dict, lookup-remove, lookup-insert}
use beskar.Prelude.Result.{ok}
use beskar.Yum.Packages.{RepositoryPackage, get_package_by_tag}
use beskar.Yum.Packages.Rows.{calm}
use beskar.Yum.Packages.Ids.{IsUnique}
use beskar.Yum.Reposync.{
  Sync, Ids, Filter, asking, found, Counting, Shown, keep_overridden, visit, drop_found, tag_of,
}
use beskar.Yum.Reposync.Sets.{
  has_id, has_id-append, keep_overridden-cases, in_map, in_map-remove, is_id, claims,
}
use beskar.Yum.Reposync.Stored.{settled}

∷-head : {x y : String} {xs ys : List String} → ◌≡◌ {A = List String} (x ∷ xs) (y ∷ ys) → x ≡ y
∷-head q = cc

-- What the mirror lists, and what the database held before the sync.
module _ (md5_hex : String → String) (pkg_of : String → RepositoryPackage) (upstream : List String)
    (before : Dict RepositoryPackage) where
  pub record Inv (s : Sync) : Type 0 where
    pub keyed :
        (tag : String) (pkg : RepositoryPackage)
        → Dict.lookup tag s.rows ≡ some pkg
        → tag ≡ tag_of md5_hex pkg_of pkg.id
    pub unique : IsUnique s.rows
    pub covered :
        (id : String)
        → has_id id upstream ≡ true
        → (has_id id s.todo
            || has_id id s.waiting
            || has_id id s.fetching
            || has_id id s.looked
            || settled md5_hex pkg_of id s.rows
            || s.failed)
          ≡ true
    pub known :
        (tag : String) (pkg : RepositoryPackage)
        → Dict.lookup tag s.rows ≡ some pkg
        → (has_id pkg.id upstream
            || in_map pkg.id s.db_packages
            || claims (tag_of md5_hex pkg_of) tag s.looked
            || s.failed)
          ≡ true
    pub stored :
        (id : String) → in_map id s.db_packages ≡ true → settled md5_hex pkg_of id s.rows ≡ true
    pub apart :
        (id other : String)
        → in_map id s.db_packages ≡ true
        → has_id other s.looked ≡ true
        → tag_of md5_hex pkg_of other ≢ tag_of md5_hex pkg_of id
    pub ahead :
        (id : String)
        → in_map id s.db_packages ≡ true
        → has_id id upstream ≡ true
        → (has_id id s.todo || (s.failed && not s.removing)) ≡ true
    pub turned :
        s.removing ≡ true → (s.todo ≡ []) × (s.waiting ≡ []) × (s.fetching ≡ []) × (s.looked ≡ [])
    pub listed :
        (id : String)
        → (has_id id s.todo || has_id id s.waiting || has_id id s.fetching || has_id id s.looked)
          ≡ true
        → has_id id upstream ≡ true
    pub kept :
        (id : String)
        → has_id id upstream ≡ true
        → settled md5_hex pkg_of id before ≡ true
        → settled md5_hex pkg_of id s.rows ≡ true
    pub filtered :
        s.filter ≡ found
        → (id : String) × (ids : List String) × (s.todo ≡ id ∷ ids)
          × (settled md5_hex pkg_of id s.rows ≡ true)
    pub nameless : in_map "" s.db_packages ≡ false

  -- The test of the filter.
  pub visit-Inv :
      (id : String) (ids : List String) (s : Sync)
      → Inv s
      → s.todo ≡ id ∷ ids
      → s.filter ≡ asking
      → Inv (visit id ids s)
  unfolding visit
  visit-Inv id ids s i q w =
      let left : (x : String) → has_id x s.todo ≡ ((id == x) || has_id x ids) =
        λ x. ap (has_id x) q in
      elim (Bool-cases (in_map id s.db_packages)) [
        | inl b ↦ rw b (record {
          keyed = i.keyed;
          unique = i.unique;
          covered = i.covered;
          known = i.known;
          stored = i.stored;
          apart = i.apart;
          ahead = i.ahead;
          turned = i.turned;
          listed = i.listed;
          kept = i.kept;
          filtered = λ _. (id, ids, q, i.stored id b);
          nameless = i.nameless;
        })
        | inr b ↦ rw b (record {
          keyed = i.keyed;
          unique = i.unique;
          covered =
              λ x u. ground (arith, i.covered x u, left x, has_id-append x s.waiting (id ∷ []));
          known = i.known;
          stored = i.stored;
          apart = i.apart;
          ahead = λ x m u. ground (arith, i.ahead x m u, left x, eq_iff id x, m, b);
          turned = λ r. absurd (ground (arith, i.turned r, q));
          listed =
              λ x m. i.listed x (ground (arith, left x, m, has_id-append x s.waiting (id ∷ [])));
          kept = i.kept;
          filtered = λ f. absurd (ground (arith, f, w));
          nameless = i.nameless;
        })
      ]

  -- The deletion in the filter, of an id that is stored also when a worker has deleted it first.
  pub drop-Inv :
      (id : String) (ids : List String) (s : Sync)
      → Inv s
      → s.todo ≡ id ∷ ids
      → s.filter ≡ found
      → Inv (drop_found id ids s)
  unfolding drop_found
  drop-Inv id ids s i q w =
      let left : (x : String) → has_id x s.todo ≡ ((id == x) || has_id x ids) =
        λ x. ap (has_id x) q in
      let gone : (x : String)
          → in_map x (Dict.remove id s.db_packages) ≡ (not (id == x) && in_map x s.db_packages) =
        λ x. in_map-remove id x s.db_packages in
      let (head, rest, q1, held) = i.filtered w in
      let here : settled md5_hex pkg_of id s.rows ≡ true =
        ap (λ x. settled md5_hex pkg_of x s.rows) (∷-head (sym q ∙ q1)) ∙ held in
      (record {
        keyed = i.keyed;
        unique = i.unique;
        covered = λ x u. ground (arith, i.covered x u, left x, here, eq_iff id x);
        known = λ tag pkg l. ground (
          arith,
          i.known tag pkg l,
          gone pkg.id,
          eq_iff id pkg.id,
          i.listed id,
          left id,
          eq_iff id id,
        );
        stored = λ x m. i.stored x (ground (arith, gone x, m));
        apart = λ x other m o. i.apart x other (ground (arith, gone x, m)) o;
        ahead = λ x m u. ground (arith, i.ahead x (ground (arith, gone x, m)) u, left x, gone x, m);
        turned = λ r. absurd (ground (arith, i.turned r, q));
        listed = λ x m. i.listed x (ground (arith, left x, m));
        kept = i.kept;
        filtered = λ f. absurd (ground (arith, f));
        nameless = ground (arith, gone "", i.nameless);
      })

  -- A step that changes only the count, what is shown, and who counts.
  pub count-Inv :
      (filter : Filter) (pushed : List String) (mutex : Counting) (synced : ℕ) (shown : Shown)
      (s : Sync)
      → Inv s
      → (filter ≡ found → s.filter ≡ found)
      → Inv (record s {
        filter = filter;
        pushed = pushed;
        mutex = mutex;
        synced_packages = synced;
        shown = shown;
      })
  count-Inv filter pushed mutex synced shown s i f = record {
    keyed = i.keyed;
    unique = i.unique;
    covered = i.covered;
    known = i.known;
    stored = i.stored;
    apart = i.apart;
    ahead = i.ahead;
    turned = i.turned;
    listed = i.listed;
    kept = i.kept;
    filtered = λ g. i.filtered (f g);
    nameless = i.nameless;
  }

  -- The lookup: no id that stays in the map is stored under the tag of the worker, and an id that
  -- leaves it is stored under that tag.
  pub look-apart :
      (id x : String) (s : Sync) (ids : Ids)
      → Inv s
      → keep_overridden (get_package_by_tag calm (tag_of md5_hex pkg_of id) s.rows) s.db_packages
        ≡ ok ids
      → in_map x ids ≡ true
      → (in_map x s.db_packages ≡ true) × (tag_of md5_hex pkg_of id ≢ tag_of md5_hex pkg_of x)
  unfolding get_package_by_tag
  look-apart id x s ids i k m =
      let found = Dict.lookup (tag_of md5_hex pkg_of id) s.rows in
      let at_tag : in_map x s.db_packages ≡ true
          → tag_of md5_hex pkg_of id ≡ tag_of md5_hex pkg_of x
          → is_id x found ≡ true =
        λ m' e. ap (λ tag. is_id x (Dict.lookup tag s.rows)) e ∙ i.stored x m' in
      elim (keep_overridden-cases found s.db_packages ids k) [
        | inl (n, e) ↦
            let m' : in_map x s.db_packages ≡ true = ap (in_map x) (sym e) ∙ m in
            (m', λ q. ground (arith, at_tag m' q, n))
        | inr (pkg, n, inl (z, e)) ↦
            let m' : in_map x s.db_packages ≡ true = ap (in_map x) (sym e) ∙ m in
            (m', λ q. ground (arith, at_tag m' q, n, z, eq_iff pkg.id x, i.nameless, m'))
        | inr (pkg, n, inr e) ↦
            let both : (not (pkg.id == x) && in_map x s.db_packages) ≡ true =
              sym (in_map-remove pkg.id x s.db_packages) ∙ ap (in_map x) (sym e) ∙ m in
            let m' : in_map x s.db_packages ≡ true = ground (arith, both) in
            (m', λ q. ground (arith, at_tag m' q, n, both))
      ]

  pub look-known :
      (id tag : String) (pkg : RepositoryPackage) (s : Sync) (ids : Ids)
      → Inv s
      → keep_overridden (get_package_by_tag calm (tag_of md5_hex pkg_of id) s.rows) s.db_packages
        ≡ ok ids
      → Dict.lookup tag s.rows ≡ some pkg
      → in_map pkg.id s.db_packages ≡ true
      → (in_map pkg.id ids ≡ true) ⊎ (tag_of md5_hex pkg_of id ≡ tag)
  unfolding get_package_by_tag
  look-known id tag pkg s ids i k l m =
      elim (keep_overridden-cases (Dict.lookup (tag_of md5_hex pkg_of id) s.rows) s.db_packages ids
        k) [
          | inl (n, e) ↦ inl (ap (in_map pkg.id) e ∙ m)
          | inr (other, n, inl (z, e)) ↦ inl (ap (in_map pkg.id) e ∙ m)
          | inr (other, n, inr e) ↦ elim (String-cases other.id pkg.id) [
            | inl q ↦ inr (
                i.keyed (tag_of md5_hex pkg_of id) other n
                ∙ ap (tag_of md5_hex pkg_of) q
                ∙ sym (i.keyed tag pkg l))
            | inr q ↦ inl (
                ap (in_map pkg.id) e
                ∙ in_map-remove other.id pkg.id s.db_packages
                ∙ ground (arith, q, m))
          ]
        ]
