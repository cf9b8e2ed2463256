-- ===== src/Yum/Reposync/Preserved.antt =====
-- A push, a removal and an error keep the invariant of a sync.
use beskar.Prelude.{
  String, Bool, true, false, not, ◌&&◌, ◌||◌, ◌≡◌, inl, inr, sym, ◌∙◌, ap, List, arith,
  if◌then◌else◌, ◌==◌, eq_iff, eq_refl, String-cases,
}
use beskar.Prelude.Dict
use beskar.Prelude.Dict.{Dict, lookup-remove, lookup-insert}
use beskar.Yum.Packages.{RepositoryPackage, without_id}
use beskar.Yum.Packages.Ids.{without_id-IsUnique, insert-IsUnique}
use beskar.Yum.Reposync.{Sync, Ids, Take, found, tag_of}
use beskar.Yum.Reposync.Sets.{
  has_id, Take-has_id, Take-length, none_left, in_map, in_map-remove, Take-claims,
}
use beskar.Yum.Reposync.Stored.{
  lookup-insert_inv, lookup-without_inv, settled, settled-without_id, settled-insert,
}
use beskar.Yum.Reposync.Invariant.{Inv}

module _ (md5_hex : String → String) (pkg_of : String → RepositoryPackage) (upstream : List String)
    (before : Dict RepositoryPackage) (named : (id : String) → (pkg_of id).id ≡ id)
    (distinct : (id other : String)
      → has_id id upstream ≡ true
      → has_id other upstream ≡ true
      → tag_of md5_hex pkg_of id ≡ tag_of md5_hex pkg_of other
      → id ≡ other) where
  -- A push puts the worker's package in the place of what its tag had.
  pub push-Inv :
      (id : String) (ids pushed : List String) (failed : Bool) (s : Sync)
      → Inv md5_hex pkg_of upstream before s
      → Take id s.looked ids
      → (s.failed ≡ true → failed ≡ true)
      → let tag : String = tag_of md5_hex pkg_of id in
        Inv md5_hex pkg_of upstream before (record s {
          looked = ids;
          rows = Dict.insert tag (record (pkg_of id) { tag = tag }) s.rows;
          pushed = pushed;
          failed = failed;
        })
  push-Inv id ids pushed failed s i k f =
      let tag : String = tag_of md5_hex pkg_of id in
      let row : RepositoryPackage = record (pkg_of id) { tag = tag } in
      let left : (x : String) → has_id x s.looked ≡ ((id == x) || has_id x ids) =
        λ x. Take-has_id x k in
      let of_mirror : has_id id upstream ≡ true =
        i.listed id (ground (arith, left id, eq_refl id)) in
      let now : (x : String)
          → settled md5_hex pkg_of x (Dict.insert tag row s.rows) ≡ (
              if tag == tag_of md5_hex pkg_of x then id == x else settled md5_hex pkg_of x s.rows) =
        λ x. settled-insert md5_hex pkg_of id x s.rows (named id) in
      (record {
        keyed = λ g pkg l. elim (lookup-insert_inv tag g row pkg s.rows l) [
          | inl (e, p) ↦
              sym e
              ∙ ap (tag_of md5_hex pkg_of) (sym (ap (λ (x : RepositoryPackage). x.id) p ∙ named id))
          | inr (_, p) ↦ i.keyed g pkg p
        ];
        unique = insert-IsUnique tag row s.rows i.unique;
        covered = λ x u. ground (
          arith,
          i.covered x u,
          left x,
          now x,
          f,
          distinct id x of_mirror u,
          eq_iff id x,
          eq_iff tag (tag_of md5_hex pkg_of x),
        );
        known = λ g pkg l. elim (lookup-insert_inv tag g row pkg s.rows l) [
          | inl (e, p) ↦ ground (
            arith,
            ap (λ (x : RepositoryPackage). has_id x.id upstream) p,
            ap (λ x. has_id x upstream) (named id),
            of_mirror,
          )
          | inr (e, p) ↦
              ground (arith, i.known g pkg p, Take-claims (tag_of md5_hex pkg_of) g k, e, f)
        ];
        stored = λ x m. ground (
          arith,
          now x,
          i.stored x m,
          i.apart x id m,
          left id,
          eq_refl id,
          eq_iff tag (tag_of md5_hex pkg_of x),
        );
        apart = λ x other m o. i.apart x other m (ground (arith, left other, o));
        ahead = λ x m u. ground (arith, i.ahead x m u, f);
        turned = λ r. absurd (ground (arith, i.turned r, Take-length k));
        listed = λ x m. i.listed x (ground (arith, left x, m));
        kept = λ x u h. ground (
          arith,
          i.kept x u h,
          now x,
          distinct id x of_mirror u,
          eq_iff id x,
          eq_iff tag (tag_of md5_hex pkg_of x),
        );
        filtered = λ w.
            let (x, xs, q, held) = i.filtered w in
            (
              x,
              xs,
              q,
              ground (
                arith,
                held,
                now x,
                distinct id x of_mirror (i.listed x (ground (arith, ap (has_id x) q, eq_refl x))),
                eq_iff id x,
                eq_iff tag (tag_of md5_hex pkg_of x),
              ),
            );
        nameless = i.nameless;
      })

  -- A removal takes an id away that the mirror does not list.
  pub remove-Inv :
      (id : String) (failed : Bool) (s : Sync)
      → Inv md5_hex pkg_of upstream before s
      → s.removing ≡ true
      → in_map id s.db_packages ≡ true
      → (s.failed ≡ true → failed ≡ true)
      → Inv md5_hex pkg_of upstream before (record s {
        db_packages = Dict.remove id s.db_packages;
        rows = without_id id s.rows;
        failed = failed;
      })
  remove-Inv id failed s i r b f =
      let gone : (x : String)
          → in_map x (Dict.remove id s.db_packages) ≡ (not (id == x) && in_map x s.db_packages) =
        λ x. in_map-remove id x s.db_packages in
      let foreign : (x : String) → has_id x upstream ≡ true → (id == x) ≡ false = λ x u.
        elim (String-cases id x) [
          | inl e ↦
              absurd
                (ground (arith, i.ahead id b (ap (λ y. has_id y upstream) e ∙ u), i.turned r, r))
          | inr e ↦ e
        ] in
      let now : (x : String)
          → settled md5_hex pkg_of x (without_id id s.rows)
            ≡ (not (id == x) && settled md5_hex pkg_of x s.rows) =
        λ x. settled-without_id md5_hex pkg_of id x s.rows i.unique in
      (record {
        keyed = λ g pkg l. i.keyed g pkg (lookup-without_inv id g s.rows pkg i.unique l).0;
        unique = without_id-IsUnique id s.rows i.unique;
        covered = λ x u. ground (arith, i.covered x u, now x, foreign x u, f);
        known = λ g pkg l.
            let (l', e) = lookup-without_inv id g s.rows pkg i.unique l in
            ground (arith, i.known g pkg l', gone pkg.id, e, eq_iff pkg.id id, eq_iff id pkg.id, f);
        stored = λ x m. ground (arith, i.stored x, gone x, now x, m);
        apart = λ x other m o. i.apart x other (ground (arith, gone x, m)) o;
        ahead = λ x m u. ground (arith, i.ahead x (ground (arith, gone x, m)) u, f);
        turned = i.turned;
        listed = i.listed;
        kept = λ x u h. ground (arith, i.kept x u h, now x, foreign x u);
        filtered =
            λ w. let (x, xs, q, held) = i.filtered w in absurd (ground (arith, i.turned r, q));
        nameless = ground (arith, gone "", i.nameless);
      })

  -- An error that changes no row: what is no longer to be done may be dropped.
  pub fault-Inv :
      (todo fetching looked : List String) (db_packages : Ids) (stopped : Bool) (s : Sync)
      → Inv md5_hex pkg_of upstream before s
      → (s.filter ≡ found → todo ≡ s.todo)
      → ((id : String) → has_id id todo ≡ true → has_id id s.todo ≡ true)
      → ((id : String) → has_id id fetching ≡ true → has_id id s.fetching ≡ true)
      → ((id : String) → has_id id looked ≡ true → has_id id s.looked ≡ true)
      → ((id : String) → in_map id db_packages ≡ true → in_map id s.db_packages ≡ true)
      → Inv md5_hex pkg_of upstream before (record s {
        todo = todo;
        fetching = fetching;
        looked = looked;
        db_packages = db_packages;
        failed = true;
        stopped = stopped;
      })
  fault-Inv todo fetching looked db_packages stopped s i w t f l d = record {
    keyed = i.keyed;
    unique = i.unique;
    covered = λ x u. ground arith;
    known = λ g pkg h. ground arith;
    stored = λ x m. i.stored x (d x m);
    apart = λ x other m o. i.apart x other (d x m) (l other o);
    ahead = λ x m u. ground (arith, i.ahead x (d x m) u, i.turned);
    turned = λ r.
        let (a, b, c, e) = i.turned r in
        (
          none_left todo s.todo t a,
          b,
          none_left fetching s.fetching f c,
          none_left looked s.looked l e,
        );
    listed = λ x m. i.listed x (ground (arith, t x, f x, l x, m));
    kept = i.kept;
    filtered = λ g. let (x, xs, q, held) = i.filtered g in (x, xs, w g ∙ q, held);
    nameless = ground (arith, i.nameless, d "");
  }
