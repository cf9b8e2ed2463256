-- ===== src/Yum/Reposync/Mirrors.antt =====
-- What a sync of a mirror makes of the package database.
use beskar.Prelude.{String, true, false, ◌≡◌, none, some, List, [], arith}
use beskar.Prelude.Dict
use beskar.Prelude.Dict.{Dict, lookup-insert}
use beskar.Yum.Sql.{Io}
use beskar.Yum.Packages.{RepositoryPackage}
use beskar.Yum.Reposync.{Sync, Ids, Shown, collect_ids, tag_of, Steps, begin}
use beskar.Yum.Reposync.Sets.{has_id, in_map-empty}
use beskar.Yum.Reposync.Stored.{settled, settled_row}
use beskar.Yum.Reposync.Collected.{IsTagged, row-in_map, in_map-settled, in_map-nameless}
use beskar.Yum.Reposync.Invariant.{Inv}
use beskar.Yum.Reposync.Reached.{Steps-Inv}

module _ (md5_hex : String → String) (pkg_of : String → RepositoryPackage) (upstream : List String)
    (io : Io) (rows : Dict RepositoryPackage) (ids : Ids) (shown : Shown)
    (named : (id : String) → (pkg_of id).id ≡ id)
    (distinct : (id other : String)
      → has_id id upstream ≡ true
      → has_id other upstream ≡ true
      → tag_of md5_hex pkg_of id ≡ tag_of md5_hex pkg_of other
      → id ≡ other)
    (tagged : IsTagged (tag_of md5_hex pkg_of) rows)
    (collected : collect_ids io rows ≡ (none, ids)) where
  begin-Inv : Inv md5_hex pkg_of upstream rows (begin upstream ids rows shown)
  begin-Inv = record {
    keyed = λ tag pkg l. (tagged.keyed tag pkg l).0;
    unique = tagged.unique;
    covered = λ id u. ground (arith, u);
    known = λ tag pkg l.
        ground (arith, row-in_map md5_hex pkg_of io rows ids tagged collected tag pkg l);
    stored = in_map-settled md5_hex pkg_of io rows ids tagged collected;
    apart = λ id other m h. absurd (ground (arith, h));
    ahead = λ id m u. ground (arith, u);
    turned = λ r. absurd (ground (arith, r));
    listed = λ id h. ground (arith, h);
    kept = λ id u h. h;
    filtered = λ w. absurd (ground (arith, w));
    nameless = in_map-nameless md5_hex pkg_of io rows ids tagged collected;
  }

  pub begin-reached :
      (t : Sync)
      → Steps md5_hex pkg_of (begin upstream ids rows shown) t
      → Inv md5_hex pkg_of upstream rows t
  begin-reached t p = Steps-Inv md5_hex pkg_of upstream rows named distinct begin-Inv p

  -- When the id of each package that the mirror lists is that of the package it serves, no two of
  -- them have one tag, and the stored rows are under the tags of their ids, a sync that has gone
  -- through both loops without an error has left exactly the packages of the mirror: each of them is
  -- found under its tag, and what is found under a tag is one of them. That holds however the walk,
  -- the workers and the removals were interleaved.
  pub sync_mirrors :
      (t : Sync)
      → Steps md5_hex pkg_of (begin upstream ids rows shown) t
      → t.removing ≡ true
      → t.db_packages ≡ []
      → t.failed ≡ false
      → ((id : String)
          → has_id id upstream ≡ true
          → (pkg : RepositoryPackage) × (Dict.lookup (tag_of md5_hex pkg_of id) t.rows ≡ some pkg)
            × (pkg.id ≡ id))
        × ((tag : String) (pkg : RepositoryPackage)
            → Dict.lookup tag t.rows ≡ some pkg
            → (has_id pkg.id upstream ≡ true) × (tag ≡ tag_of md5_hex pkg_of pkg.id))
  sync_mirrors t p r d f =
      let i : Inv md5_hex pkg_of upstream rows t = begin-reached t p in
      (
        λ id u.
            settled_row md5_hex pkg_of id t.rows (ground (arith, i.covered id u, i.turned r, f)),
        λ tag pkg l. (
          ground (arith, i.known tag pkg l, i.turned r, f, in_map-empty pkg.id t.db_packages d),
          i.keyed tag pkg l,
        ),
      )

  -- When the id of each package that the mirror lists is that of the package it serves, no two of
  -- them have one tag, and the stored rows are under the tags of their ids: at every step of a sync,
  -- also after an error, a package that was stored before it and that the mirror lists is still found
  -- under its tag.
  pub sync_keeps :
      (t : Sync) (id : String)
      → Steps md5_hex pkg_of (begin upstream ids rows shown) t
      → has_id id upstream ≡ true
      → settled md5_hex pkg_of id rows ≡ true
      → settled md5_hex pkg_of id t.rows ≡ true
  sync_keeps t id p u h = (begin-reached t p).kept id u h
