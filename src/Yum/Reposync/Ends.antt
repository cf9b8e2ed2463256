-- ===== src/Yum/Reposync/Ends.antt =====
-- A sync that has met no error can be completed without one.
use beskar.Prelude.{
  ℕ, zero, suc, ◌<◌, String, true, false, ◌≡◌, ◌⊎◌, inl, inr, refl, ◌∙◌, none, List, [], arith,
  Bool-cases,
}
use beskar.Prelude.Dict.{Dict}
use beskar.Yum.Sql.{Io}
use beskar.Yum.Packages.{RepositoryPackage}
use beskar.Yum.Reposync.{
  Sync, Ids, Shown, collect_ids, tag_of, Step, Steps, start, step, fault, begin,
}
use beskar.Yum.Reposync.Sets.{has_id}
use beskar.Yum.Reposync.Invariant.{Inv}
use beskar.Yum.Reposync.Progress.{measure, Step-measure}
use beskar.Yum.Reposync.Collected.{IsTagged}
use beskar.Yum.Reposync.Mirrors.{begin-reached}
use beskar.Yum.Reposync.Completes.{Step-flags, stopped-failed, next_removal, next_walk}

module _ {md5_hex : String → String} {pkg_of : String → RepositoryPackage} where
  Steps-append :
      {s t u : Sync}
      → Steps md5_hex pkg_of s t
      → Steps md5_hex pkg_of t u
      → Steps md5_hex pkg_of s u
  Steps-append p start = p
  Steps-append p (step q x) = step (Steps-append p q) x
  Steps-append p (fault q x) = fault (Steps-append p q) x

module _ (md5_hex : String → String) (pkg_of : String → RepositoryPackage) (upstream : List String)
    (io : Io) (rows : Dict RepositoryPackage) (ids : Ids) (shown : Shown)
    (named : (id : String) → (pkg_of id).id ≡ id)
    (distinct : (id other : String)
      → has_id id upstream ≡ true
      → has_id other upstream ≡ true
      → tag_of md5_hex pkg_of id ≡ tag_of md5_hex pkg_of other
      → id ≡ other)
    (tagged : IsTagged (tag_of md5_hex pkg_of) rows)
    (collected : collect_ids io rows ≡ (none, ids)) where
  next_step :
      (s : Sync)
      → Steps md5_hex pkg_of (begin upstream ids rows shown) s
      → s.failed ≡ false
      → ((s.removing ≡ true) × (s.db_packages ≡ [])) ⊎ ((t : Sync) × Step md5_hex pkg_of s t)
  next_step s p f =
      let i : Inv md5_hex pkg_of upstream rows s =
        begin-reached md5_hex pkg_of upstream io rows ids shown named distinct tagged collected s
          p in
      let z : s.stopped ≡ false = ground (arith, stopped-failed md5_hex pkg_of refl p, f) in
      elim (Bool-cases s.removing) [
        | inl r ↦ elim (next_removal md5_hex pkg_of upstream rows s i z r) [
          | inl e ↦ inl (r, e)
          | inr n ↦ inr n
        ]
        | inr r ↦ inr (next_walk md5_hex pkg_of upstream rows s i z f r)
      ]

  complete :
      (n : ℕ) (s : Sync)
      → measure s < n
      → Steps md5_hex pkg_of (begin upstream ids rows shown) s
      → s.failed ≡ false
      → (t : Sync) × Steps md5_hex pkg_of s t
        × (t.removing ≡ true)
        × (t.db_packages ≡ [])
        × (t.failed ≡ false)
  complete zero s m p f = absurd (ground (arith, m))
  complete (suc n) s m p f = elim (next_step s p f) [
    | inl (r, e) ↦ (s, start, r, e, f)
    | inr (t, x) ↦
        let (u, q, r, e, g) =
          complete n t (ground (arith, m, Step-measure md5_hex pkg_of x)) (step p x)
            ((Step-flags md5_hex pkg_of x).1 ∙ f) in
        (u, Steps-append (step start x) q, r, e, g)
  ]

  -- When the id of each package that the mirror lists is that of the package it serves, no two of
  -- them have one tag, and the stored rows are under the tags of their ids: a sync that has met no
  -- error so far, at whatever point, has steps without an error that take it through both loops.
  pub sync_completes :
      (s : Sync)
      → Steps md5_hex pkg_of (begin upstream ids rows shown) s
      → s.failed ≡ false
      → (t : Sync) × Steps md5_hex pkg_of s t
        × (t.removing ≡ true)
        × (t.db_packages ≡ [])
        × (t.failed ≡ false)
  sync_completes s p f = complete (suc (measure s)) s (ground arith) p f
