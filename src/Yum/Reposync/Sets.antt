-- ===== src/Yum/Reposync/Sets.antt =====
-- The ids of a sync as sets, and what its calls make of the rows and of the map.
use beskar.Prelude.{
  suc, String, Bool, true, false, not, ◌&&◌, ◌||◌, ◌≡◌, ◌⊎◌, inl, inr, refl, ap, Option, none, some,
  List, [], ◌∷◌, ◌++◌, arith, length, ◌==◌, has, eq_iff, eq_refl, Bool-cases,
}
use beskar.Prelude.Dict
use beskar.Prelude.Dict.{Dict, lookup-remove, lookup-insert}
use beskar.Prelude.Result.{ok}
use beskar.Yum.Sql.{Io, exec_one, exec_delete, query_row}
use beskar.Yum.Packages.{
  RepositoryPackage, rpm_name, add_package, remove_package, without_id, no_entry_found,
}
use beskar.Yum.Packages.Rows.{calm}
use beskar.Yum.Reposync.{Ids, Take, here, there, keep_overridden, tag_of}

abbrev pub has_id : String → List String → Bool
has_id id [] = false
has_id id (x ∷ xs) = (x == id) || has_id id xs

pub has_id-append :
    (id : String) (xs ys : List String) → has_id id (xs ++ ys) ≡ (has_id id xs || has_id id ys)
has_id-append id [] ys = refl
has_id-append id (x ∷ xs) ys = ground (arith, has_id-append id xs ys)

pub none_left :
    (xs ys : List String)
    → ((id : String) → has_id id xs ≡ true → has_id id ys ≡ true)
    → ys ≡ []
    → xs ≡ []
none_left [] ys f e = refl
none_left (x ∷ xs) ys f e = absurd (ground (arith, f x, eq_refl x, ap (has_id x) e))

pub Take-has_id :
    {x : String} {xs ys : List String}
    → (id : String) → Take x xs ys
    → has_id id xs ≡ ((x == id) || has_id id ys)
Take-has_id id here = refl
Take-has_id id (there t) = ground (arith, Take-has_id id t)

pub Take-length : {x : String} {xs ys : List String} → Take x xs ys → length xs ≡ suc (length ys)
Take-length here = refl
Take-length (there t) = ap suc (Take-length t)

abbrev pub in_map : String → Ids → Bool
in_map id ids = has (Dict.lookup id ids)

abbrev pub is_id : String → Option RepositoryPackage → Bool
is_id id none = false
is_id id (some pkg) = pkg.id == id

pub in_map-empty : (id : String) (ids : Ids) → ids ≡ [] → in_map id ids ≡ false
unfolding Dict.lookup
in_map-empty id [] e = refl
in_map-empty id (x ∷ ids) e = absurd (ground (arith, e))

pub in_map-remove :
    (id other : String) (ids : Ids)
    → in_map other (Dict.remove id ids) ≡ (not (id == other) && in_map other ids)
in_map-remove id other ids =
    rw (lookup-remove id other ids)
      (elim (Bool-cases (id == other)) [ inl e ↦ rw e | inr e ↦ rw e ])

-- What a call that adds a package or removes an id makes of the rows.
pub add_package-cases :
    (md5_hex : String → String) (io : Io) (pkg : RepositoryPackage) (rows : Dict RepositoryPackage)
    → let tag : String = md5_hex (rpm_name pkg) in
      let t : Dict RepositoryPackage = (add_package md5_hex io pkg rows).1 in
      (t ≡ rows) ⊎ (t ≡ Dict.insert tag (record pkg { tag = tag }) rows)
unfolding add_package exec_one
add_package-cases md5_hex io pkg rows = ground arith

pub add_package-ok :
    (md5_hex : String → String) (io : Io) (pkg : RepositoryPackage)
    (rows t : Dict RepositoryPackage)
    → add_package md5_hex io pkg rows ≡ (none, t)
    → t ≡ Dict.insert (md5_hex (rpm_name pkg)) (record pkg { tag = md5_hex (rpm_name pkg) }) rows
unfolding add_package exec_one
add_package-ok md5_hex io pkg rows t h = ground arith

pub remove_package-ok :
    (io : Io) (id : String) (rows t : Dict RepositoryPackage) (deleted : Bool)
    → remove_package io id rows ≡ (ok deleted, t)
    → t ≡ without_id id rows
unfolding remove_package exec_delete
remove_package-ok io id rows t deleted h = ground arith

pub remove_package-cases :
    (io : Io) (id : String) (rows : Dict RepositoryPackage)
    → let t : Dict RepositoryPackage = (remove_package io id rows).1 in
      (t ≡ rows) ⊎ (t ≡ without_id id rows)
unfolding remove_package exec_delete
remove_package-cases io id rows = ground arith

-- Some worker of the list is about to push a package under the tag.
abbrev pub claims : (String → String) → String → List String → Bool
claims tag_of tag [] = false
claims tag_of tag (x ∷ xs) = (tag_of x == tag) || claims tag_of tag xs

pub Take-claims :
    {x : String} {xs ys : List String} (tag_of : String → String) (tag : String)
    → Take x xs ys
    → claims tag_of tag xs ≡ ((tag_of x == tag) || claims tag_of tag ys)
Take-claims tag_of tag here = refl
Take-claims tag_of tag (there t) = ground (arith, Take-claims tag_of tag t)

-- What the lookup of a worker has found when it goes on, and what it left of the map.
pub keep_overridden-cases :
    (found : Option RepositoryPackage) (ids t : Ids)
    → keep_overridden (query_row calm no_entry_found found) ids ≡ ok t
    → ((found ≡ none) × (t ≡ ids))
      ⊎ ((pkg : RepositoryPackage) × (found ≡ some pkg)
          × (((pkg.id ≡ "") × (t ≡ ids)) ⊎ (t ≡ Dict.remove pkg.id ids)))
unfolding keep_overridden query_row
keep_overridden-cases none ids t h = inl (refl, ground (arith, h))
keep_overridden-cases (some pkg) ids t h = inr (pkg, refl, ground (arith, h, eq_iff pkg.id ""))
