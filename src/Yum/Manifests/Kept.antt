-- ===== src/Yum/Manifests/Kept.antt =====
-- What the processing of packages leaves alone: the status database, the queue, and the
-- configuration of the repository.
use mathlib.Core.Path.{subst}
use beskar.Prelude.{String, ◌≡◌, refl, ◌∙◌, none, some, arith}
use beskar.Prelude.Outcome.{Outcome, done, blocked, panic, ◌>>=◌, Err}
use beskar.Prelude.Result.{Result, ok, err}
use beskar.Yum.Handler.{Handler, Database, get_db}
use beskar.Yum.Packages.{RepositoryPackage}
use beskar.Yum.Metadata.{PackageMetadata}
use beskar.Repository.Artifacts.{Artifacts, sync_artifact_result}
use beskar.Yum.Manifests.{
  Layer, Manifest, PackageIo, get_layer, rpm_package_layer_type, add_to_metadata, add_to_repository,
  remove_from_metadata, remove_from_repository, store_package, answer, reject,
  process_package_manifest, delete_package, delete_package_manifest,
}

pub record Kept (h k : Handler) : Type 0 where
  pub status : k.status_db ≡ h.status_db
  pub repo : k.repo ≡ h.repo
  pub mirror : k.mirror ≡ h.mirror
  pub delete : k.delete ≡ h.delete

pub Kept-refl : (h : Handler) → Kept h h
Kept-refl h = record { status = refl; repo = refl; mirror = refl; delete = refl }

pub Kept-trans : {h k l : Handler} → Kept h k → Kept k l → Kept h l
Kept-trans a b = record {
  status = b.status ∙ a.status;
  repo = b.repo ∙ a.repo;
  mirror = b.mirror ∙ a.mirror;
  delete = b.delete ∙ a.delete;
}

get_db-Kept : (d : Database) (e : Err) (h : Handler) → Kept h (get_db d e h).1
unfolding get_db
get_db-Kept d e h = ground arith

module _ (io : PackageIo) where
  add_to_metadata-Kept : (pkg : PackageMetadata) (h : Handler) → Kept h (add_to_metadata io pkg h).1
  unfolding add_to_metadata
  add_to_metadata-Kept pkg h = ground arith

  add_to_repository-Kept :
      (pkg : RepositoryPackage) (h : Handler) → Kept h (add_to_repository io pkg h).1
  unfolding add_to_repository
  add_to_repository-Kept pkg h = ground arith

  remove_from_metadata-Kept : (id : String) (h : Handler) → Kept h (remove_from_metadata io id h).1
  unfolding remove_from_metadata
  remove_from_metadata-Kept id h = ground arith

  remove_from_repository-Kept :
      (id : String) (h : Handler) → Kept h (remove_from_repository io id h).1
  unfolding remove_from_repository
  remove_from_repository-Kept id h = ground arith

  -- A handler behind a result whose error may be wrapped.
  store_package-Kept : (layer : Layer) (h : Handler) → Kept h (store_package io layer h).1
  unfolding store_package
  store_package-Kept layer h = grind (arith, add_to_metadata-Kept, add_to_repository-Kept)

  delete_package-Kept : (layer : Layer) (h : Handler) → Kept h (delete_package io layer h).1
  unfolding delete_package
  delete_package-Kept layer h =
      grind (arith, remove_from_metadata-Kept, remove_from_repository-Kept)

answer-Kept : (name : String) (e : Err) (h k : Handler) → answer name e h ≡ done k → Kept h k
unfolding answer
answer-Kept name e h k p = go (sync_artifact_result name e h.artifacts) p
  where
    go :
        (r : Outcome Artifacts) → (r >>= λ a. done (record h { artifacts = a })) ≡ done k → Kept h k
    go (done a) q = ground arith
    go blocked q = cc
    go panic q = cc

reject-Kept : (digest : String) (e : Err) (h : Handler) → Kept h (reject digest e h)
unfolding reject
reject-Kept digest none h = Kept-refl h
reject-Kept digest (some e) h = ground arith

-- The result of a step that answers on the artifact's channel and goes on.
pub answered-Kept :
    (name : String) (e : Err) (h : Handler) (f : Handler → Err × Handler) (r : Err × Handler)
    → ((k : Handler) → Kept k (f k).1)
    → (answer name e h >>= λ k. done (f k)) ≡ done r
    → Kept h r.1
answered-Kept name e h f r keep p = go (answer name e h) refl p
  where
    go : (o : Outcome Handler) → answer name e h ≡ o → (o >>= λ k. done (f k)) ≡ done r → Kept h r.1
    go (done k) q p =
        let same : f k ≡ r = cc in
        subst (λ x. Kept h x.1) same (Kept-trans (answer-Kept name e h k q) (keep k))
    go blocked q p = cc
    go panic q p = cc

-- A processed package manifest, accepted or rejected, leaves the status database, the queue and the
-- configuration as they were.
pub process_package_manifest-Kept :
    (io : PackageIo) (m : Manifest) (digest : String) (h : Handler) (r : Err × Handler)
    → process_package_manifest io m digest h ≡ done r
    → Kept h r.1
unfolding process_package_manifest
process_package_manifest-Kept io m digest h r p =
    go (get_layer m.layers rpm_package_layer_type) refl
  where
    go : (l : Result Layer) → get_layer m.layers rpm_package_layer_type ≡ l → Kept h r.1
    go (err e) q =
        let same : (some e, reject digest (some e) h) ≡ r =
          cc (rw (q, process_package_manifest) at p) in
        subst (λ x. Kept h x.1) same (reject-Kept digest (some e) h)
    go (ok layer) q =
        let (e, h1) = store_package io layer h in
        Kept-trans (store_package-Kept io layer h) (
          answered-Kept layer.title e h1 (λ k. (e, reject digest e k)) r (reject-Kept digest e)
            (rw (q, process_package_manifest) at p))

pub delete_package_manifest-Kept :
    (io : PackageIo) (m : Manifest) (h : Handler) (r : Err × Handler)
    → delete_package_manifest io m h ≡ done r
    → Kept h r.1
unfolding delete_package_manifest
delete_package_manifest-Kept io m h r p = go (get_layer m.layers rpm_package_layer_type) refl
  where
    go : (l : Result Layer) → get_layer m.layers rpm_package_layer_type ≡ l → Kept h r.1
    go (err e) q =
        let same : ◌≡◌ {A = Err × Handler} (some e, h) r =
          cc (rw (q, delete_package_manifest) at p) in
        subst (λ x. Kept h x.1) same (Kept-refl h)
    go (ok layer) q =
        let (e, h1) = delete_package io layer h in
        Kept-trans (delete_package-Kept io layer h) (
          answered-Kept layer.title e h1 (λ k. (e, k)) r Kept-refl
            (rw (q, delete_package_manifest) at p))
