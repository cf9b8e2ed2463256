-- ===== src/Yum/Manifests/Quiet.antt =====
-- The processing of packages while nobody waits for an artifact: no answer can block, so it ends.
use beskar.Prelude.{String, ◌≡◌, refl, ◌∙◌, ap, none, some, [], arith}
use beskar.Prelude.Dict
use beskar.Prelude.Outcome.{Outcome, done, Err}
use beskar.Prelude.Result.{Result, ok, err}
use beskar.Yum.Handler.{Handler, get_db}
use beskar.Yum.Packages.{RepositoryPackage}
use beskar.Yum.Metadata.{PackageMetadata}
use beskar.Repository.Artifacts.{Artifacts, sync_artifact_result}
use beskar.Yum.Manifests.{
  Layer, Manifest, PackageIo, get_layer, rpm_package_layer_type, add_to_metadata, add_to_repository,
  remove_from_metadata, remove_from_repository, store_package, answer, reject,
  process_package_manifest, delete_package, delete_package_manifest,
}

-- No waiter is registered.
abbrev pub IsQuiet : Handler → Type 0
IsQuiet h = h.artifacts.sync_artifacts ≡ []

-- An operation that ends, with no waiter registered by it.
abbrev pub Ends : Outcome (Err × Handler) → Type 0
Ends o = (r : Err × Handler) × (o ≡ done r) × IsQuiet r.1

module _ (io : PackageIo) where
  add_to_metadata-artifacts :
      (pkg : PackageMetadata) (h : Handler) → (add_to_metadata io pkg h).1.artifacts ≡ h.artifacts
  unfolding add_to_metadata get_db
  add_to_metadata-artifacts pkg h = ground arith

  add_to_repository-artifacts :
      (pkg : RepositoryPackage) (h : Handler)
      → (add_to_repository io pkg h).1.artifacts ≡ h.artifacts
  unfolding add_to_repository get_db
  add_to_repository-artifacts pkg h = ground arith

  remove_from_metadata-artifacts :
      (id : String) (h : Handler) → (remove_from_metadata io id h).1.artifacts ≡ h.artifacts
  unfolding remove_from_metadata get_db
  remove_from_metadata-artifacts id h = ground arith

  remove_from_repository-artifacts :
      (id : String) (h : Handler) → (remove_from_repository io id h).1.artifacts ≡ h.artifacts
  unfolding remove_from_repository get_db
  remove_from_repository-artifacts id h = ground arith

  store_package-artifacts :
      (layer : Layer) (h : Handler) → (store_package io layer h).1.artifacts ≡ h.artifacts
  unfolding store_package
  store_package-artifacts layer h =
      grind (arith, add_to_metadata-artifacts, add_to_repository-artifacts)

  delete_package-artifacts :
      (layer : Layer) (h : Handler) → (delete_package io layer h).1.artifacts ≡ h.artifacts
  unfolding delete_package
  delete_package-artifacts layer h =
      grind (arith, remove_from_metadata-artifacts, remove_from_repository-artifacts)

result_unheard :
    (name : String) (e : Err) (st : Artifacts)
    → st.sync_artifacts ≡ []
    → sync_artifact_result name e st ≡ done st
unfolding sync_artifact_result Dict.lookup
result_unheard name e st q =
    let absent : Dict.lookup name st.sync_artifacts ≡ none = ap (Dict.lookup name) q in
    rw (absent, sync_artifact_result)

pub answer_unheard : (name : String) (e : Err) (h : Handler) → IsQuiet h → answer name e h ≡ done h
unfolding answer
answer_unheard name e h q = rw (result_unheard name e h.artifacts q)

reject-artifacts :
    (digest : String) (e : Err) (h : Handler) → (reject digest e h).artifacts ≡ h.artifacts
unfolding reject
reject-artifacts digest none h = refl
reject-artifacts digest (some e) h = refl

pub process_package_manifest-Ends :
    (io : PackageIo) (m : Manifest) (digest : String) (h : Handler)
    → IsQuiet h
    → Ends (process_package_manifest io m digest h)
unfolding process_package_manifest
process_package_manifest-Ends io m digest h q = go (get_layer m.layers rpm_package_layer_type) refl
  where
    go :
        (l : Result Layer)
        → get_layer m.layers rpm_package_layer_type ≡ l
        → Ends (process_package_manifest io m digest h)
    go (err e) p = (
      (some e, reject digest (some e) h),
      rw (p, process_package_manifest),
      ap (λ (a : Artifacts). a.sync_artifacts) (reject-artifacts digest (some e) h) ∙ q,
    )
    go (ok layer) p =
        let (e, h1) = store_package io layer h in
        let q1 : IsQuiet h1 =
          ap (λ (a : Artifacts). a.sync_artifacts) (store_package-artifacts io layer h) ∙ q in
        (
          (e, reject digest e h1),
          rw (p, process_package_manifest, answer_unheard layer.title e h1 q1),
          ap (λ (a : Artifacts). a.sync_artifacts) (reject-artifacts digest e h1) ∙ q1,
        )

pub delete_package_manifest-Ends :
    (io : PackageIo) (m : Manifest) (h : Handler)
    → IsQuiet h
    → Ends (delete_package_manifest io m h)
unfolding delete_package_manifest
delete_package_manifest-Ends io m h q = go (get_layer m.layers rpm_package_layer_type) refl
  where
    go :
        (l : Result Layer)
        → get_layer m.layers rpm_package_layer_type ≡ l
        → Ends (delete_package_manifest io m h)
    go (err e) p = ((some e, h), rw (p, delete_package_manifest), q)
    go (ok layer) p =
        let (e, h1) = delete_package io layer h in
        let q1 : IsQuiet h1 =
          ap (λ (a : Artifacts). a.sync_artifacts) (delete_package-artifacts io layer h) ∙ q in
        ((e, h1), rw (p, delete_package_manifest, answer_unheard layer.title e h1 q1), q1)
