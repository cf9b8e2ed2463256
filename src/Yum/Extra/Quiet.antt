-- ===== src/Yum/Extra/Quiet.antt =====
-- The processing of extra metadata while nobody waits for an artifact.
use beskar.Prelude.{String, ◌≡◌, refl, ◌∙◌, ap, none, some, arith}
use beskar.Prelude.Outcome.{Err}
use beskar.Prelude.Result.{Result, ok, err}
use beskar.Repository.Artifacts.{Artifacts}
use beskar.Yum.Handler.{Handler, get_db}
use beskar.Yum.Metadata.{ExtraMetadata}
use beskar.Yum.Manifests.{Layer, Manifest}
use beskar.Yum.Manifests.Quiet.{IsQuiet, Ends, answer_unheard}
use beskar.Yum.Extra.{
  ExtraIo, get_layer_filter, add_extra_to_database, remove_extra_from_database, store_metadata,
  reject_metadata, process_metadata_manifest, delete_metadata_manifest,
}

module _ (io : ExtraIo) where
  add_extra_to_database-artifacts :
      (extra : ExtraMetadata) (h : Handler)
      → (add_extra_to_database io extra h).1.artifacts ≡ h.artifacts
  unfolding add_extra_to_database get_db
  add_extra_to_database-artifacts extra h = ground arith

  remove_extra_from_database-artifacts :
      (data_type : String) (h : Handler)
      → (remove_extra_from_database io data_type h).1.artifacts ≡ h.artifacts
  unfolding remove_extra_from_database get_db
  remove_extra_from_database-artifacts data_type h = ground arith

  store_metadata-artifacts :
      (layer : Layer) (data_type : String) (h : Handler)
      → (store_metadata io layer data_type h).1.artifacts ≡ h.artifacts
  unfolding store_metadata
  store_metadata-artifacts layer data_type h = grind (arith, add_extra_to_database-artifacts)

reject_metadata-artifacts :
    (digest : String) (e : Err) (h : Handler) → (reject_metadata digest e h).artifacts ≡ h.artifacts
unfolding reject_metadata
reject_metadata-artifacts digest none h = refl
reject_metadata-artifacts digest (some e) h = refl

-- A handler with the same waiters.
IsQuiet-same : (h k : Handler) → k.artifacts ≡ h.artifacts → IsQuiet h → IsQuiet k
IsQuiet-same h k e q = ap (λ (a : Artifacts). a.sync_artifacts) e ∙ q

pub process_metadata_manifest-Ends :
    (io : ExtraIo) (m : Manifest) (digest : String) (h : Handler)
    → IsQuiet h
    → Ends (process_metadata_manifest io m digest h)
unfolding process_metadata_manifest
process_metadata_manifest-Ends io m digest h q = go (get_layer_filter io.data_type_of m.layers) refl
  where
    go :
        (l : Result (Layer × String))
        → get_layer_filter io.data_type_of m.layers ≡ l
        → Ends (process_metadata_manifest io m digest h)
    go (err e) p = (
      (some e, reject_metadata digest (some e) h),
      rw (p, process_metadata_manifest),
      IsQuiet-same h (reject_metadata digest (some e) h)
          (reject_metadata-artifacts digest (some e) h) q,
    )
    go (ok (layer, data_type)) p =
        let (e, h1) = store_metadata io layer data_type h in
        let q1 : IsQuiet h1 = IsQuiet-same h h1 (store_metadata-artifacts io layer data_type h) q in
        (
          (e, reject_metadata digest e h1),
          rw (p, process_metadata_manifest, answer_unheard layer.title e h1 q1),
          IsQuiet-same h1 (reject_metadata digest e h1) (reject_metadata-artifacts digest e h1) q1,
        )

pub delete_metadata_manifest-Ends :
    (io : ExtraIo) (m : Manifest) (h : Handler) → IsQuiet h → Ends (delete_metadata_manifest io m h)
unfolding delete_metadata_manifest
delete_metadata_manifest-Ends io m h q = go (get_layer_filter io.data_type_of m.layers) refl
  where
    go :
        (l : Result (Layer × String))
        → get_layer_filter io.data_type_of m.layers ≡ l
        → Ends (delete_metadata_manifest io m h)
    go (err e) p = ((some e, h), rw (p, delete_metadata_manifest), q)
    go (ok (layer, data_type)) p =
        let (e, h1) = remove_extra_from_database io data_type h in
        let q1 : IsQuiet h1 =
          IsQuiet-same h h1 (remove_extra_from_database-artifacts io data_type h) q in
        ((e, h1), rw (p, delete_metadata_manifest, answer_unheard layer.title e h1 q1), q1)
