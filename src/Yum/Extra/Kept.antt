-- ===== src/Yum/Extra/Kept.antt =====
-- What the processing of extra metadata leaves alone.
use beskar.Prelude.{String, ◌≡◌, refl, none, some, arith}
use beskar.Prelude.Outcome.{done, Err, done-injective}
use beskar.Prelude.Result.{Result, ok, err}
use mathlib.Core.Path.{subst}
use beskar.Yum.Handler.{Handler}
use beskar.Yum.Metadata.{ExtraMetadata}
use beskar.Yum.Manifests.{Layer, Manifest}
use beskar.Yum.Manifests.Kept.{Kept, Kept-refl, Kept-trans, answered-Kept}
use beskar.Yum.Extra.{
  ExtraIo, get_layer_filter, add_extra_to_database, remove_extra_from_database, store_metadata,
  reject_metadata, process_metadata_manifest, delete_metadata_manifest,
}

module _ (io : ExtraIo) where
  add_extra_to_database-Kept :
      (extra : ExtraMetadata) (h : Handler) → Kept h (add_extra_to_database io extra h).1
  unfolding add_extra_to_database
  add_extra_to_database-Kept extra h = ground arith

  remove_extra_from_database-Kept :
      (data_type : String) (h : Handler) → Kept h (remove_extra_from_database io data_type h).1
  unfolding remove_extra_from_database
  remove_extra_from_database-Kept data_type h = ground arith

  store_metadata-Kept :
      (layer : Layer) (data_type : String) (h : Handler)
      → Kept h (store_metadata io layer data_type h).1
  unfolding store_metadata
  store_metadata-Kept layer data_type h = grind (arith, add_extra_to_database-Kept)

reject_metadata-Kept :
    (digest : String) (e : Err) (h : Handler) → Kept h (reject_metadata digest e h)
unfolding reject_metadata
reject_metadata-Kept digest none h = Kept-refl h
reject_metadata-Kept digest (some e) h = ground arith

-- A processed manifest of extra metadata leaves the status database, the queue and the configuration
-- as they were.
pub process_metadata_manifest-Kept :
    (io : ExtraIo) (m : Manifest) (digest : String) (h : Handler) (r : Err × Handler)
    → process_metadata_manifest io m digest h ≡ done r
    → Kept h r.1
unfolding process_metadata_manifest
process_metadata_manifest-Kept io m digest h r p =
    go (get_layer_filter io.data_type_of m.layers) refl
  where
    go : (l : Result (Layer × String)) → get_layer_filter io.data_type_of m.layers ≡ l → Kept h r.1
    go (err e) q =
        subst (λ (x : Err × Handler). Kept h x.1)
          (done-injective (rw (q, process_metadata_manifest) at p))
          (reject_metadata-Kept digest (some e) h)
    go (ok (layer, data_type)) q =
        let (e, h1) = store_metadata io layer data_type h in
        Kept-trans (store_metadata-Kept io layer data_type h) (
          answered-Kept layer.title e h1 (λ k. (e, reject_metadata digest e k)) r
            (reject_metadata-Kept digest e) (rw (q, process_metadata_manifest) at p))

pub delete_metadata_manifest-Kept :
    (io : ExtraIo) (m : Manifest) (h : Handler) (r : Err × Handler)
    → delete_metadata_manifest io m h ≡ done r
    → Kept h r.1
unfolding delete_metadata_manifest
delete_metadata_manifest-Kept io m h r p = go (get_layer_filter io.data_type_of m.layers) refl
  where
    go : (l : Result (Layer × String)) → get_layer_filter io.data_type_of m.layers ≡ l → Kept h r.1
    go (err e) q =
        subst (λ (x : Err × Handler). Kept h x.1)
          (done-injective (rw (q, delete_metadata_manifest) at p)) (Kept-refl h)
    go (ok (layer, data_type)) q =
        let (e, h1) = remove_extra_from_database io data_type h in
        Kept-trans (remove_extra_from_database-Kept io data_type h) (
          answered-Kept layer.title e h1 (λ k. (e, k)) r Kept-refl
            (rw (q, delete_metadata_manifest) at p))
