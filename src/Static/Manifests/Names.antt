-- ===== src/Static/Manifests/Names.antt =====
-- The rows of the files are found by their names.
use beskar.Prelude.{
  String, ◌≡◌, ◌∙◌, ap, none, some, arith, if◌then◌else◌, ◌==◌, eq_refl, Option-cases, inl, inr,
}
use beskar.Prelude.Dict
use beskar.Prelude.Dict.{Dict, lookup-insert, lookup-remove, lookup-remove_self}
use beskar.Prelude.Outcome.{Outcome, done, ◌>>=◌, >>=-eq-done, Err}
use beskar.Prelude.Result.{ok}
use beskar.Repository.Artifacts.{sync_artifact_result}
use beskar.Yum.Sql.{exec_one, exec_delete}
use beskar.Yum.Manifests.{Layer, Manifest, get_layer}
use beskar.Static.Files.{StaticFile, add_file, remove_file}
use beskar.Static.Manifests.{
  StaticHandler, FileIo, static_file_layer_type, add_file_to_database, remove_file_from_database,
  about, answer_file, reject_file, new_file, process_file_manifest, delete_file_manifest,
}

added-files :
    (io : FileIo) (file : StaticFile) (h : StaticHandler)
    → (add_file_to_database io file h).0 ≡ none
    → (add_file_to_database io file h).1.files
      ≡ Dict.insert (io.md5_hex file.name) (record file { tag = io.md5_hex file.name }) h.files
unfolding add_file_to_database add_file exec_one
added-files io file h p = ground arith

removed-files :
    (io : FileIo) (name : String) (h : StaticHandler)
    → (remove_file_from_database io name h).0 ≡ none
    → (remove_file_from_database io name h).1.files ≡ Dict.remove (io.md5_hex name) h.files
unfolding remove_file_from_database remove_file exec_delete
removed-files io name h p = ground arith

answer_file-files :
    (name : String) (e : Err) (h k : StaticHandler)
    → answer_file name e h ≡ done k
    → k.files ≡ h.files
unfolding answer_file
answer_file-files name e h k p =
    let (a, q, s) = >>=-eq-done (sync_artifact_result name e h.artifacts) _ p in ground (arith, s)

reject-files :
    (layer : Layer) (e : Err) (h : StaticHandler) → (reject_file layer e h).files ≡ h.files
unfolding reject_file
reject-files layer e h = ground arith

process_file-lookup :
    (io : FileIo) (m : Manifest) (layer : Layer) (h k : StaticHandler) (tag : String)
    → get_layer m.layers static_file_layer_type ≡ ok layer
    → process_file_manifest io m h ≡ done (none, k)
    → Dict.lookup tag k.files ≡ (
        if io.md5_hex layer.title == tag then some (new_file io layer) else Dict.lookup tag h.files)
unfolding process_file_manifest new_file
process_file-lookup io m layer h k tag l p =
    let a : Err × StaticHandler = add_file_to_database io (new_file io layer) h in
    let failed = about "while adding file " layer.title " to repository database: " a.0 in
    let last : StaticHandler → Outcome (Err × StaticHandler) =
      λ h2. done (failed, reject_file layer failed h2) in
    let whole : (answer_file layer.title failed a.1 >>= last) ≡ done (none, k) =
      ground (arith, l, p) in
    let (b, q, s) = >>=-eq-done (answer_file layer.title failed a.1) last whole in
    elim (Option-cases a.0) [
      | inr (x, n) ↦ absurd (ground (arith, s, n))
      | inl n ↦
          let k_is : k ≡ reject_file layer failed b = ground (arith, s) in
          let same : k.files ≡ b.files = ap (λ x. x.files) k_is ∙ reject-files layer failed b in
          ap (Dict.lookup tag) (
            same
            ∙ answer_file-files layer.title failed a.1 b q
            ∙ added-files io (new_file io layer) h n)
          ∙ lookup-insert (io.md5_hex layer.title) tag (new_file io layer) h.files
    ]

delete_file-lookup :
    (io : FileIo) (m : Manifest) (layer : Layer) (h k : StaticHandler)
    → get_layer m.layers static_file_layer_type ≡ ok layer
    → delete_file_manifest io m h ≡ done (none, k)
    → Dict.lookup (io.md5_hex layer.title) k.files ≡ none
unfolding delete_file_manifest
delete_file-lookup io m layer h k l p =
    let a : Err × StaticHandler = remove_file_from_database io layer.title h in
    let failed = about "while removing file " layer.title " from metadata database: " a.0 in
    let last : StaticHandler → Outcome (Err × StaticHandler) = λ h2. done (failed, h2) in
    let whole : (answer_file layer.title failed a.1 >>= last) ≡ done (none, k) =
      ground (arith, l, p) in
    let (b, q, s) = >>=-eq-done (answer_file layer.title failed a.1) last whole in
    elim (Option-cases a.0) [
      | inr (x, n) ↦ absurd (ground (arith, s, n))
      | inl n ↦
          let k_is : k ≡ b = ground (arith, s) in
          let same : k.files ≡ b.files = ap (λ x. x.files) k_is in
          ap (Dict.lookup (io.md5_hex layer.title))
            (same ∙ answer_file-files layer.title failed a.1 b q ∙ removed-files io layer.title h n)
          ∙ lookup-remove_self (io.md5_hex layer.title) h.files
    ]

-- When the manifest of a file has been processed, and then the deletion of another manifest with the
-- same file name, both without an error, the first file was found under its tag and no file is found
-- there any more, whichever content the deleted manifest had.
pub delete_older_lost :
    (io : FileIo) (newer older : Manifest) (file old : Layer) (h h1 h2 : StaticHandler)
    → get_layer newer.layers static_file_layer_type ≡ ok file
    → get_layer older.layers static_file_layer_type ≡ ok old
    → file.title ≡ old.title
    → process_file_manifest io newer h ≡ done (none, h1)
    → delete_file_manifest io older h1 ≡ done (none, h2)
    → (Dict.lookup (io.md5_hex file.title) h1.files ≡ some (new_file io file))
      × (Dict.lookup (io.md5_hex file.title) h2.files ≡ none)
delete_older_lost io newer older file old h h1 h2 f o t p d = (
  ground (
    arith,
    process_file-lookup io newer file h h1 (io.md5_hex file.title) f p,
    eq_refl (io.md5_hex file.title),
  ),
  ap (λ x. Dict.lookup (io.md5_hex x) h2.files) t ∙ delete_file-lookup io older old h1 h2 o d,
)
