-- ===== src/Yum/Api/Deleting/Flag.antt =====
-- What a deletion leaves of the handler.
use beskar.Prelude.{
  ℕ, ◌≡◌, refl, ◌∙◌, sym, ap, Bool, true, false, Option, none, some, [], ◌∷◌, arith, ltb, length,
  Bool-cases, Option-cases, inl, inr,
}
use beskar.Prelude.Dict.{Dict}
use beskar.Prelude.Outcome.{done, >>=-eq-done, Err}
use beskar.Prelude.Result.{ok, Result-cases}
use beskar.Repository.Queue.{started}
use beskar.Repository.Artifacts.{sync_artifact_reset}
use beskar.Yum.Sql.{Io, count_rows}
use beskar.Yum.Status.{get_properties}
use beskar.Yum.Packages.{RepositoryPackage, count_packages}
use beskar.Yum.Handler.{Handler, repository, status, get_db}
use beskar.Yum.Api.{ApiErr}
use beskar.Yum.Api.Removal.{Registry}
use beskar.Yum.Api.Removal.Outcomes.{get_db-packages}
use beskar.Yum.Api.Deleting.{
  DeleteIo, delete_packages, delete_created, finish_delete, delete_started, delete_repository,
}

finish_delete-error :
    (io : DeleteIo) (r : Option ApiErr × Handler) (e : ApiErr) (k : Handler)
    → finish_delete io r ≡ done (some e, k)
    → k.delete ≡ false
unfolding finish_delete
finish_delete-error io (some x, h) e k p =
    let (a, q, s) = >>=-eq-done (sync_artifact_reset h.artifacts) _ p in ground (arith, s)
finish_delete-error io (none, h) e k p =
    let (a, q, s) = >>=-eq-done (sync_artifact_reset h.artifacts) _ p in
    let (b, t, u) = >>=-eq-done (io.stopped _) _ s in absurd (ground (arith, u))

finish_delete-ok :
    (io : DeleteIo) (r : Option ApiErr × Handler) (k : Handler)
    → finish_delete io r ≡ done (none, k)
    → r.0 ≡ none
unfolding finish_delete
finish_delete-ok io (some x, h) k p =
    let (a, q, s) = >>=-eq-done (sync_artifact_reset h.artifacts) _ p in absurd (ground (arith, s))
finish_delete-ok io (none, h) k p = refl

length-none : (rows : Dict RepositoryPackage) → ltb 0 (length rows) ≡ false → rows ≡ []
length-none [] h = refl
length-none (x ∷ rows) h = absurd (ground (arith, h))

count_packages-ok :
    (io : Io) (rows : Dict RepositoryPackage) (n : ℕ)
    → count_packages io rows ≡ ok n
    → n ≡ length rows
unfolding count_packages count_rows
count_packages-ok io rows n h = ground arith

-- Without the flag the packages are counted, and none may be there.
delete_packages-none :
    (r : Registry) (io : DeleteIo) (h k : Handler)
    → delete_packages r io false h ≡ done (none, k)
    → h.packages ≡ []
unfolding delete_packages
delete_packages-none r io h k p =
    let g : Err × Handler = get_db repository (io.opening repository) h in
    elim (Option-cases g.0) [
      | inr (x, n) ↦ absurd (ground (arith, n, p))
      | inl n ↦ elim (Result-cases (count_packages io.count g.1.packages)) [
        | inr (x, q) ↦ absurd (ground (arith, n, q, p))
        | inl (c, q) ↦ elim (Bool-cases (ltb 0 c)) [
          | inl b ↦ absurd (ground (arith, n, q, b, p))
          | inr b ↦
              sym (get_db-packages repository (io.opening repository) h)
              ∙ length-none g.1.packages
                  (ap (ltb 0) (sym (count_packages-ok io.count g.1.packages c q)) ∙ b)
        ]
      ]
    ]

delete_created-none :
    (r : Registry) (io : DeleteIo) (h k : Handler)
    → delete_created r io false h ≡ done (none, k)
    → h.packages ≡ []
unfolding delete_created
delete_created-none r io h k p =
    let g : Err × Handler = get_db status (io.opening status) h in
    elim (Option-cases g.0) [
      | inr (x, n) ↦ absurd (ground (arith, n, p))
      | inl n ↦ elim (Result-cases (get_properties io.get g.1.status_db)) [
        | inr (x, q) ↦ absurd (ground (arith, n, q, p))
        | inl (c, q) ↦ elim (Bool-cases c.created) [
          | inr b ↦ absurd (ground (arith, n, q, b, p))
          | inl b ↦
              sym (get_db-packages status (io.opening status) h)
              ∙ delete_packages-none r io g.1 k (ground (arith, n, q, b, p))
        ]
      ]
    ]

delete_started-error :
    (r : Registry) (io : DeleteIo) (packages : Bool) (h k : Handler) (e : ApiErr)
    → h.delete ≡ false
    → delete_started r io packages h ≡ done (some e, k)
    → k.delete ≡ false
unfolding delete_started
delete_started-error r io packages h k e d p = elim (Bool-cases h.syncing) [
  | inl s ↦ ground (arith, s, p)
  | inr s ↦
      let (a, q, t) =
        >>=-eq-done (delete_created r io packages (record h { delete = true })) (finish_delete io)
          {b = (some e, k)} (ground (arith, s, d, p)) in
      finish_delete-error io a e k t
]

delete_started-none :
    (r : Registry) (io : DeleteIo) (h k : Handler)
    → delete_started r io false h ≡ done (none, k)
    → h.packages ≡ []
unfolding delete_started
delete_started-none r io h k p = elim (Bool-cases h.syncing) [
  | inl s ↦ absurd (ground (arith, s, p))
  | inr s ↦ elim (Bool-cases h.delete) [
    | inl d ↦ absurd (ground (arith, s, d, p))
    | inr d ↦
        let (a, q, t) =
          >>=-eq-done (delete_created r io false (record h { delete = true })) (finish_delete io)
            {b = (none, k)} (ground (arith, s, d, p)) in
        delete_created-none r io (record h { delete = true }) a.1
          (q ∙ ap (λ x. done (x, a.1)) (finish_delete-ok io a k t))
  ]
]

-- A call of `DeleteRepository` on a repository that is not being deleted leaves it open to further
-- calls when it reports an error; when it reports none and was not told to delete the packages, the
-- repository had no package.
pub delete_repository_lem :
    (r : Registry) (io : DeleteIo) (packages : Bool) (h k : Handler) (e : Option ApiErr)
    → h.delete ≡ false
    → delete_repository r io packages h ≡ done (e, k)
    → ((x : ApiErr) → e ≡ some x → k.delete ≡ false)
      × (e ≡ none → packages ≡ false → h.packages ≡ [])
unfolding delete_repository
delete_repository_lem r io packages h k e d p =
    let (a, q, t) = >>=-eq-done (started h.repo) _ {b = (e, k)} p in
    let h1 : Handler = record h { repo = a.1 } in
    elim (Bool-cases a.0) [
      | inl s ↦ (
        λ x z. delete_started-error r io packages h1 k x d (ground (arith, s, t, z)),
        λ z y. delete_started-none r io h1 k (ground (arith, s, t, z, y)),
      )
      | inr s ↦ (λ x z. ground (arith, s, t, d), λ z y. absurd (ground (arith, s, t, z)))
    ]
