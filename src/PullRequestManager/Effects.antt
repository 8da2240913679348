-- ===== src/PullRequestManager/Effects.antt =====
-- What the operations of manager-pullrequest.js do, and what its queries find.
use mathlib.Core.List.{Memᴰ}
use ugo.Base.{
  refl, str_eq_refl, subst, ℕ, ◌≡◌, sym, ap, ◌∙◌, inl, inr, String, true, [], ◌∷◌, ◌++◌, Option,
  none, some, if◌then◌else◌, str_eq, str_eq_iff, arith, Option-cases,
}
use ugo.Model.PullRequest.{
  Info, PullRequestDocument, merge, no_info, is_some_text, set_info, info_only, with_sha,
  of_repository,
}
use ugo.Model.Message.{info_set, info_delete}
use ugo.World.{Services, World, fulfilled}
use ugo.PullRequestManager.{
  pull_request_id, set_pull_request_info, get_pull_request_info, get_pull_request_info_by_sha,
  delete_pull_request_info,
}

abbrev pub document_at : (s : Services) → s.PullRequestTable → String → Option PullRequestDocument
document_at s t k = s.pull_request_collection.stored t k

-- What is known of a pull request, if anything.
abbrev pub info_of : Option PullRequestDocument → Option Info
info_of none = none
info_of (some d) = some d.info

abbrev pub known : (s : Services) → World s → String → Option Info
known s w k = info_of (document_at s w.pull_requests k)

abbrev pub or_nothing : Option Info → Info
or_nothing none = no_info
or_nothing (some i) = i

is_some_text-eq : (o : Option String) (s : String) → is_some_text o s ≡ true → o ≡ some s
is_some_text-eq none s h = cc
is_some_text-eq (some r) s h = ap some ((str_eq_iff r s).0 h)

-- What `setPullRequestInfo` leaves in the collection.
abbrev pub with_info : Info → String → String → Option PullRequestDocument → PullRequestDocument
with_info i owner repo old = record {
  owner = some owner;
  repo = some repo;
  info = merge i (or_nothing (info_of old));
}

module _ (s : Services) where
  open s use {pull_request_collection, pull_request_driver, pull_request_queries}

  pub document_at-upsert :
      (k owner repo : String) (i : Info) (t : s.PullRequestTable) (j : String)
      → document_at s (pull_request_collection.upsert_one k (set_info owner repo i) t) j ≡ (
          if str_eq k j
          then some (with_info i owner repo (document_at s t k))
          else document_at s t j)
  document_at-upsert k owner repo i t j = elim (Option-cases (document_at s t k)) [
    | inl absent ↦ rw pull_request_driver.upsert_one-eq (
        ground (
          arith,
          pull_request_driver.stored-write k
              (pull_request_collection.apply (set_info owner repo i) pull_request_collection.blank)
              t j,
          pull_request_queries.apply-set_info owner repo i pull_request_collection.blank,
          pull_request_queries.blank-eq,
        ))
    | inr (d, found) ↦ rw pull_request_driver.upsert_one-eq (
        ground (
          arith,
          pull_request_driver.stored-write k
              (pull_request_collection.apply (set_info owner repo i) d) t j,
          pull_request_queries.apply-set_info owner repo i d,
        ))
  ]

module _ (s : Services) (w : World s) (on : w.online ≡ true) where
  open s use {pull_request_collection, pull_request_driver, pull_request_queries}

  -- Where the database answers, setPullRequestInfo returns what it is given, merges it into what is
  -- stored of the pull request, with the owner and the repository, publishes `info.set`, and
  -- changes no other document.
  pub set_pull_request_info_lem :
      (owner repo : String) (n : ℕ) (i : Info)
      → (t : s.PullRequestTable) × (set_pull_request_info s owner repo n i w
          ≡ fulfilled i (record w {
            pull_requests = t;
            published = w.published ++ info_set owner repo n i ∷ [];
          }))
        × ((j : String)
            → document_at s t j ≡ (
                if str_eq (pull_request_id owner repo n) j
                then some (
                    with_info i owner repo
                      (document_at s w.pull_requests (pull_request_id owner repo n)))
                else document_at s w.pull_requests j))
  unfolding set_pull_request_info
  set_pull_request_info_lem owner repo n i = (
    pull_request_collection.upsert_one (pull_request_id owner repo n) (set_info owner repo i)
        w.pull_requests,
    ground (arith, on),
    document_at-upsert s (pull_request_id owner repo n) owner repo i w.pull_requests,
  )

  pub get_pull_request_info_lem :
      (owner repo : String) (n : ℕ)
      → get_pull_request_info s owner repo n w
        ≡ fulfilled (known s w (pull_request_id owner repo n)) w
  unfolding get_pull_request_info
  get_pull_request_info_lem owner repo n =
      elim (Option-cases (document_at s w.pull_requests (pull_request_id owner repo n))) [
        | inl absent ↦ ground (
          arith,
          on,
          pull_request_driver.find_by_id-eq (pull_request_id owner repo n) info_only
              w.pull_requests,
        )
        | inr (d, found) ↦ ground (
          arith,
          on,
          pull_request_driver.find_by_id-eq (pull_request_id owner repo n) info_only
              w.pull_requests,
          pull_request_queries.project-info_only d,
        )
      ]

  -- Where the database answers, what getPullRequestInfoBySha finds is the information of a stored
  -- document with this owner, repository and commit.
  pub get_pull_request_info_by_sha_sound :
      (owner repo sha : String) (i : Info)
      → get_pull_request_info_by_sha s owner repo sha w ≡ fulfilled (some i) w
      → (k : String) × (d : PullRequestDocument) × (document_at s w.pull_requests k ≡ some d)
        × (d.owner ≡ some owner)
        × (d.repo ≡ some repo)
        × (d.info.sha ≡ some sha)
        × (i ≡ d.info)
  unfolding get_pull_request_info_by_sha
  get_pull_request_info_by_sha_sound owner repo sha i h =
      let (k, d, found, fits, same) =
        pull_request_driver.find_one-some (with_sha owner repo sha) info_only w.pull_requests i
          (ground (arith, on)) in
      let tests = sym (pull_request_queries.satisfies-with_sha owner repo sha d) ∙ fits in
      (
        k,
        d,
        found,
        ground (arith, tests, is_some_text-eq d.owner owner),
        ground (arith, tests, is_some_text-eq d.repo repo),
        ground (arith, tests, is_some_text-eq d.info.sha sha),
        same ∙ pull_request_queries.project-info_only d,
      )

  -- Where the database answers, deletePullRequestInfo deletes the document of the pull request and
  -- no other, and publishes `info.delete`.
  pub delete_pull_request_info_lem :
      (owner repo : String) (n : ℕ)
      → (t : s.PullRequestTable) × (delete_pull_request_info s owner repo n w
          ≡ fulfilled tt (record w {
            pull_requests = t;
            published = w.published ++ info_delete owner repo n ∷ [];
          }))
        × ((j : String)
            → document_at s t j ≡ (
                if str_eq (pull_request_id owner repo n) j
                then none
                else document_at s w.pull_requests j))
  unfolding delete_pull_request_info
  delete_pull_request_info_lem owner repo n = (
    pull_request_collection.delete_one (pull_request_id owner repo n) w.pull_requests,
    ground (arith, on),
    pull_request_driver.stored-delete_one (pull_request_id owner repo n) w.pull_requests,
  )

  -- What is found of a repository: the information of each stored document with this owner and
  -- repository, and of no other.
  pub repository_infos_sound :
      (owner repo : String) (i : Info)
      → Memᴰ i (pull_request_collection.find (of_repository owner repo) info_only w.pull_requests)
      → (k : String) × (d : PullRequestDocument) × (document_at s w.pull_requests k ≡ some d)
        × (d.owner ≡ some owner)
        × (d.repo ≡ some repo)
        × (i ≡ d.info)
  repository_infos_sound owner repo i m =
      let (k, d, found, fits, same) =
        pull_request_driver.find-sound (of_repository owner repo) info_only w.pull_requests i m in
      let tests = sym (pull_request_queries.satisfies-of_repository owner repo d) ∙ fits in
      (
        k,
        d,
        found,
        ground (arith, tests, is_some_text-eq d.owner owner),
        ground (arith, tests, is_some_text-eq d.repo repo),
        same ∙ pull_request_queries.project-info_only d,
      )

  pub repository_infos_complete :
      (owner repo k : String) (d : PullRequestDocument)
      → document_at s w.pull_requests k ≡ some d
      → d.owner ≡ some owner
      → d.repo ≡ some repo
      → Memᴰ d.info
          (pull_request_collection.find (of_repository owner repo) info_only w.pull_requests)
  repository_infos_complete owner repo k d found own of =
      subst
        (λ i.
          Memᴰ i
            (pull_request_collection.find (of_repository owner repo) info_only w.pull_requests))
        (pull_request_queries.project-info_only d)
        (pull_request_driver.find-complete (of_repository owner repo) info_only w.pull_requests k d
          found
          (pull_request_queries.satisfies-of_repository owner repo d
            ∙ rw (own, of, str_eq_refl owner, str_eq_refl repo) refl))
