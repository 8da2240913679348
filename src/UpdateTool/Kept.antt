-- ===== src/UpdateTool/Kept.antt =====
-- tools/updatePullRequestInfo.js: what the tool leaves as it was, and how often it asks GitHub.
use ugo.Base.{
  ℕ, ◌≡◌, refl, ◌∙◌, ◌⊎◌, inl, inr, String, List, [], ◌∷◌, Option, none, some, arith, Bool-cases,
  Option-cases, str_eq, str_eq_iff,
}
use ugo.Model.Event.{PullRequest}
use ugo.Model.PullRequest.{Info, PullRequestDocument, set_info, with_branch, merge}
use ugo.World.{Services, World, Promise, fulfilled}
use ugo.Promise.{world_of, ◌>>=◌, ◌>>◌, resolve, get_collection, all_of}
use ugo.Keeps.{Keeps, AllKeep, Keeps-then, Keeps-all_of}
use ugo.GitHub.Accounts.{get_pull_request_from_github}
use ugo.PullRequestManager.{set_pull_request_info, pull_request_id}
use ugo.PullRequestManager.Effects.{known, info_of, or_nothing, document_at, document_at-upsert}
use ugo.UpdateTool.{
  Variables, Branch, refreshed, refresh, refresh_each, refresh_branch, update, asked_branch,
}

-- The commit and the status of what is known of a pull request.
abbrev pub sha_of : Option Info → Option String
sha_of none = none
sha_of (some i) = i.sha

abbrev pub status_of : Option Info → Option String
status_of none = none
status_of (some i) = i.status

module _ {s : Services} where
  pub record SameStatuses (w w' : World s) : Type 0 where
    pub queues : w'.queues ≡ w.queues
    pub shas : (k : String) → sha_of (known s w' k) ≡ sha_of (known s w k)
    pub statuses : (k : String) → status_of (known s w' k) ≡ status_of (known s w k)

  SameStatuses-refl : (w : World s) → SameStatuses w w
  SameStatuses-refl w = record { queues = refl; shas = λ k. refl; statuses = λ k. refl }

  SameStatuses-trans : (u v w : World s) → SameStatuses u v → SameStatuses v w → SameStatuses u w
  SameStatuses-trans u v w h k = record {
    queues = k.queues ∙ h.queues;
    shas = λ j. k.shas j ∙ h.shas j;
    statuses = λ j. k.statuses j ∙ h.statuses j;
  }

  SameStatuses-same :
      (w w' : World s)
      → w'.queues ≡ w.queues
      → w'.pull_requests ≡ w.pull_requests
      → SameStatuses w w'
  SameStatuses-same w w' q p = record {
    queues = q;
    shas = λ k. rw p refl;
    statuses = λ k. rw p refl;
  }

module _ (s : Services) where
  Keeps-then_same :
      {A B : Type 0} (m : Promise s A) (f : A → Promise s B)
      → Keeps SameStatuses m
      → ((a : A) → Keeps SameStatuses (f a))
      → Keeps SameStatuses (m >>= f)
  Keeps-then_same = Keeps-then SameStatuses SameStatuses-trans

  Keeps-asking :
      (owner repo : Option String) (n i : Option ℕ)
      → Keeps SameStatuses (get_pull_request_from_github s owner repo n i)
  unfolding get_pull_request_from_github
  Keeps-asking owner repo n i w = SameStatuses-same w _ (ground arith) (ground arith)

  -- The collection after a write, with and without a database.
  stored_cases :
      (owner repo : String) (n : ℕ) (i : Info) (w : World s)
      → let after = (world_of (set_pull_request_info s owner repo n i w)).pull_requests in
        (after ≡ w.pull_requests)
        ⊎ (after
            ≡ s.pull_request_collection.upsert_one
                (pull_request_id owner repo n)
                (set_info owner repo i)
                w.pull_requests)
  unfolding set_pull_request_info
  stored_cases owner repo n i w = elim (Bool-cases w.online) [
    | inl on ↦ inr (ground (arith, on))
    | inr off ↦ inl (ground (arith, off))
  ]

  queues-set_info :
      (owner repo : String) (n : ℕ) (i : Info) (w : World s)
      → (world_of (set_pull_request_info s owner repo n i w)).queues ≡ w.queues
  unfolding set_pull_request_info
  queues-set_info owner repo n i w = ground arith

  -- What is known under any key after a write without commit and status.
  fields-upsert :
      (owner repo : String) (n : ℕ) (i : Option ℕ) (p : PullRequest) (t : s.PullRequestTable)
      (k : String)
      → let after = info_of (
          document_at s
            (s.pull_request_collection.upsert_one
              (pull_request_id owner repo n)
              (set_info owner repo (refreshed i p))
              t)
            k) in
        (sha_of after ≡ sha_of (info_of (document_at s t k)))
        × (status_of after ≡ status_of (info_of (document_at s t k)))
  unfolding merge
  fields-upsert owner repo n i p t k = elim (Bool-cases (str_eq (pull_request_id owner repo n) k)) [
    | inl here ↦
        let same = (str_eq_iff (pull_request_id owner repo n) k).0 here in
        rw (document_at-upsert s (pull_request_id owner repo n) owner repo (refreshed i p) t k)
          (rw (here, same) (left_alone (document_at s t k)))
    | inr other ↦
        rw (document_at-upsert s (pull_request_id owner repo n) owner repo (refreshed i p) t k)
          (rw other (refl, refl))
  ]
    where
      left_alone :
          (o : Option PullRequestDocument)
          → (sha_of (some (merge (refreshed i p) (or_nothing (info_of o)))) ≡ sha_of (info_of o))
            × (status_of (some (merge (refreshed i p) (or_nothing (info_of o))))
                ≡ status_of (info_of o))
      left_alone none = (refl, refl)
      left_alone (some d) = (refl, refl)

  Keeps-storing :
      (owner repo : String) (n : ℕ) (i : Option ℕ) (p : PullRequest)
      → Keeps SameStatuses (set_pull_request_info s owner repo n (refreshed i p))
  Keeps-storing owner repo n i p w = elim (stored_cases owner repo n (refreshed i p) w) [
    | inl same ↦ SameStatuses-same w _ (queues-set_info owner repo n (refreshed i p) w) same
    | inr written ↦ record {
      queues = queues-set_info owner repo n (refreshed i p) w;
      shas = λ k. rw written (fields-upsert owner repo n i p w.pull_requests k).0;
      statuses = λ k. rw written (fields-upsert owner repo n i p w.pull_requests k).1;
    }
  ]

  abbrev found : Branch → Promise s (List PullRequestDocument)
  found b w =
      fulfilled
        (s.pull_request_collection.find_documents (with_branch b.owner b.repo b.branch)
          w.pull_requests)
        w

  Keeps-refresh : (d : PullRequestDocument) → Keeps SameStatuses (refresh s d)
  unfolding refresh
  Keeps-refresh d =
      Keeps-then_same
        (get_pull_request_from_github s d.owner d.repo d.info.pull_request_number
          d.info.installation_id)
        (λ p. store p >> resolve tt)
        (Keeps-asking d.owner d.repo d.info.pull_request_number d.info.installation_id)
        (λ p.
          Keeps-then_same (store p) (λ _. resolve tt)
            (Keeps-storing p.base_owner p.base_repo p.number d.info.installation_id p)
            (λ _. SameStatuses-refl))
    where
      store : PullRequest → Promise s Info
      store p =
          set_pull_request_info s p.base_owner p.base_repo p.number
            (refreshed d.info.installation_id p)

  AllKeep-refresh_each : (ds : List PullRequestDocument) → AllKeep SameStatuses (refresh_each s ds)
  AllKeep-refresh_each [] = tt
  AllKeep-refresh_each (d ∷ ds) = (Keeps-refresh d, AllKeep-refresh_each ds)

  Keeps-get_collection : Keeps {s = s} SameStatuses get_collection
  Keeps-get_collection w = SameStatuses-same w _ (ground arith) (ground arith)

  Keeps-refresh_branch : (b : Branch) → Keeps SameStatuses (refresh_branch s b)
  unfolding refresh_branch
  Keeps-refresh_branch b =
      Keeps-then_same get_collection (λ _. found b >>= λ ds. all_of (refresh_each s ds))
        Keeps-get_collection
        (λ _.
          Keeps-then_same (found b) (λ ds. all_of (refresh_each s ds)) SameStatuses-refl
            (λ ds.
              Keeps-all_of SameStatuses SameStatuses-trans SameStatuses-refl (refresh_each s ds)
                (AllKeep-refresh_each ds)))

  -- Whatever the variables are, whatever GitHub answers and whether the database answers or not,
  -- the tool changes no queue, and no commit and no status of what is known of any pull request.
  pub update-SameStatuses : (v : Variables) (w : World s) → SameStatuses w (world_of (update s v w))
  unfolding update
  update-SameStatuses v w = elim (Option-cases (asked_branch v)) [
    | inl missing ↦ rw (missing, update) (SameStatuses-refl w)
    | inr (b, asked) ↦ rw (asked, update) (Keeps-refresh_branch b w)
  ]
