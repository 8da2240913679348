-- ===== src/UpdateTool/Asked.antt =====
-- tools/updatePullRequestInfo.js: what GitHub is asked, and what becomes of its answer.
use ugo.Base.{
  ℕ, ◌+◌, ◌*◌, ◌≤◌, ◌≡◌, refl, ap, suc, Bool-cases, inl, inr, String, true, List, [], ◌∷◌, ◌++◌,
  Option, some, arith, length, str_eq, if◌then◌else◌,
}
use ugo.Model.Event.{PullRequest}
use ugo.Model.Http.{Request, Response, access_tokens, get_pull_request}
use ugo.Model.PullRequest.{PullRequestDocument, merge, with_branch}
use ugo.World.{Services, World, fulfilled}
use ugo.Promise.{world_of, ◌>>=◌, ◌>>◌, resolve, all_of, send}
use ugo.Requests.{AtMost, AtMost-then, AtMost-quiet, AtMost-send, AllAtMost, AtMost-all_of}
use ugo.GitHub.{authorization, shown, shown_number, get_installation_access_token}
use ugo.GitHub.Accounts.{get_pull_request_from_github, pull_request_of}
use ugo.PullRequestHandler.Bounds.{requests-get_token}
use ugo.PullRequestManager.{set_pull_request_info, pull_request_id}
use ugo.PullRequestManager.Effects.{known, or_nothing, set_pull_request_info_lem}
use ugo.UpdateTool.{Branch, refreshed, refresh, refresh_each, refresh_branch}

module _ (s : Services) where
  requests-asking :
      (owner repo : Option String) (n i : Option ℕ)
      → AtMost 2 (get_pull_request_from_github s owner repo n i)
  unfolding get_pull_request_from_github
  requests-asking owner repo n i =
      AtMost-then 1 1 (get_installation_access_token s i)
        (λ token. send (asked token) >>= λ r. pull_request_of s r.pull_request)
        (requests-get_token s i)
        (λ token.
          AtMost-then 1 0 (send (asked token)) (λ r. pull_request_of s r.pull_request)
            (AtMost-send (λ _. asked token))
            (λ r. AtMost-quiet (pull_request_of s r.pull_request) (λ w. ground arith)))
    where
      asked : Option String → Request
      asked token =
          get_pull_request (authorization s token) (shown owner) (shown repo) (shown_number n)

  quiet-storing :
      (d : PullRequestDocument) (p : PullRequest)
      → AtMost 0 (
          set_pull_request_info s p.base_owner p.base_repo p.number
            (refreshed d.info.installation_id p)
          >> resolve tt)
  unfolding set_pull_request_info
  quiet-storing d p =
      AtMost-quiet
        (set_pull_request_info s p.base_owner p.base_repo p.number
            (refreshed d.info.installation_id p)
          >> resolve tt)
        (λ w. ground arith)

  requests-refresh : (d : PullRequestDocument) → AtMost 2 (refresh s d)
  unfolding refresh
  requests-refresh d =
      AtMost-then 2 0
        (get_pull_request_from_github s d.owner d.repo d.info.pull_request_number
          d.info.installation_id)
        _ (requests-asking d.owner d.repo d.info.pull_request_number d.info.installation_id)
        (quiet-storing d)

  requests-refresh_each : (ds : List PullRequestDocument) → AllAtMost 2 (refresh_each s ds)
  requests-refresh_each [] = tt
  requests-refresh_each (d ∷ ds) = (requests-refresh d, requests-refresh_each ds)

  length-refresh_each : (ds : List PullRequestDocument) → length (refresh_each s ds) ≡ length ds
  length-refresh_each [] = refl
  length-refresh_each (d ∷ ds) = ap suc (length-refresh_each ds)

  abbrev pub on_branch : Branch → World s → List PullRequestDocument
  on_branch b w =
      s.pull_request_collection.find_documents (with_branch b.owner b.repo b.branch) w.pull_requests

  -- Whatever GitHub answers, the tool sends at most two requests for each pull request that is
  -- stored of the branch.
  pub requests-refresh_branch :
      (b : Branch) (w : World s)
      → length (world_of (refresh_branch s b w)).requests
        ≤ length w.requests + 2 * length (on_branch b w)
  unfolding refresh_branch
  requests-refresh_branch b w = elim (Bool-cases w.online) [
    | inl on ↦
        let ds = on_branch b w in
        let bound : length (world_of (all_of (refresh_each s ds) w)).requests
            ≤ length w.requests + 2 * length ds =
          omega (
            arith,
            AtMost-all_of 2 (refresh_each s ds) (requests-refresh_each ds) w,
            length-refresh_each ds,
          ) in
        ground (arith, on, bound)
    | inr off ↦ ground (arith, off)
  ]

  asked_lem :
      (owner repo : Option String) (n i : Option ℕ) (w : World s) (r r' : Response)
      (p : PullRequest)
      → let first = access_tokens (shown_number i) in
        let second =
          get_pull_request (authorization s r.token) (shown owner) (shown repo) (shown_number n) in
        s.respond w.requests first ≡ some r
        → s.respond (w.requests ++ first ∷ []) second ≡ some r'
        → r'.pull_request ≡ some p
        → get_pull_request_from_github s owner repo n i w
          ≡ fulfilled p (record w { requests = (w.requests ++ first ∷ []) ++ second ∷ [] })
  unfolding get_pull_request_from_github
  asked_lem owner repo n i w r r' p e e' same = ground (arith, e, e', same)

  -- Where the database answers and GitHub answers with a token and then with a pull request, what
  -- is known of this pull request is what GitHub answers, with the installation of the stored
  -- document, over what was known before, and what is known of the others stays.
  pub refresh_lem :
      (d : PullRequestDocument) (w : World s) (r r' : Response) (p : PullRequest)
      → let first = access_tokens (shown_number d.info.installation_id) in
        w.online ≡ true
        → s.respond w.requests first ≡ some r
        → s.respond (w.requests ++ first ∷ []) (
            get_pull_request
              (authorization s r.token)
              (shown d.owner)
              (shown d.repo)
              (shown_number d.info.pull_request_number))
          ≡ some r'
        → r'.pull_request ≡ some p
        → (j : String)
        → let id = pull_request_id p.base_owner p.base_repo p.number in
          known s (world_of (refresh s d w)) j ≡ (
            if str_eq id j
            then some (merge (refreshed d.info.installation_id p) (or_nothing (known s w id)))
            else known s w j)
  unfolding refresh
  refresh_lem d w r r' p on e e' same j =
      let first = access_tokens (shown_number d.info.installation_id) in
      let second =
        get_pull_request (authorization s r.token) (shown d.owner) (shown d.repo)
          (shown_number d.info.pull_request_number) in
      let w' = record w { requests = (w.requests ++ first ∷ []) ++ second ∷ [] } in
      let (t, stored, after) =
        set_pull_request_info_lem s w' on p.base_owner p.base_repo p.number
          (refreshed d.info.installation_id p) in
      rw
        (
          asked_lem d.owner d.repo d.info.pull_request_number d.info.installation_id w r r' p e e'
              same,
          stored,
          after j,
        )
        (ground arith)
