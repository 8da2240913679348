-- ===== src/PullRequestHandler/Bounds.antt =====
-- handler-pullrequest.js: how many requests to GitHub the statuses of a queue take.
use ugo.Base.{
  refl, ◌≡◌, ap, length-take, ℕ, suc, ◌≤◌, ◌+◌, String, List, [], ◌∷◌, Option, none, some, take,
  length, arith, ℤ, pos, Bool-cases, inl, inr,
}
use ugo.Model.Queue.{Item}
use ugo.Model.PullRequest.{Info}
use ugo.Model.Http.{Request, Response, CheckRun}
use ugo.World.{Services, World, Promise}
use ugo.Promise.{◌>>=◌, send, resolve, world_of, all_of}
use ugo.Requests.{
  AtMost, AtMost-then, AtMost-catch, AtMost-quiet, AtMost-send, AllAtMost, AtMost-all_of,
}
use ugo.Model.Http.{
  Request, Response, access_tokens, list_check_runs, create_check_run, update_check_run,
}
use ugo.GitHub.{
  authorization, shown, shown_number, get_check_run_body, own_check_runs, track_api_usage,
  get_installation_access_token, CheckRunOptions, get_check_runs_for_sha, create_check_run_for_sha,
  update_check_run_by_id, create_or_update, create_check_run_for_pull_request,
}
use ugo.PullRequestManager.{get_pull_request_info}
use ugo.QueueManager.{get_items, get_some_items}
use ugo.PullRequestHandler.{
  report_known, check_run_options, get_pull_request_and_update_status,
  set_pull_request_status_by_position, block_pull_request, unblock_pull_request, is_zero,
  max_reported_queue_position,
}
use ugo.PullRequestHandler.Handlers.{status_updates, set_all_pull_requests_statuses}

module _ (s : Services) where
  pub requests-get_token : (i : Option ℕ) → AtMost 1 (get_installation_access_token s i)
  requests-get_token i =
      AtMost-then 1 0 (send (access_tokens (shown_number i))) _
        (AtMost-send (λ _. access_tokens (shown_number i))) (λ r w. omega arith)

  requests-get_check_runs : (o : CheckRunOptions) → AtMost 2 (get_check_runs_for_sha s o)
  unfolding get_check_runs_for_sha
  requests-get_check_runs o =
      AtMost-catch 2 0 (get_installation_access_token s o.installation_id >>= listed)
        (λ e. resolve [])
        (AtMost-then 1 1 (get_installation_access_token s o.installation_id) listed
          (requests-get_token o.installation_id)
          (λ token.
            AtMost-then 1 0 (send (list o token)) read (AtMost-send (λ _. list o token))
              (λ r. AtMost-quiet (read r) (λ w. ground arith))))
        (λ e w. omega arith)
    where
      list : CheckRunOptions → Option String → Request
      list o token = list_check_runs (authorization s token) o.owner o.repo (shown o.sha)

      read : Response → Promise s (List CheckRun)
      read r = track_api_usage s r >>= λ r'. own_check_runs s r'.check_runs

      listed : Option String → Promise s (List CheckRun)
      listed token = send (list o token) >>= read

  requests-create : (o : CheckRunOptions) → AtMost 2 (create_check_run_for_sha s o)
  unfolding create_check_run_for_sha
  requests-create o =
      AtMost-then 1 1 (get_installation_access_token s o.installation_id) _
        (requests-get_token o.installation_id)
        (λ token.
          AtMost-then 1 0 (λ w. send (create token w) w)
            (λ r. track_api_usage s r >>= λ _. resolve tt) (AtMost-send (create token))
            (λ r. AtMost-quiet (track_api_usage s r >>= λ _. resolve tt) (λ w. refl)))
    where
      create : Option String → World s → Request
      create token w =
          create_check_run (authorization s token) o.owner o.repo
            (get_check_run_body s o (length w.requests))

  requests-update : (o : CheckRunOptions) (id : Option ℕ) → AtMost 2 (update_check_run_by_id s o id)
  unfolding update_check_run_by_id
  requests-update o id =
      AtMost-catch 2 0 (get_installation_access_token s o.installation_id >>= updated)
        (λ e. resolve tt)
        (AtMost-then 1 1 (get_installation_access_token s o.installation_id) updated
          (requests-get_token o.installation_id)
          (λ token.
            AtMost-then 1 0 (λ w. send (update token w) w)
              (λ r. track_api_usage s r >>= λ _. resolve tt) (AtMost-send (update token))
              (λ r. AtMost-quiet (track_api_usage s r >>= λ _. resolve tt) (λ w. refl))))
        (λ e w. omega arith)
    where
      update : Option String → World s → Request
      update token w =
          update_check_run (authorization s token) o.owner o.repo (shown_number id)
            (get_check_run_body s o (length w.requests))

      updated : Option String → Promise s (Unit {0})
      updated token =
          (λ w. send (update token w) w) >>= λ r. track_api_usage s r >>= λ _. resolve tt

  requests-create_or_update :
      (o : CheckRunOptions) (rs : List CheckRun) → AtMost 2 (create_or_update s o rs)
  requests-create_or_update o [] = requests-create o
  requests-create_or_update o (r ∷ rs) = requests-update o (some r.id)

  requests-create_check_run :
      (o : CheckRunOptions) → AtMost 4 (create_check_run_for_pull_request s o)
  unfolding create_check_run_for_pull_request
  requests-create_check_run o =
      AtMost-then 2 2 (get_check_runs_for_sha s o) (create_or_update s o)
        (requests-get_check_runs o) (requests-create_or_update o)

  requests-report :
      (owner repo status description : String) (o : Option Info)
      → AtMost 4 (report_known s owner repo status description o)
  requests-report owner repo status description none = λ w. omega arith
  requests-report owner repo status description (some i) =
      requests-create_check_run (check_run_options s owner repo status description i)

  quiet-get_info : (owner repo : String) (n : ℕ) → AtMost 0 (get_pull_request_info s owner repo n)
  unfolding get_pull_request_info
  quiet-get_info owner repo n =
      AtMost-quiet (get_pull_request_info s owner repo n) (λ w. ground arith)

  requests-update_status :
      (owner repo : String) (n : ℕ) (status description : String)
      → AtMost 4 (get_pull_request_and_update_status s owner repo n status description)
  unfolding get_pull_request_and_update_status
  requests-update_status owner repo n status description =
      AtMost-then 0 4 (get_pull_request_info s owner repo n)
        (report_known s owner repo status description) (quiet-get_info owner repo n)
        (requests-report owner repo status description)

  requests-position :
      (owner repo : String) (n : ℕ) (z : ℤ)
      → AtMost 4 (set_pull_request_status_by_position s owner repo n z)
  unfolding set_pull_request_status_by_position block_pull_request unblock_pull_request
  requests-position owner repo n z w = elim (Bool-cases (is_zero z)) [
    | inl first ↦ rw first (requests-update_status owner repo n _ _ w)
    | inr behind ↦ rw behind (requests-update_status owner repo n _ _ w)
  ]

  requests-updates :
      (owner repo : String) (i : ℕ) (xs : List Item)
      → AllAtMost 4 (status_updates s owner repo i xs)
  requests-updates owner repo i [] = tt
  requests-updates owner repo i (x ∷ xs) = (
    requests-position owner repo x.pull_request_number (pos i),
    requests-updates owner repo (suc i) xs,
  )

  length-status_updates :
      (owner repo : String) (i : ℕ) (xs : List Item)
      → length (status_updates s owner repo i xs) ≡ length xs
  length-status_updates owner repo i [] = refl
  length-status_updates owner repo i (x ∷ xs) = ap suc (length-status_updates owner repo (suc i) xs)

  quiet-get_items : (owner repo branch : String) → AtMost 0 (get_items s owner repo branch)
  unfolding get_items get_some_items
  quiet-get_items owner repo branch =
      AtMost-quiet (get_items s owner repo branch) (λ w. ground arith)

  requests-shown :
      (owner repo : String) (xs : List Item)
      → AtMost 24
          (all_of (status_updates s owner repo 0 (take (suc max_reported_queue_position) xs)))
  requests-shown owner repo xs w =
      let shown = take (suc max_reported_queue_position) xs in
      omega (
        arith,
        AtMost-all_of 4 (status_updates s owner repo 0 shown) (requests-updates owner repo 0 shown)
            w,
        length-status_updates owner repo 0 shown,
        length-take (suc max_reported_queue_position) xs,
      )

  -- However long the queue is, and whatever GitHub answers, setting the statuses of a whole queue
  -- sends at most 24 requests.
  pub requests-set_all_pull_requests_statuses :
      (owner repo branch : String) (w : World s)
      → length (world_of (set_all_pull_requests_statuses s owner repo branch w)).requests
        ≤ length w.requests + 24
  unfolding set_all_pull_requests_statuses
  requests-set_all_pull_requests_statuses owner repo branch =
      AtMost-then 0 24 (get_items s owner repo branch) _ (quiet-get_items owner repo branch)
        (requests-shown owner repo)
