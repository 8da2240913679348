-- ===== src/GitHub/Reports.antt =====
-- github.js, `createCheckRunForPullRequest`: the requests that it sends where GitHub answers each.
use ugo.Base.{
  ◌≡◌, ap, ◌∙◌, inl, inr, Option, none, some, List, [], ◌∷◌, ◌++◌, length, arith, decimal, keep,
  Option-cases,
}
use mathlib.Core.List.{append_assoc}
use ugo.Model.Http.{
  Request, Response, CheckRun, access_tokens, list_check_runs, create_check_run, update_check_run,
}
use ugo.World.{Services, World, Settled, fulfilled}
use ugo.Promise.{world_of}
use ugo.GitHub.{
  CheckRunOptions, authorization, shown, shown_number, is_own, get_check_run_body,
  get_check_runs_for_sha, create_check_run_for_sha, update_check_run_by_id, create_or_update,
  create_check_run_for_pull_request,
}

module _ (s : Services) (f : List Request → Request → Response)
    (answers : (rs : List Request) (r : Request) → s.respond rs r ≡ some (f rs r)) where
  -- The two requests that look for the check runs of the commit.
  abbrev pub token_request : CheckRunOptions → Request
  token_request o = access_tokens (shown_number o.installation_id)

  abbrev pub list_request : CheckRunOptions → World s → Request
  list_request o w =
      list_check_runs (authorization s (f w.requests (token_request o)).token) o.owner o.repo
        (shown o.sha)

  -- The state's requests with these two.
  abbrev pub asked : CheckRunOptions → World s → List Request
  asked o w = (w.requests ++ token_request o ∷ []) ++ list_request o w ∷ []

  -- The check runs of the application in an answer, and in that of GitHub to these requests.
  abbrev own_in : Option (List CheckRun) → List CheckRun
  own_in none = []
  own_in (some rs) = keep (is_own s) rs

  abbrev pub own_runs : CheckRunOptions → World s → List CheckRun
  own_runs o w = own_in (f (w.requests ++ token_request o ∷ []) (list_request o w)).check_runs

  -- The request that reports after the requests `rs`: an update of the first of the runs, with its
  -- id, if there is one, and a new run if there is none; both with the body of the options.
  abbrev pub report_request : CheckRunOptions → List CheckRun → List Request → Request
  report_request o [] rs =
      create_check_run (authorization s (f rs (token_request o)).token) o.owner o.repo
        (get_check_run_body s o (length (rs ++ token_request o ∷ [])))
  report_request o (r ∷ runs) rs =
      update_check_run (authorization s (f rs (token_request o)).token) o.owner o.repo
        (decimal r.id) (get_check_run_body s o (length (rs ++ token_request o ∷ [])))

  found_lem :
      (o : CheckRunOptions) (w : World s)
      → (w' : World s) × (get_check_runs_for_sha s o w ≡ fulfilled (own_runs o w) w')
        × (w'.requests ≡ asked o w)
  unfolding get_check_runs_for_sha
  found_lem o w =
      let tokened = answers w.requests (token_request o) in
      let listed = answers (w.requests ++ token_request o ∷ []) (list_request o w) in
      (
        world_of (get_check_runs_for_sha s o w),
        elim (Option-cases (f (w.requests ++ token_request o ∷ []) (list_request o w)).check_runs) [
          | inl missing ↦ ground (arith, tokened, listed, missing)
          | inr (rs, there) ↦ ground (arith, tokened, listed, there)
        ],
        ground (arith, tokened, listed),
      )

  -- A request for a token and one that follows it.
  abbrev Sends : CheckRunOptions → World s → Request → Settled s (Unit {0}) → Type 0
  Sends o w q r =
      (w' : World s) × (r ≡ fulfilled tt w')
      × (w'.requests ≡ (w.requests ++ token_request o ∷ []) ++ q ∷ [])

  create_or_update-Sends :
      (o : CheckRunOptions) (found : List CheckRun) (w : World s)
      → Sends o w (report_request o found w.requests) (create_or_update s o found w)
  unfolding create_check_run_for_sha update_check_run_by_id
  create_or_update-Sends o [] w =
      let tokened = answers w.requests (token_request o) in
      let sent = answers (w.requests ++ token_request o ∷ []) (report_request o [] w.requests) in
      (
        world_of (create_or_update s o [] w),
        ground (arith, tokened, sent),
        ground (arith, tokened, sent),
      )
  create_or_update-Sends o (r ∷ rs) w =
      let tokened = answers w.requests (token_request o) in
      let sent =
        answers (w.requests ++ token_request o ∷ []) (report_request o (r ∷ rs) w.requests) in
      (
        world_of (create_or_update s o (r ∷ rs) w),
        ground (arith, tokened, sent),
        ground (arith, tokened, sent),
      )

  -- Where GitHub answers every request, createCheckRunForPullRequest is fulfilled and sends four
  -- requests: for a token, for the check runs of the commit, for a token again, and one with the
  -- body of the options that updates the application's first check run in the answer, by its id, or
  -- makes a check run if the answer has none of the application.
  pub create_check_run_for_pull_request_lem :
      (o : CheckRunOptions) (w : World s)
      → (w' : World s) × (create_check_run_for_pull_request s o w ≡ fulfilled tt w')
        × (w'.requests
            ≡ w.requests
              ++ token_request o
                ∷ list_request o w
                ∷ token_request o
                ∷ report_request o (own_runs o w) (asked o w)
                ∷ [])
  unfolding create_check_run_for_pull_request
  create_check_run_for_pull_request_lem o w =
      let (w1, e, first) = found_lem o w in
      let (w2, e2, sent) = create_or_update-Sends o (own_runs o w) w1 in
      (
        w2,
        rw (e, e2),
        sent
            ∙ ap (λ rs. (rs ++ token_request o ∷ []) ++ report_request o (own_runs o w) rs ∷ [])
                first
            ∙ simp append_assoc,
      )
