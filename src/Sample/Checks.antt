-- ===== src/Sample/Checks.antt =====
-- The theorems on github.js at the first pull request of the branch.
use ugo.Base.{◌≡◌, ◌≢◌, ◌↔◌, ◌⊎◌, refl, true, false, [], ◌∷◌, some, any}
use ugo.Model.Http.{Response}
use ugo.World.{World, fulfilled}
use ugo.GitHub.{CheckRunOptions, create_check_run_for_pull_request, get_hash_combined_status}
use ugo.GitHub.CombinedStatus.{
  status_success, status_failure, status_pending, is_nil, is_conclusion, conclusions_of, state_of,
  combined_status,
}
use ugo.GitHub.Status.{combined_status_cases, get_hash_combined_status-outage}
use ugo.GitHub.Reports.{
  token_request, list_request, report_request, own_runs, asked,
  create_check_run_for_pull_request_lem,
}
use ugo.PullRequestHandler.{check_run_options}
use ugo.Sample.Data.{running, cut_off, state, first_info, answer}

abbrev options : CheckRunOptions
options = check_run_options running "acme" "shop" "success" "Merged" first_info

-- The answer lists no check run: one is made.
create_check_run_for_pull_request_lem_example :
    (w' : World running) × (create_check_run_for_pull_request running options state
      ≡ fulfilled tt w')
    × (w'.requests
        ≡ token_request running (λ rs r. answer) (λ rs r. refl) options
          ∷ list_request running (λ rs r. answer) (λ rs r. refl) options state
          ∷ token_request running (λ rs r. answer) (λ rs r. refl) options
          ∷ report_request running
              (λ rs r. answer)
              (λ rs r. refl)
              options
              (own_runs running (λ rs r. answer) (λ rs r. refl) options state)
              (asked running (λ rs r. answer) (λ rs r. refl) options state)
          ∷ [])
create_check_run_for_pull_request_lem_example =
    create_check_run_for_pull_request_lem running (λ rs r. answer) (λ rs r. refl) options state

abbrev cut_off_state : World cut_off
cut_off_state = record {
  online = true;
  refusing = false;
  queues = [];
  pull_requests = [];
  notifications = [];
  installations = [];
  installation_infos = [];
  tokens = [];
  triggers = [];
  metrics = [];
  pushes = [];
  requests = [];
  published = [];
  log = [];
}

get_hash_combined_status-outage_example :
    (w' : World cut_off) × (get_hash_combined_status cut_off
        (some 5)
        "acme"
        "shop"
        "abc"
        cut_off_state
      ≡ fulfilled status_success w')
get_hash_combined_status-outage_example =
    get_hash_combined_status-outage cut_off (some 5) "acme" "shop" "abc" cut_off_state
      (λ rs r. refl)

abbrev timed_out : Response
timed_out = record answer { check_suites = some (some "timed_out" ∷ []) }

combined_status_cases_example :
    let cs = conclusions_of (some timed_out) in
    let t = state_of (some answer) in
    let c = combined_status (some timed_out) (some answer) in
    ((c ≡ status_pending) ↔ ((any is_nil cs ≡ true) ⊎ (t ≡ status_pending)))
    × ((c ≡ status_failure) ↔ (
        (any is_nil cs ≡ false)
        × (t ≢ status_pending)
        × ((any (is_conclusion status_failure) cs ≡ true) ⊎ (t ≡ status_failure))))
    × ((c ≡ status_success) ↔ (
        (any is_nil cs ≡ false)
        × (t ≢ status_pending)
        × (any (is_conclusion status_failure) cs ≡ false)
        × (t ≢ status_failure)))
combined_status_cases_example = combined_status_cases (some timed_out) (some answer)
