-- ===== src/GitHub.antt =====
-- github.js: the check run of a pull request, and the combined status of a commit.
pub mod CombinedStatus
pub mod Frame
pub mod Status
pub mod Reports
pub mod Accounts
use ugo.Base.{
  ℕ, String, Bool, true, false, List, [], ◌∷◌, Option, none, some, if◌then◌else◌, ◌==◌, concat,
  str_eq, decimal, length, keep, ◌++◌,
}
use ugo.Model.Http.{
  Action, CheckRunBody, CheckRun, Request, access_tokens, list_check_runs, create_check_run,
  update_check_run, commit_status, list_check_suites, Response,
}
use ugo.Model.Message.{increment, gauge}
use ugo.World.{Services, World, fulfilled, Promise, Failure, type_error, Param, text, missing}
use ugo.Promise.{◌>>=◌, ◌>>◌, catch, resolve, reject_with, publish, send}
use CombinedStatus.{combined_status}

-- The options of `createCheckRunForPullRequest`; a key that may be undefined is an `Option`.
pub record CheckRunOptions : Type 0 where
  pub installation_id : Option ℕ
  pub sha : Option String
  pub status : String
  pub description : String
  pub actions : Option Action
  pub owner : String
  pub repo : String
  pub branch : Option String
  pub pull_request_number : Option ℕ

-- A value in a template literal; `undefined` is written out.
abbrev pub shown : Option String → String
shown none = "undefined"
shown (some t) = t

abbrev pub shown_number : Option ℕ → String
shown_number none = "undefined"
shown_number (some n) = decimal n

abbrev pub text_or_missing : Option String → Param
text_or_missing none = missing
text_or_missing (some t) = text t

abbrev pub first_id : List CheckRun → Option ℕ
first_id [] = none
first_id (r ∷ rs) = some r.id

abbrev same_id : Option ℕ → Option ℕ → Bool
same_id none b = false
same_id (some a) none = false
same_id (some a) (some b) = a == b

module _ (s : Services) where
  open s use {localize, timestamp, environment}

  -- `trackRateLimit`, `trackApiRequest`, and the response that is passed on.
  abbrev pub track_api_usage : Response → Promise s Response
  track_api_usage r = do
    publish (gauge "github.api.ratelimit" r.rate_limit_remaining [])
    publish (increment "github.api.request" (some 1) [])
    resolve r

  -- `getRequestOptions`: the header `authorization`; the empty token is false.
  abbrev pub authorization : Option String → Option String
  authorization none = none
  authorization (some t) = if str_eq t "" then none else some (concat ("token " ∷ t ∷ []))

  -- `getCheckRunBody`; the two times are taken at the request that is sent.
  abbrev pub get_check_run_body : CheckRunOptions → ℕ → CheckRunBody
  get_check_run_body o at = record {
    name = localize "checkRun.name" [];
    head_sha = o.sha;
    details_url = concat (
        shown environment.app_origin
        ∷ "/"
        ∷ o.owner
        ∷ "/"
        ∷ o.repo
        ∷ "/"
        ∷ shown o.branch
        ∷ "/"
        ∷ shown_number o.pull_request_number
        ∷ []);
    conclusion = o.status;
    started_at = timestamp at;
    completed_at = timestamp at;
    output_title = o.description;
    output_summary = localize "checkRun.summary" (
        ("owner", text o.owner)
        ∷ ("repo", text o.repo)
        ∷ ("branch", text_or_missing o.branch)
        ∷ []);
    actions = o.actions;
  }

  -- That `JWT.sign` throws, for a key that is none, is left out.
  abbrev pub get_installation_access_token : Option ℕ → Promise s (Option String)
  get_installation_access_token installation_id = do
    r ← send (access_tokens (shown_number installation_id))
    resolve r.token

  -- `pathEq(['app', 'id'], Number(appId))`; `none` for the environment's id is not a number.
  abbrev pub is_own : CheckRun → Bool
  is_own r = same_id r.app_id environment.app_id

  -- `compose(filter(…), path(['check_runs']))`: a list that is missing cannot be filtered.
  abbrev pub own_check_runs : Option (List CheckRun) → Promise s (List CheckRun)
  own_check_runs none = reject_with type_error
  own_check_runs (some rs) = resolve (keep is_own rs)

  unfoldable pub get_check_runs_for_sha : CheckRunOptions → Promise s (List CheckRun)
  get_check_runs_for_sha o =
      catch
        (do
          token ← get_installation_access_token o.installation_id
          r ← send (list_check_runs (authorization token) o.owner o.repo (shown o.sha))
          r' ← track_api_usage r
          own_check_runs r'.check_runs)
        (λ _. resolve [])

  unfoldable pub create_check_run_for_sha : CheckRunOptions → Promise s (Unit {0})
  create_check_run_for_sha o = do
    token ← get_installation_access_token o.installation_id
    r ← λ w.
        send
          (create_check_run (authorization token) o.owner o.repo
            (get_check_run_body o (length w.requests)))
          w
    track_api_usage r
    resolve tt

  unfoldable pub update_check_run_by_id : CheckRunOptions → Option ℕ → Promise s (Unit {0})
  update_check_run_by_id o id =
      catch
        (do
          token ← get_installation_access_token o.installation_id
          r ← λ w.
              send
                (update_check_run (authorization token) o.owner o.repo (shown_number id)
                  (get_check_run_body o (length w.requests)))
                w
          track_api_usage r
          resolve tt)
        (λ _. resolve tt)

  -- The first of the application's check runs is updated, if there is one.
  abbrev pub create_or_update : CheckRunOptions → List CheckRun → Promise s (Unit {0})
  create_or_update o [] = create_check_run_for_sha o
  create_or_update o (r ∷ rs) = update_check_run_by_id o (first_id (r ∷ rs))

  unfoldable pub create_check_run_for_pull_request : CheckRunOptions → Promise s (Unit {0})
  create_check_run_for_pull_request o = do
    check_runs ← get_check_runs_for_sha o
    create_or_update o check_runs

  -- `getHashStatus` and `getHashCheckSuites`; a failure gives `undefined`.
  unfoldable pub get_hash_status : Option ℕ → String → String → String → Promise s (Option Response)
  get_hash_status installation_id owner repo sha =
      catch
        (do
          token ← get_installation_access_token installation_id
          r ← send (commit_status (authorization token) owner repo sha)
          r' ← track_api_usage r
          resolve (some r'))
        (λ _. resolve none)

  unfoldable pub get_hash_check_suites :
      Option ℕ → String → String → String → Promise s (Option Response)
  get_hash_check_suites installation_id owner repo sha =
      catch
        (do
          token ← get_installation_access_token installation_id
          r ← send (list_check_suites (authorization token) owner repo sha)
          r' ← track_api_usage r
          resolve (some r'))
        (λ _. resolve none)

  unfoldable pub get_hash_combined_status : Option ℕ → String → String → String → Promise s String
  get_hash_combined_status installation_id owner repo sha = do
    suites ← get_hash_check_suites installation_id owner repo sha
    status ← get_hash_status installation_id owner repo sha
    resolve (combined_status suites status)
