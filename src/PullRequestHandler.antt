-- ===== src/PullRequestHandler.antt =====
-- handler-pullrequest.js: the status of a pull request on GitHub, by its place in the queue.
pub mod Handlers
pub mod Position
pub mod Statuses
pub mod Frame
pub mod Bounds
pub mod Closed
pub mod ClosedTotal
pub mod StatusChange
use ugo.Base.{
  ℕ, zero, suc, String, Bool, true, false, not, ◌&&◌, List, [], ◌∷◌, Option, none, some,
  if◌then◌else◌, ◌==◌, str_eq, leb, map, take, find_index, ℤ, pos, negsuc,
}
use ugo.Model.Queue.{Item, has_number}
use ugo.Model.PullRequest.{Info, no_info}
use ugo.Model.Http.{Action}
use ugo.Model.Message.{Checks, send_checks, cancel_checks}
use ugo.World.{Services, Promise, type_error, Param, num, text}
use ugo.Promise.{◌>>=◌, ◌>>◌, resolve, reject_with, publish, all_of, detached}
pub use ugo.Model.Event.{PullRequest}
use ugo.QueueManager as Queue
use ugo.QueueManager.{no_meta}
use ugo.PullRequestManager as Info
use ugo.GitHub.{CheckRunOptions, create_check_run_for_pull_request, get_hash_combined_status, shown}
use ugo.GitHub.CombinedStatus.{status_success, status_failure, status_pending}

abbrev pub max_reported_queue_position : ℕ
max_reported_queue_position = 5

-- What the handlers of events return.
pub record Location : Type 0 where
  pub owner : String
  pub repo : String
  pub branch : String
  pub pull_request_number : ℕ

abbrev pub location_of : PullRequest → Location
location_of p = record {
  owner = p.base_owner;
  repo = p.base_repo;
  branch = p.base_ref;
  pull_request_number = p.number;
}

-- The values that `===` compares in this file.
pub data Value : Type 0 where
  undefined : Value
  str : String → Value
  bool : Bool → Value

abbrev pub same_bool : Bool → Bool → Bool
same_bool true b = b
same_bool false b = not b

-- `===`: values of two types differ.
unfoldable pub strict_eq : Value → Value → Bool
strict_eq undefined undefined = true
strict_eq (str a) (str b) = str_eq a b
strict_eq (bool a) (bool b) = same_bool a b
strict_eq _ _ = false

-- `process.env.NAME`: a text, or undefined.
abbrev pub env_value : Option String → Value
env_value none = undefined
env_value (some t) = str t

abbrev pub or_default : Option String → String → String
or_default none d = d
or_default (some t) d = t

-- `findIndex(propEq('pullRequestNumber', n))`.
abbrev pub position_of : ℕ → List Item → ℤ
position_of n = find_index (has_number n)

abbrev pub is_zero : ℤ → Bool
is_zero (pos i) = i == 0
is_zero (negsuc i) = false

module _ (s : Services) where
  open s use {localize, environment}

  abbrev pub description_not_in_queue : String
  description_not_in_queue = localize "pullRequest.queue.not" []

  abbrev pub description_first : String
  description_first = localize "pullRequest.queue.first" []

  -- The button of a check run: to leave the queue, or to join it.
  unfoldable pub actions_for : String → Option Action
  unfolding strict_eq
  actions_for description =
      if strict_eq (env_value environment.check_run_actions) (bool true)
      then some (
          if str_eq description description_not_in_queue
          then record {
            label = localize "checkRun.actions.add.label" [];
            description = localize "checkRun.actions.add.description" [];
            identifier = "queue-add";
          }
          else record {
            label = localize "checkRun.actions.remove.label" [];
            description = localize "checkRun.actions.remove.description" [];
            identifier = "queue-remove";
          })
      else none

  -- The options of the check run, from what is known of the pull request.
  abbrev pub check_run_options : String → String → String → String → Info → CheckRunOptions
  check_run_options owner repo status description i = record {
    installation_id = i.installation_id;
    sha = i.sha;
    status = status;
    description = description;
    actions = actions_for description;
    owner = owner;
    repo = repo;
    branch = i.branch;
    pull_request_number = i.pull_request_number;
  }

  -- The body of the `then` of `_getPullRequestAndUpdateStatus`.
  abbrev pub report_known : String → String → String → String → Option Info → Promise s (Unit {0})
  report_known owner repo status description none = resolve tt
  report_known owner repo status description (some i) =
      create_check_run_for_pull_request s (check_run_options owner repo status description i)

  unfoldable pub get_pull_request_and_update_status :
      String → String → ℕ → String → String → Promise s (Unit {0})
  get_pull_request_and_update_status owner repo n status description = do
    found ← Info.get_pull_request_info s owner repo n
    report_known owner repo status description found

  -- `_updatePullRequestInfo`.
  unfoldable pub update_pull_request_info : PullRequest → ℕ → Promise s Location
  update_pull_request_info p installation_id = do
    Info.set_pull_request_info s p.base_owner p.base_repo p.number (record no_info {
      installation_id = some installation_id;
      pull_request_number = some p.number;
      title = some p.title;
      author = some p.author;
      human_url = some p.html_url;
      branch = some p.base_ref;
      assignees = some p.assignees;
      sha = some p.head_sha;
    })
    resolve (location_of p)

  unfoldable pub block_pull_request : String → String → ℕ → Option String → Promise s (Unit {0})
  block_pull_request owner repo n description =
      get_pull_request_and_update_status owner repo n status_failure
        (or_default description description_not_in_queue)

  unfoldable pub unblock_pull_request : String → String → ℕ → Option String → Promise s (Unit {0})
  unblock_pull_request owner repo n description =
      get_pull_request_and_update_status owner repo n status_success
        (or_default description description_first)

  -- The description of `setPullRequestStatusByPosition`, for an index other than 0.
  abbrev pub description_at : ℤ → String
  description_at (negsuc i) = description_not_in_queue
  description_at (pos i) =
      if leb i max_reported_queue_position
      then localize (if i == 1 then "pullRequest.queue.second" else "pullRequest.queue.position")
          (("position", num i) ∷ [])
      else localize "pullRequest.queue.over" (("number", num max_reported_queue_position) ∷ [])

  unfoldable pub set_pull_request_status_by_position :
      String → String → ℕ → ℤ → Promise s (Unit {0})
  set_pull_request_status_by_position owner repo n index =
      if is_zero index
      then unblock_pull_request owner repo n none
      else block_pull_request owner repo n (some (description_at index))
