-- ===== src/PullRequestHandler/Handlers.antt =====
-- handler-pullrequest.js: the handlers of GitHub's events, and the statuses of a whole queue.
use ugo.Base.{
  ℕ, suc, String, Bool, true, false, List, [], ◌∷◌, Option, none, some, if◌then◌else◌, ◌==◌, str_eq,
  take, pos,
}
use ugo.Model.Queue.{Item}
use ugo.Model.PullRequest.{Info, no_info}
use ugo.Model.Message.{Checks, send_checks, cancel_checks}
use ugo.World.{Services, Promise, type_error, text}
use ugo.Promise.{◌>>=◌, ◌>>◌, resolve, reject_with, publish, all_of, detached}
use ugo.QueueManager as Queue
use ugo.QueueManager.{is_number}
use ugo.PullRequestManager as Info
use ugo.GitHub.{get_hash_combined_status, shown}
use ugo.GitHub.CombinedStatus.{status_pending}
use ugo.PullRequestHandler.{
  PullRequest, Location, location_of, position_of, max_reported_queue_position, or_default,
  update_pull_request_info, block_pull_request, unblock_pull_request,
  set_pull_request_status_by_position,
}

-- `GitHub.STATUS_…` for the comparison of an unknown number: `first.pullRequestNumber !== number`.
abbrev pub is_item_of : Item → Option ℕ → Bool
is_item_of x none = false
is_item_of x (some n) = x.pull_request_number == n

module _ (s : Services) where
  open s use {localize}

  -- The description of a closed pull request, if it is merged; the user that merged it is
  -- read. What the source throws before there is a promise is a rejection.
  abbrev pub merge_description : Bool → Option String → Promise s (Option String)
  merge_description false merged_by = resolve none
  merge_description true none = reject_with type_error
  merge_description true (some username) =
      resolve (some (localize "pullRequest.merged" (("username", text username) ∷ [])))

  -- `item && queueManager.removeItem(…, { closed: true })`.
  abbrev pub remove_if_there : String → String → String → Option Item → Promise s (Unit {0})
  remove_if_there owner repo branch none = resolve tt
  remove_if_there owner repo branch (some x) =
      Queue.remove_item s owner repo branch x (record { closed = true; first_item_changed = false })

  abbrev pub block_or_unblock : Bool → String → String → ℕ → Option String → Promise s (Unit {0})
  block_or_unblock true = unblock_pull_request s
  block_or_unblock false = block_pull_request s

  unfoldable pub handle_closed : PullRequest → Promise s Location
  handle_closed p = do
    description ← merge_description p.merged p.merged_by
    item ← Queue.get_item s p.base_owner p.base_repo p.base_ref p.number
    remove_if_there p.base_owner p.base_repo p.base_ref item
    block_or_unblock p.merged p.base_owner p.base_repo p.number description
    Info.delete_pull_request_info s p.base_owner p.base_repo p.number
    resolve (location_of p)

  unfoldable pub handle_opened : PullRequest → ℕ → Promise s Location
  handle_opened p installation_id = do
    l ← update_pull_request_info s p installation_id
    block_pull_request s l.owner l.repo l.pull_request_number none
    resolve l

  unfoldable pub handle_sync : PullRequest → ℕ → Promise s Location
  handle_sync p installation_id = do
    l ← update_pull_request_info s p installation_id
    booking_data ← Queue.get_items s l.owner l.repo l.branch
    set_pull_request_status_by_position s l.owner l.repo l.pull_request_number
        (position_of l.pull_request_number booking_data)
    resolve l

  -- The message for a status that changed.
  abbrev pub checks_message : String → String → Option String → Item → String → Promise s (Unit {0})
  checks_message owner repo branch first github_status =
      let checks : Checks = record {
        owner = owner;
        repo = repo;
        branch = branch;
        pull_request_number = first.pull_request_number;
        username = first.username;
        state = github_status;
      } in
      publish
        (if str_eq github_status status_pending then cancel_checks checks else send_checks checks)

  -- What is done with the combined status; its promise is not returned by the caller.
  unfoldable pub store_status :
      String → String → Option String → Item → String → String → Promise s (Unit {0})
  store_status owner repo branch first old_status github_status = do
    Info.set_pull_request_info s owner repo first.pull_request_number
        (record no_info { status = some github_status })
    (if str_eq github_status old_status
        then resolve tt
        else checks_message owner repo branch first github_status)

  -- The `then` of `getFirstItem`.
  abbrev pub status_of_first : String → String → String → Info → Option Item → Promise s (Unit {0})
  status_of_first owner repo sha data_of none = resolve tt
  status_of_first owner repo sha data_of (some first) =
      if is_item_of first data_of.pull_request_number
      then (get_hash_combined_status s data_of.installation_id owner repo sha >>= λ github_status.
          detached (
            store_status owner repo data_of.branch first (or_default data_of.status status_pending)
              github_status))
      else resolve tt

  -- The `then` of `getPullRequestInfoBySha`.
  abbrev pub status_change : String → String → String → Option Info → Promise s (Unit {0})
  status_change owner repo sha none = resolve tt
  status_change owner repo sha (some i) = do
    first ← Queue.get_first_item s owner repo (shown i.branch)
    status_of_first owner repo sha i first

  unfoldable pub handle_status_change : String → String → String → Promise s (Unit {0})
  handle_status_change owner repo sha = do
    found ← Info.get_pull_request_info_by_sha s owner repo sha
    status_change owner repo sha found

  -- `items.map(({ pullRequestNumber }, index) => …)`, from an index on.
  abbrev pub status_updates : String → String → ℕ → List Item → List (Promise s (Unit {0}))
  status_updates owner repo i [] = []
  status_updates owner repo i (x ∷ xs) =
      set_pull_request_status_by_position s owner repo x.pull_request_number (pos i)
      ∷ status_updates owner repo (suc i) xs

  unfoldable pub set_all_pull_requests_statuses : String → String → String → Promise s (Unit {0})
  set_all_pull_requests_statuses owner repo branch = do
    items ← Queue.get_items s owner repo branch
    all_of (status_updates owner repo 0 (take (suc max_reported_queue_position) items))
