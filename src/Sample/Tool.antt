-- ===== src/Sample/Tool.antt =====
-- The theorems on the tool for the pull requests of a branch.
use ugo.Base.{◌≡◌, ◌≤◌, ◌+◌, ◌*◌, refl, some, if◌then◌else◌, str_eq, length}
use ugo.Model.PullRequest.{merge}
use ugo.Promise.{world_of}
use ugo.PullRequestManager.{pull_request_id}
use ugo.PullRequestManager.Effects.{known, or_nothing}
use ugo.UpdateTool.{Variables, Branch, refreshed, refresh, refresh_branch, update}
use ugo.UpdateTool.Kept.{SameStatuses, update-SameStatuses}
use ugo.UpdateTool.Asked.{refresh_lem, requests-refresh_branch, on_branch}
use mathlib.Core.Option
use ugo.Base.{decimal}
use ugo.Promise.{all_of}
use ugo.UpdateTool.{asked_branch}
use ugo.GitHub.Accounts.{get_pull_request_from_github}
use ugo.PullRequestManager.{set_pull_request_info}
use ugo.Sample.Driver.{lookup, all_matches}
use ugo.Sample.Data.{running, state, first_info, document, merged_pull_request, answer}

abbrev variables : Variables
variables = record {
  owner = some "acme";
  repo = some "shop";
  branch = some "main";
  app_id = some "7";
}

abbrev main : Branch
main = record { owner = "acme"; repo = "shop"; branch = "main" }

update-SameStatuses_example : SameStatuses state (world_of (update running variables state))
update-SameStatuses_example = update-SameStatuses running variables state

requests-refresh_branch_example :
    length (world_of (refresh_branch running main state)).requests
    ≤ length state.requests + 2 * length (on_branch running main state)
requests-refresh_branch_example = requests-refresh_branch running main state

refresh_lem_example :
    known running (world_of (refresh running (document first_info) state)) "acme-shop-2" ≡ (
      if str_eq (pull_request_id "acme" "shop" 1) "acme-shop-2"
      then some (
          merge
            (refreshed (some 5) merged_pull_request)
            (or_nothing (known running state (pull_request_id "acme" "shop" 1))))
      else known running state "acme-shop-2")
refresh_lem_example =
    refresh_lem running (document first_info) state answer answer merged_pull_request refl refl refl
      refl "acme-shop-2"

-- Two pull requests are stored of the branch, and GitHub is asked twice for each.
asks_for_two : length (world_of (update running variables state)).requests ≡ 4
unfolding update asked_branch Option.bind refresh_branch all_of refresh all_matches
    get_pull_request_from_github set_pull_request_info lookup decimal
asks_for_two = refl
