-- ===== src/Sample/PullRequests.antt =====
-- The theorems on handler-pullrequest.js and manager-pullrequest.js at a merged pull request.
use ugo.PullRequestHandler.Bounds.{requests-set_all_pull_requests_statuses}
use ugo.Base.{
  length, ◌≤◌, ◌+◌, decimal, ◌≡◌, ◌≢◌, refl, String, [], ◌∷◌, none, some, if◌then◌else◌, pos, take,
  arith,
}
use ugo.Model.Queue.{Item}
use ugo.World.{World, fulfilled}
use ugo.Promise.{world_of, all_of, settle_then, resolve}
use ugo.GitHub.{get_hash_combined_status}
use ugo.GitHub.CombinedStatus.{status_success, status_failure, status_pending}
use ugo.PullRequestManager.{get_pull_request_info_by_sha}
use ugo.QueueManager.{head?, is_number}
use ugo.QueueManager.Bookings.{booked}
use ugo.PullRequestHandler.{
  PullRequest, location_of, position_of, actions_for, get_pull_request_and_update_status,
  or_default,
}
use ugo.PullRequestHandler.Handlers.{
  handle_closed, handle_sync, handle_status_change, set_all_pull_requests_statuses,
}
use ugo.PullRequestHandler.Position.{title_at, actions_for-none}
use ugo.PullRequestHandler.Statuses.{
  blocks, Stored, set_all_pull_requests_statuses_lem, handle_sync_lem,
}
use ugo.PullRequestHandler.Closed.{IsClosed}
use ugo.PullRequestHandler.ClosedTotal.{handle_closed_total}
use ugo.PullRequestHandler.StatusChange.{Told, checks_of, handle_status_change_first}
use ugo.Sample.Driver.{lookup, first_match}
use ugo.Sample.Data.{
  running, state, first_item, second_item, first_info, second_info, main_id, merged_pull_request,
  answer, state-AllDistinct, short-main, booked-main,
}

abbrev p : PullRequest
p = merged_pull_request

handle_closed_total_example :
    (w' : World running) × (handle_closed running p state ≡ fulfilled (location_of p) w')
    × IsClosed running p state w'
handle_closed_total_example =
    handle_closed_total running (λ rs r. answer) (λ rs r. refl) p state refl
      (state-AllDistinct main_id) (λ _. ("bob", refl))

abbrev closed_state : World running
closed_state = world_of (handle_closed running p state)

closed : handle_closed running p state ≡ fulfilled (location_of p) closed_state
closed =
    let (w', e, gone) =
      handle_closed_total running (λ rs r. answer) (λ rs r. refl) p state refl
        (state-AllDistinct main_id) (λ _. ("bob", refl)) in
    rw e refl

handle_sync_lem_example :
    (w' : World running) × Stored running p 5 state w'
    × (handle_sync running p 5 state
        ≡ settle_then
            (get_pull_request_and_update_status running "acme" "shop" 1
              (if is_number (head? (booked running state main_id)) 1
                then status_success
                else status_failure)
              (title_at running (position_of 1 (booked running state main_id)))
              w')
            (λ _. resolve (location_of p)))
handle_sync_lem_example = handle_sync_lem running p 5 state refl short-main

set_all_pull_requests_statuses_lem_example :
    set_all_pull_requests_statuses running "acme" "shop" "main" state
    ≡ all_of
        (get_pull_request_and_update_status running "acme" "shop" 1 status_success
            (title_at running (pos 0))
          ∷ blocks running "acme" "shop" 1 (take 5 (second_item ∷ [])))
        state
set_all_pull_requests_statuses_lem_example =
    set_all_pull_requests_statuses_lem running "acme" "shop" "main" first_item (second_item ∷ [])
      state refl (omega arith) booked-main

actions_for-none_example : actions_for running "Merged" ≡ none
actions_for-none_example = actions_for-none running "Merged"

found_first :
    get_pull_request_info_by_sha running "acme" "shop" "abc" state
    ≡ fulfilled (some first_info) state
unfolding get_pull_request_info_by_sha lookup first_match decimal
found_first = refl

found_second :
    get_pull_request_info_by_sha running "acme" "shop" "def" state
    ≡ fulfilled (some second_info) state
unfolding get_pull_request_info_by_sha lookup first_match decimal
found_second = refl

head-main : head? (booked running state main_id) ≡ some first_item
unfolding lookup
head-main = refl

second_differs :
    (x : Item)
    → head? (booked running state main_id) ≡ some x
    → second_info.pull_request_number ≢ some x.pull_request_number
second_differs x e = ground (arith, head-main)

handle_status_change_first_example :
    (status : String) × (w1 w' : World running) × (get_hash_combined_status running
        (some 5)
        "acme"
        "shop"
        "abc"
        state
      ≡ fulfilled status w1)
    × (handle_status_change running "acme" "shop" "abc" state ≡ fulfilled tt w')
    × (w1.queues ≡ state.queues)
    × (w1.pull_requests ≡ state.pull_requests)
    × Told running
        (checks_of "acme" "shop" (some "main") first_item status)
        (or_default none status_pending)
        w1
        w'
handle_status_change_first_example =
    handle_status_change_first running "acme" "shop" "abc" state refl first_info found_first
      first_item head-main refl

requests-set_all_pull_requests_statuses_example :
    length (world_of (set_all_pull_requests_statuses running "acme" "shop" "main" state)).requests
    ≤ length state.requests + 24
requests-set_all_pull_requests_statuses_example =
    requests-set_all_pull_requests_statuses running "acme" "shop" "main" state
