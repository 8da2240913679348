-- ===== src/PullRequestHandler/ClosedTotal.antt =====
-- handler-pullrequest.js, `handleClosed`: a pull request is closed while GitHub answers.
use ugo.Base.{
  ℕ, ◌≡◌, refl, ◌∙◌, subst, String, Bool, true, false, List, [], ◌∷◌, ◌++◌, Option, none, some,
  find?,
}
use ugo.Model.Queue.{has_number}
use ugo.Model.PullRequest.{Info}
use ugo.Model.Message.{info_delete}
use ugo.Model.Http.{Request, Response}
use ugo.GitHub.Reports.{create_check_run_for_pull_request_lem}
use ugo.GitHub.CombinedStatus.{status_success, status_failure}
use ugo.World.{text, Services, World, fulfilled}
use ugo.Promise.{world_of}
use ugo.GitHub.Frame.{SameStore}
use ugo.PullRequestManager.{pull_request_id}
use ugo.PullRequestManager.Effects.{known, delete_pull_request_info_lem}
use ugo.QueueManager.{queue_id}
use ugo.QueueManager.Bookings.{booked}
use ugo.QueueManager.Queries.{get_item_lem}
use ugo.QueueManager.Unique.{Distinct}
use ugo.PullRequestHandler.{
  PullRequest, location_of, report_known, check_run_options, block_pull_request,
  unblock_pull_request, or_default, description_first, description_not_in_queue,
}
use ugo.PullRequestHandler.Handlers.{handle_closed, merge_description, block_or_unblock}
use ugo.PullRequestHandler.Statuses.{get_pull_request_and_update_status_lem}
use ugo.PullRequestHandler.Frame.{KeepsStore-block_or_unblock}
use ugo.PullRequestHandler.Closed.{IsClosed, closing, remove_if_there_lem, handle_closed-IsClosed}

-- Where GitHub answers every request.
module _ (s : Services) (f : List Request → Request → Response)
    (answers : (rs : List Request) (r : Request) → s.respond rs r ≡ some (f rs r)) where
  report_known-fulfilled :
      (owner repo status description : String) (o : Option Info) (w : World s)
      → (w' : World s) × (report_known s owner repo status description o w ≡ fulfilled tt w')
  report_known-fulfilled owner repo status description none w = (w, refl)
  report_known-fulfilled owner repo status description (some i) w =
      let (w', e, sent) =
        create_check_run_for_pull_request_lem s f answers
          (check_run_options s owner repo status description i) w in
      (w', e)

  block_or_unblock-fulfilled :
      (b : Bool) (owner repo : String) (n : ℕ) (d : Option String) (w : World s)
      → w.online ≡ true
      → (w' : World s) × (block_or_unblock s b owner repo n d w ≡ fulfilled tt w')
  unfolding block_pull_request unblock_pull_request
  block_or_unblock-fulfilled true owner repo n d w on =
      rw
        (get_pull_request_and_update_status_lem s owner repo n status_success
          (or_default d (description_first s)) w on)
        (report_known-fulfilled owner repo status_success (or_default d (description_first s))
          (known s w (pull_request_id owner repo n)) w)
  block_or_unblock-fulfilled false owner repo n d w on =
      rw
        (get_pull_request_and_update_status_lem s owner repo n status_failure
          (or_default d (description_not_in_queue s)) w on)
        (report_known-fulfilled owner repo status_failure
          (or_default d (description_not_in_queue s)) (known s w (pull_request_id owner repo n)) w)

  closing_total :
      (p : PullRequest) (d : Option String) (w : World s)
      → w.online ≡ true
      → (w' : World s) × (closing s p d w ≡ fulfilled (location_of p) w')
  closing_total p d w on =
      let found =
        find? (has_number p.number) (booked s w (queue_id p.base_owner p.base_repo p.base_ref)) in
      let (w1, e1, on1, same1, after1) =
        remove_if_there_lem s p.base_owner p.base_repo p.base_ref found w on in
      let (w2, e2) =
        block_or_unblock-fulfilled p.merged p.base_owner p.base_repo p.number d w1 on1 in
      let kept : SameStore w1 w2 =
        subst (λ r. SameStore w1 (world_of r)) e2
          (KeepsStore-block_or_unblock s p.merged p.base_owner p.base_repo p.number d w1) in
      let (t, e3, after3) =
        delete_pull_request_info_lem s w2 (kept.online ∙ on1) p.base_owner p.base_repo p.number in
      (
        record w2 {
          pull_requests = t;
          published = w2.published ++ info_delete p.base_owner p.base_repo p.number ∷ [];
        },
        rw (get_item_lem s p.base_owner p.base_repo p.base_ref w on p.number, e1, e2, e3) refl,
      )

  -- Where GitHub answers every request and the database answers, the queue of the base branch holds
  -- no pull request twice, and a merged pull request comes with the user that merged it:
  -- handleClosed is fulfilled with the pull request's location, its booking is gone from the queue,
  -- what is known of it is deleted, and other queues and other pull requests are as they were.
  pub handle_closed_total :
      (p : PullRequest) (w : World s)
      → w.online ≡ true
      → Distinct (booked s w (queue_id p.base_owner p.base_repo p.base_ref))
      → (p.merged ≡ true → (u : String) × (p.merged_by ≡ some u))
      → (w' : World s) × (handle_closed s p w ≡ fulfilled (location_of p) w') × IsClosed s p w w'
  unfolding handle_closed
  handle_closed_total p w on distinct user =
      let (d, described) = described p.merged p.merged_by user in
      let (w', e) = closing_total p d w on in
      let handled : handle_closed s p w ≡ fulfilled (location_of p) w' = rw described e in
      (w', handled, (handle_closed-IsClosed s p w w' (location_of p) on distinct handled).1)
    where
      described :
          (merged : Bool) (u : Option String)
          → (merged ≡ true → (v : String) × (u ≡ some v))
          → (d : Option String) × (merge_description s merged u w ≡ fulfilled d w)
      described false u h = (none, refl)
      described true none h = cc ((h refl).1)
      described true (some v) h =
          (some (s.localize "pullRequest.merged" (("username", text v) ∷ [])), refl)
