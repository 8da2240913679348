-- ===== src/PullRequestHandler/Statuses.antt =====
-- handler-pullrequest.js: which check runs an event makes.
use ugo.Base.{
  ℕ, suc, ◌≡◌, ◌≤◌, refl, String, true, List, [], ◌∷◌, ◌++◌, some, if◌then◌else◌, pos, negsuc,
  length, take, str_eq_refl, subst, sym,
}
use ugo.Model.Queue.{Item}
use ugo.Model.PullRequest.{Info, no_info, merge}
use ugo.Model.Message.{info_set}
use ugo.World.{Services, World, Promise, fulfilled}
use ugo.Promise.{resolve, all_of, settle_then}
use ugo.GitHub.CombinedStatus.{status_success, status_failure}
use ugo.PullRequestManager.{pull_request_id}
use ugo.PullRequestManager.Effects.{
  known, get_pull_request_info_lem, set_pull_request_info_lem, or_nothing,
}
use ugo.QueueManager.{is_number, head?, queue_id, get_items, max_safe_integer}
use ugo.QueueManager.Bookings.{booked, bookings}
use ugo.QueueManager.Queries.{get_items_lem}
use ugo.PullRequestHandler.{
  PullRequest, location_of, position_of, report_known, update_pull_request_info, block_pull_request,
  get_pull_request_and_update_status,
}
use ugo.PullRequestHandler.Handlers.{
  handle_opened, handle_sync, status_updates, set_all_pull_requests_statuses,
}
use ugo.PullRequestHandler.Position.{title_at, set_status_at, status_at-position_of}

-- What an event writes of a pull request.
abbrev pub info_of_event : PullRequest → ℕ → Info
info_of_event p installation_id = record no_info {
  installation_id = some installation_id;
  pull_request_number = some p.number;
  title = some p.title;
  author = some p.author;
  human_url = some p.html_url;
  branch = some p.base_ref;
  assignees = some p.assignees;
  sha = some p.head_sha;
}

abbrev pub id_of : PullRequest → String
id_of p = pull_request_id p.base_owner p.base_repo p.number

module _ (s : Services) where
  -- The failures of the bookings behind the head, from an index on.
  abbrev pub blocks : String → String → ℕ → List Item → List (Promise s (Unit {0}))
  blocks owner repo i [] = []
  blocks owner repo i (x ∷ xs) =
      get_pull_request_and_update_status s owner repo x.pull_request_number status_failure
        (title_at s (pos i))
      ∷ blocks owner repo (suc i) xs

  status_updates-blocks :
      (owner repo : String) (i : ℕ) (xs : List Item)
      → status_updates s owner repo (suc i) xs ≡ blocks owner repo (suc i) xs
  status_updates-blocks owner repo i [] = refl
  status_updates-blocks owner repo i (x ∷ xs) = rw (
    set_status_at s owner repo x.pull_request_number (pos (suc i)),
    status_updates-blocks owner repo (suc i) xs,
  )

  -- Where the database answers and the queue is not empty and no longer than the largest safe
  -- integer, its first pull request gets a success, the next five get a failure each, with their
  -- place in the title, and those behind get nothing.
  pub set_all_pull_requests_statuses_lem :
      (owner repo branch : String) (x : Item) (xs : List Item) (w : World s)
      → w.online ≡ true
      → length (x ∷ xs) ≤ max_safe_integer
      → booked s w (queue_id owner repo branch) ≡ x ∷ xs
      → set_all_pull_requests_statuses s owner repo branch w
        ≡ all_of
            (get_pull_request_and_update_status s owner repo x.pull_request_number status_success
                (title_at s (pos 0))
              ∷ blocks owner repo 1 (take 5 xs))
            w
  unfolding set_all_pull_requests_statuses
  set_all_pull_requests_statuses_lem owner repo branch x xs w on short here = rw (
    get_items_lem s owner repo branch w on (rw here short),
    here,
    set_status_at s owner repo x.pull_request_number (pos 0),
    status_updates-blocks owner repo 0 (take 5 xs),
  )

  -- The state after the information of an event is stored.
  abbrev pub Stored : PullRequest → ℕ → World s → World s → Type 0
  Stored p installation_id w w' =
      (w'.online ≡ true)
      × (w'.queues ≡ w.queues)
      × (w'.published
          ≡ w.published
            ++ info_set p.base_owner p.base_repo p.number (info_of_event p installation_id) ∷ [])
      × (known s w' (id_of p)
          ≡ some (merge (info_of_event p installation_id) (or_nothing (known s w (id_of p)))))

  update_pull_request_info_lem :
      (p : PullRequest) (installation_id : ℕ) (w : World s)
      → w.online ≡ true
      → (w' : World s) × (update_pull_request_info s p installation_id w
          ≡ fulfilled (location_of p) w')
        × Stored p installation_id w w'
  unfolding update_pull_request_info
  update_pull_request_info_lem p installation_id w on =
      let (t, e, after) =
        set_pull_request_info_lem s w on p.base_owner p.base_repo p.number
          (info_of_event p installation_id) in
      (
        record w {
          pull_requests = t;
          published =
              w.published
              ++ info_set p.base_owner p.base_repo p.number (info_of_event p installation_id) ∷ [];
        },
        rw e refl,
        (on, refl, refl, rw (after (id_of p), str_eq_refl (id_of p)) refl),
      )

  -- Where the database answers and the queue is no longer than the largest safe integer, handleSync
  -- stores the information of the event merged into what is known, publishes it, and then gives the
  -- commit a success if the pull request is booked first and a failure if not, with the title of
  -- its place, or of no place, in the queue.
  pub handle_sync_lem :
      (p : PullRequest) (installation_id : ℕ) (w : World s)
      → w.online ≡ true
      → length (booked s w (queue_id p.base_owner p.base_repo p.base_ref)) ≤ max_safe_integer
      → (w' : World s) × Stored p installation_id w w'
        × (handle_sync s p installation_id w
            ≡ settle_then
                (get_pull_request_and_update_status s p.base_owner p.base_repo p.number
                  (if is_number
                      (head? (booked s w (queue_id p.base_owner p.base_repo p.base_ref)))
                      p.number
                    then status_success
                    else status_failure)
                  (title_at s (
                    position_of p.number
                      (booked s w (queue_id p.base_owner p.base_repo p.base_ref))))
                  w')
                (λ _. resolve (location_of p)))
  unfolding handle_sync
  handle_sync_lem p installation_id w on short =
      let (w', e, stored) = update_pull_request_info_lem p installation_id w on in
      let id = queue_id p.base_owner p.base_repo p.base_ref in
      let items =
        subst
          (λ q. get_items s p.base_owner p.base_repo p.base_ref w' ≡ fulfilled (bookings s q id) w')
          stored.1
          (get_items_lem s p.base_owner p.base_repo p.base_ref w' stored.0
            (subst (λ q. length (bookings s q id) ≤ max_safe_integer) (sym stored.1) short)) in
      (
        w',
        stored,
        rw (
          e,
          items,
          set_status_at s p.base_owner p.base_repo p.number (position_of p.number (booked s w id)),
          status_at-position_of s p.number (booked s w id),
        ),
      )

  -- Where the database answers, handleOpened stores the information of the event merged into what is
  -- known, publishes it, and then gives the commit a failure with the title for no place in the
  -- queue.
  pub handle_opened_lem :
      (p : PullRequest) (installation_id : ℕ) (w : World s)
      → w.online ≡ true
      → (w' : World s) × Stored p installation_id w w'
        × (handle_opened s p installation_id w
            ≡ settle_then
                (get_pull_request_and_update_status s p.base_owner p.base_repo p.number
                  status_failure
                  (title_at s (negsuc 0))
                  w')
                (λ _. resolve (location_of p)))
  unfolding handle_opened block_pull_request
  handle_opened_lem p installation_id w on =
      let (w', e, stored) = update_pull_request_info_lem p installation_id w on in
      (w', stored, rw e)

  -- Where the database answers, a status of a pull request makes the check run with what is stored
  -- of the pull request, and does nothing if nothing is stored.
  pub get_pull_request_and_update_status_lem :
      (owner repo : String) (n : ℕ) (status description : String) (w : World s)
      → w.online ≡ true
      → get_pull_request_and_update_status s owner repo n status description w
        ≡ report_known s owner repo status description (known s w (pull_request_id owner repo n)) w
  unfolding get_pull_request_and_update_status
  get_pull_request_and_update_status_lem owner repo n status description w on =
      rw (get_pull_request_info_lem s w on owner repo n)
