-- ===== src/PullRequestHandler/StatusChange.antt =====
-- handler-pullrequest.js, `handleStatusChange`: the checks of a commit have a new result.
use ugo.Base.{
  ap, Option-cases, ℕ, ◌≡◌, ◌≢◌, refl, sym, ◌∙◌, inl, inr, String, true, List, [], ◌∷◌, ◌++◌,
  Option, none, some, if◌then◌else◌, str_eq, str_eq_refl, arith, ==_refl, Bool-cases,
}
use mathlib.Core.List.{append-nil}
use ugo.Model.Queue.{Item}
use ugo.Model.PullRequest.{with_sha, info_only, Info, no_info, merge}
use ugo.Model.Message.{Message, Checks, info_set, send_checks, cancel_checks}
use ugo.World.{Services, World, fulfilled}
use ugo.Promise.{world_of}
use ugo.GitHub.{get_hash_combined_status, shown}
use ugo.GitHub.CombinedStatus.{status_pending}
use ugo.GitHub.Frame.{get_hash_combined_status_total}
use ugo.PullRequestManager.{pull_request_id, get_pull_request_info_by_sha}
use ugo.PullRequestManager.Effects.{known, or_nothing, set_pull_request_info_lem}
use ugo.QueueManager.{queue_id, head?}
use ugo.QueueManager.Bookings.{booked}
use ugo.QueueManager.Queries.{get_first_item_lem}
use ugo.PullRequestHandler.{or_default}
use ugo.PullRequestHandler.Handlers.{
  handle_status_change, store_status, is_item_of, status_of_first,
}

is_item_of-eq : (x : Item) (n : Option ℕ) → is_item_of x n ≡ true → n ≡ some x.pull_request_number
is_item_of-eq x none e = cc
is_item_of-eq x (some n) e = ground arith

-- The message about a status, as the handler of notifications reads it.
abbrev pub checks_of : String → String → Option String → Item → String → Checks
checks_of owner repo branch x state = record {
  owner = owner;
  repo = repo;
  branch = branch;
  pull_request_number = x.pull_request_number;
  username = x.username;
  state = state;
}

-- What is published of a status: nothing if it is the old one.
abbrev pub news : Checks → String → List Message
news c old =
    if str_eq c.state old
    then []
    else (if str_eq c.state status_pending then cancel_checks c else send_checks c) ∷ []

-- The state after a status is stored and told.
abbrev pub Told : (s : Services) → Checks → String → World s → World s → Type 0
Told s c old w w' =
    let id = pull_request_id c.owner c.repo c.pull_request_number in
    (w'.queues ≡ w.queues)
    × (known s w' id
        ≡ some (merge (record no_info { status = some c.state }) (or_nothing (known s w id))))
    × (w'.published
        ≡ (w.published
            ++ info_set c.owner c.repo c.pull_request_number
                (record no_info { status = some c.state })
              ∷ [])
          ++ news c old)

store_status_lem :
    (s : Services) (owner repo : String) (branch : Option String) (x : Item) (old status : String)
    (w : World s)
    → w.online ≡ true
    → Told s
        (checks_of owner repo branch x status)
        old
        w
        (world_of (store_status s owner repo branch x old status w))
unfolding store_status
store_status_lem s owner repo branch x old status w on =
    let (t, e, after) =
      set_pull_request_info_lem s w on owner repo x.pull_request_number
        (record no_info { status = some status }) in
    let id = pull_request_id owner repo x.pull_request_number in
    elim (Bool-cases (str_eq status old)) [
      | inl same ↦ rw (e, same) (refl, rw (after id, str_eq_refl id) refl, sym (append-nil _))
      | inr other ↦ rw (e, other) (refl, rw (after id, str_eq_refl id) refl, refl)
    ]

module _ (s : Services) (owner repo sha : String) (w : World s) (on : w.online ≡ true) where
  -- A commit of no known pull request changes nothing.
  pub handle_status_change_unknown :
      get_pull_request_info_by_sha s owner repo sha w ≡ fulfilled none w
      → handle_status_change s owner repo sha w ≡ fulfilled tt w
  unfolding handle_status_change
  handle_status_change_unknown e = rw e

  module _ (i : Info)
      (found : get_pull_request_info_by_sha s owner repo sha w ≡ fulfilled (some i) w) where
    first_only :
        (o : Option Item)
        → ((x : Item) → o ≡ some x → i.pull_request_number ≢ some x.pull_request_number)
        → status_of_first s owner repo sha i o w ≡ fulfilled tt w
    first_only none other = refl
    first_only (some x) other = elim (Bool-cases (is_item_of x i.pull_request_number)) [
      | inl same ↦ absurd (other x refl (is_item_of-eq x i.pull_request_number same))
      | inr differ ↦ rw differ refl
    ]

    -- Where the database answers, a commit of a known pull request that is not booked first changes
    -- nothing.
    pub handle_status_change_other :
        ((x : Item)
          → head? (booked s w (queue_id owner repo (shown i.branch))) ≡ some x
          → i.pull_request_number ≢ some x.pull_request_number)
        → handle_status_change s owner repo sha w ≡ fulfilled tt w
    unfolding handle_status_change
    handle_status_change_other other =
        rw (found, get_first_item_lem s owner repo (shown i.branch) w on)
          (first_only (head? (booked s w (queue_id owner repo (shown i.branch)))) other)

    -- Where the database answers and the commit is that of the pull request that is booked first,
    -- handleStatusChange is fulfilled: the combined status is read, which changes neither queues
    -- nor pull requests, and is stored, and a message with it is published if it is not the old
    -- one, where `pending` stands for no old one; a pending status cancels the checks, any other
    -- sends them.
    pub handle_status_change_first :
        (x : Item)
        → head? (booked s w (queue_id owner repo (shown i.branch))) ≡ some x
        → i.pull_request_number ≡ some x.pull_request_number
        → (status : String) × (w1 w' : World s) × (get_hash_combined_status s i.installation_id
              owner repo sha w
            ≡ fulfilled status w1)
          × (handle_status_change s owner repo sha w ≡ fulfilled tt w')
          × (w1.queues ≡ w.queues)
          × (w1.pull_requests ≡ w.pull_requests)
          × Told s
              (checks_of owner repo i.branch x status)
              (or_default i.status status_pending)
              w1
              w'
    unfolding handle_status_change
    handle_status_change_first x first same =
        let (status, w1, e, kept) =
          get_hash_combined_status_total i.installation_id owner repo sha w in
        (
          status,
          w1,
          world_of
              (store_status s owner repo i.branch x (or_default i.status status_pending) status w1),
          e,
          rw
              (
                found,
                get_first_item_lem s owner repo (shown i.branch) w on,
                first,
                same,
                ==_refl x.pull_request_number,
                e,
              )
              refl,
          kept.queues,
          kept.pull_requests,
          store_status_lem s owner repo i.branch x (or_default i.status status_pending) status w1
              (kept.online ∙ on),
        )

  abbrev found_by_sha : Option Info
  found_by_sha =
      s.pull_request_collection.find_one (with_sha owner repo sha) info_only w.pull_requests

  by_sha_lem : get_pull_request_info_by_sha s owner repo sha w ≡ fulfilled found_by_sha w
  unfolding get_pull_request_info_by_sha
  by_sha_lem = ground (arith, on)

  known_total :
      (i : Info)
      → get_pull_request_info_by_sha s owner repo sha w ≡ fulfilled (some i) w
      → (w' : World s) × (handle_status_change s owner repo sha w ≡ fulfilled tt w')
  unfolding handle_status_change
  known_total i found =
      elim (Option-cases (head? (booked s w (queue_id owner repo (shown i.branch))))) [
        | inl empty ↦
            (w, rw (found, get_first_item_lem s owner repo (shown i.branch) w on, empty) refl)
        | inr (x, first) ↦ elim (Bool-cases (is_item_of x i.pull_request_number)) [
          | inr other ↦ (
            w,
            rw (found, get_first_item_lem s owner repo (shown i.branch) w on, first, other) refl,
          )
          | inl same ↦
              let (status, w1, e, kept) =
                get_hash_combined_status_total i.installation_id owner repo sha w in
              (
                world_of (
                    store_status s owner repo i.branch x (or_default i.status status_pending) status
                      w1),
                rw (found, get_first_item_lem s owner repo (shown i.branch) w on, first, same, e)
                    refl,
              )
        ]
      ]

  -- Where the database answers, handleStatusChange is fulfilled.
  pub handle_status_change_total :
      (w' : World s) × (handle_status_change s owner repo sha w ≡ fulfilled tt w')
  handle_status_change_total = elim (Option-cases found_by_sha) [
    | inl absent ↦ (w, handle_status_change_unknown (by_sha_lem ∙ ap (λ o. fulfilled o w) absent))
    | inr (i, found) ↦ known_total i (by_sha_lem ∙ ap (λ o. fulfilled o w) found)
  ]
