-- ===== src/Sample/Service.antt =====
-- The theorems on handler-event-queue.js and on the service as a whole, at a branch with two bookings.
use mathlib.Core.List.{mem-cons_self}
use ugo.Base.{
  ◌≡◌, refl, true, false, List, [], ◌∷◌, ◌++◌, some, if◌then◌else◌, pos, length, is_empty,
}
use ugo.Model.Queue.{Item}
use ugo.Model.Message.{Message, Meta}
use ugo.World.{World, failure, Promise}
use ugo.Promise.{world_of, catch, log_error}
use ugo.GitHub.CombinedStatus.{status_success, status_failure}
use ugo.QueueManager.{queue_id, head?}
use ugo.QueueManager as Queue
use ugo.QueueManager.Bookings.{booked}
use ugo.QueueManager.Unique.{AllDistinct}
use ugo.PullRequestHandler.{get_pull_request_and_update_status}
use ugo.PullRequestHandler.Position.{title_at}
use ugo.QueueEvents.{subscribers}
use ugo.QueueEvents.Laws.{told, booking-status}
use ugo.Sample.Events.{accept, nothing_known, empty_body}
use ugo.Service.{Call, github, perform, deliver, serves, delivers, Reach, here, next}
use ugo.Service.Invariant.{Reach-AllDistinct}
use ugo.Sample.Data.{running, state, new_item, main_id, added, state-AllDistinct, new-third}

abbrev delivered : World running
delivered = world_of (deliver running added state)

abbrev cancels : Call running Item accept
cancels = github (record nothing_known {
  event = some "check_run";
  body = record empty_body {
    action = some "requested_action";
    sender_login = some "ann";
    repository = some (record { name = "shop"; owner_login = "acme" });
    requested_action_identifier = some "queue-remove";
    check_run_pull_request = some (record { number = some 1; base_ref = some "main" });
  };
})

reach : Reach running Item accept state (world_of (perform running Item accept cancels delivered))
reach = next (next here (delivers added mem-cons_self)) (serves cancels)

Reach-AllDistinct_example :
    AllDistinct running (world_of (perform running Item accept cancels delivered))
Reach-AllDistinct_example = Reach-AllDistinct running Item accept reach state-AllDistinct

booking-status_example :
    let xs = booked running state main_id in
    let w1 = world_of (Queue.add_item running "acme" "shop" "main" new_item state) in
    (m : Message) × (callback : Promise running (Unit {0})) × (rest : List
      (Promise running (Unit {0})))
    × (w1.published ≡ state.published ++ m ∷ [])
    × (subscribers running m ≡ callback ∷ rest)
    × (callback w1
        ≡ catch
            (get_pull_request_and_update_status running "acme" "shop" 3
              (if is_empty xs then status_success else status_failure)
              (title_at running (pos (length xs))))
            (λ e. log_error (failure e))
            (if is_empty xs then told running "acme" "shop" "main" w1 new_item else w1))
booking-status_example = booking-status running "acme" "shop" "main" new_item state refl new-third

abbrev changed : Meta
changed = record { closed = false; first_item_changed = true }
