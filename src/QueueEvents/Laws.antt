-- ===== src/QueueEvents/Laws.antt =====
-- What the callbacks of handler-event-queue.js tell and report.
use ugo.QueueManager as Queue
use ugo.QueueManager.Effects.{add_item_new}
use ugo.Base.{
  ℕ, suc, ◌≡◌, ◌≤◌, refl, String, true, false, List, [], ◌∷◌, ◌++◌, none, some, if◌then◌else◌, pos,
  length, arith, is_empty, any,
}
use ugo.Model.Queue.{Item, QueueDocument, has_number}
use ugo.Model.Message.{Message, Meta, send_queue_first, send_update, gauge, item_add}
use ugo.World.{Services, World, Promise, fulfilled, failure}
use ugo.Promise.{catch, log_error, world_of}
use ugo.GitHub.CombinedStatus.{status_success, status_failure}
use ugo.QueueManager.{queue_id, head?, get_items, get_length, max_safe_integer}
use ugo.QueueManager.Bookings.{booked}
use ugo.QueueManager.Queries.{get_first_item_lem, get_items_lem, get_length_lem}
use ugo.PullRequestHandler.{is_zero, get_pull_request_and_update_status}
use ugo.PullRequestHandler.Position.{title_at, set_status_at}
use ugo.QueueEvents.{
  subscribers, queue_tag, add_item, notify_on_first_item_changed, report_queue_size,
  push_queue_update,
}

is_zero-suc : (n : ℕ) → is_zero (pos (suc n)) ≡ false
is_zero-suc n = ground arith

module _ (s : Services) (owner repo branch : String) (w : World s) where
  -- The state after the user of a booking is told that it is first.
  abbrev pub told : Item → World s
  told x = record w {
    published = w.published ++ send_queue_first owner repo x.pull_request_number x.username ∷ [];
  }

  -- The callback for a booking behind others.
  add_item_at :
      (x : Item) (xs : List Item)
      → add_item s owner repo x (pos (length xs)) w
        ≡ catch
            (get_pull_request_and_update_status s owner repo x.pull_request_number
              (if is_empty xs then status_success else status_failure)
              (title_at s (pos (length xs))))
            (λ e. log_error (failure e))
            (if is_empty xs then told x else w)
  unfolding add_item
  add_item_at x [] = rw (set_status_at s owner repo x.pull_request_number (pos 0))
  add_item_at x (y ∷ ys) = rw (
    is_zero-suc (length ys),
    set_status_at s owner repo x.pull_request_number (pos (suc (length ys))),
  )

  -- Where the database answers and the message of a removal says that the first item has changed,
  -- the user of the booking that is first now is told, if there is one, and nothing else happens.
  pub notify_on_first_item_changed_lem :
      (meta : Meta)
      → w.online ≡ true
      → meta.first_item_changed ≡ true
      → notify_on_first_item_changed s owner repo branch meta w
        ≡ fulfilled tt
            (elim (head? (booked s w (queue_id owner repo branch))) [ none ↦ w | some x ↦ told x ])
  unfolding notify_on_first_item_changed
  notify_on_first_item_changed_lem meta on changed =
      rw (changed, get_first_item_lem s owner repo branch w on) (ground arith)

  -- Where the database answers, the queue is no longer than the largest safe integer, and its
  -- document, if there is one, has its array: the size that is reported is the number of bookings,
  -- and the update that is sent holds all of them, in the order of the queue.
  pub reports_of_queue :
      w.online ≡ true
      → length (booked s w (queue_id owner repo branch)) ≤ max_safe_integer
      → ((d : QueueDocument)
          → s.queue_collection.stored w.queues (queue_id owner repo branch) ≡ some d
          → (xs : List Item) × (d.queue ≡ some xs))
      → (report_queue_size s owner repo branch w
          ≡ fulfilled tt (record w {
            published =
                w.published
                ++ gauge "queue.length"
                    (some (length (booked s w (queue_id owner repo branch))))
                    (queue_tag owner repo branch ∷ [])
                  ∷ [];
          }))
        × (push_queue_update s owner repo branch w
            ≡ fulfilled tt (record w {
              published =
                  w.published
                  ++ send_update owner repo branch (booked s w (queue_id owner repo branch)) ∷ [];
            }))
  unfolding report_queue_size push_queue_update
  reports_of_queue on short array = (
    rw (get_length_lem s owner repo branch w on array),
    rw (get_items_lem s owner repo branch w on short),
  )

-- Where the database answers, adding a pull request that is not in the queue publishes one message,
-- whose first callback gives the pull request a success and tells its user if the queue was empty,
-- and a failure if not; the title is the one for the number of bookings before it, from six on the
-- one for more than five; a failure of this is logged.
pub booking-status :
    (s : Services) (owner repo branch : String) (x : Item) (w : World s)
    → w.online ≡ true
    → any (has_number x.pull_request_number) (booked s w (queue_id owner repo branch)) ≡ false
    → let xs = booked s w (queue_id owner repo branch) in
      let w1 = world_of (Queue.add_item s owner repo branch x w) in
      (m : Message) × (callback : Promise s (Unit {0})) × (rest : List (Promise s (Unit {0})))
      × (w1.published ≡ w.published ++ m ∷ [])
      × (subscribers s m ≡ callback ∷ rest)
      × (callback w1
          ≡ catch
              (get_pull_request_and_update_status s owner repo x.pull_request_number
                (if is_empty xs then status_success else status_failure)
                (title_at s (pos (length xs))))
              (λ e. log_error (failure e))
              (if is_empty xs then told s owner repo branch w1 x else w1))
unfolding subscribers
booking-status s owner repo branch x w on new =
    let xs = booked s w (queue_id owner repo branch) in
    let w1 = world_of (Queue.add_item s owner repo branch x w) in
    let (t, e, after) = add_item_new s owner repo branch x w on new in
    (
      item_add owner repo branch x (pos (length xs)),
      add_item s owner repo x (pos (length xs)),
      _,
      rw e refl,
      refl,
      add_item_at s owner repo branch w1 x xs,
    )
