-- ===== src/QueueManager/Queries.antt =====
-- What the queries of manager-queue.js return, and what every operation does without a database.
use ugo.Base.{
  ℕ, ◌≡◌, inl, inr, String, true, false, List, [], ◌∷◌, ◌++◌, some, length, take, find?, arith,
  Option-cases, take-length, take-nil, ◌∙◌, false, ◌≤◌, ap,
}
use ugo.Model.Queue.{Item, QueueDocument, has_number, slice, elem_match}
use ugo.Model.Message.{Meta}
use ugo.World.{Services, World, fulfilled, rejected, failure, database_error}
use ugo.QueueManager.{
  queue_id, head?, max_safe_integer, delete_queue, add_item, remove_item, get_some_items, get_items,
  get_item, get_first_item, get_length,
}
use ugo.QueueManager.Bookings.{booked}

module _ (s : Services) (owner repo branch : String) (w : World s) (on : w.online ≡ true) where
  open s use {queue_collection, queue_driver, queue_queries}

  -- Where the database answers, getItems with a number of items returns that many of the first
  -- bookings, in the order of the queue, and changes nothing.
  pub get_some_items_lem :
      (n : ℕ)
      → get_some_items s owner repo branch n w
        ≡ fulfilled (take n (booked s w (queue_id owner repo branch))) w
  unfolding get_some_items
  get_some_items_lem n =
      elim (Option-cases (queue_collection.stored w.queues (queue_id owner repo branch))) [
        | inl absent ↦ ground (
          arith,
          queue_driver.find_by_id-eq (queue_id owner repo branch) (slice n) w.queues,
          take-nil {0} {A = Item} n,
        )
        | inr (d, found) ↦ ground (
          arith,
          queue_driver.find_by_id-eq (queue_id owner repo branch) (slice n) w.queues,
          queue_queries.project-slice n d,
          take-nil {0} {A = Item} n,
        )
      ]

  -- Without a number it returns them all, if they are no more than the largest safe integer.
  pub get_items_lem :
      length (booked s w (queue_id owner repo branch)) ≤ max_safe_integer
      → get_items s owner repo branch w ≡ fulfilled (booked s w (queue_id owner repo branch)) w
  unfolding get_items
  get_items_lem short =
      get_some_items_lem max_safe_integer ∙ ap (λ xs. fulfilled xs w) (take-length _ _ short)

  -- Where the database answers, getItem returns the first booking with the number, if there is one,
  -- and changes nothing.
  pub get_item_lem :
      (n : ℕ)
      → get_item s owner repo branch n w
        ≡ fulfilled (find? (has_number n) (booked s w (queue_id owner repo branch))) w
  unfolding get_item
  get_item_lem n =
      elim (Option-cases (queue_collection.stored w.queues (queue_id owner repo branch))) [
        | inl absent ↦
            ground (
              arith,
              queue_driver.find_by_id-eq (queue_id owner repo branch) (elem_match n) w.queues,
            )
        | inr (d, found) ↦ ground (
          arith,
          queue_driver.find_by_id-eq (queue_id owner repo branch) (elem_match n) w.queues,
          queue_queries.project-elem_match n d,
        )
      ]

  -- `getFirstItem` returns the head of the queue.
  pub get_first_item_lem :
      get_first_item s owner repo branch w
      ≡ fulfilled (head? (booked s w (queue_id owner repo branch))) w
  unfolding get_first_item
  get_first_item_lem = ground (arith, get_some_items_lem 1)

  -- `getLength` counts the bookings, if a document that is there has its array.
  pub get_length_lem :
      ((d : QueueDocument)
        → queue_collection.stored w.queues (queue_id owner repo branch) ≡ some d
        → (xs : List Item) × (d.queue ≡ some xs))
      → get_length s owner repo branch w
        ≡ fulfilled (length (booked s w (queue_id owner repo branch))) w
  unfolding get_length
  get_length_lem array =
      elim (Option-cases (queue_collection.stored w.queues (queue_id owner repo branch))) [
        | inl absent ↦
            ground (arith, s.queue_sizes-none (queue_id owner repo branch) w.queues absent)
        | inr (d, found) ↦
            let (xs, e) = array d found in
            ground (arith, e, s.queue_sizes-some (queue_id owner repo branch) w.queues d xs found e)
      ]

-- Without a database addItem is fulfilled and logs the failure, every other operation of the queue
-- manager but `enabled` is rejected, and nothing else changes.
pub offline :
    (s : Services) (owner repo branch : String) (x : Item) (meta : Meta) (n : ℕ) (w : World s)
    → w.online ≡ false
    → (add_item s owner repo branch x w
        ≡ fulfilled tt (record w { log = w.log ++ failure database_error ∷ [] }))
      × (remove_item s owner repo branch x meta w ≡ rejected database_error w)
      × (delete_queue s owner w ≡ rejected database_error w)
      × (get_items s owner repo branch w ≡ rejected database_error w)
      × (get_item s owner repo branch n w ≡ rejected database_error w)
      × (get_first_item s owner repo branch w ≡ rejected database_error w)
      × (get_length s owner repo branch w ≡ rejected database_error w)
unfolding add_item remove_item delete_queue get_items get_some_items get_item get_first_item
    get_length
offline s owner repo branch x meta n w off = ground arith
