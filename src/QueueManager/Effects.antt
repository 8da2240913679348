-- ===== src/QueueManager/Effects.antt =====
-- What the operations of manager-queue.js do to the bookings, on every branch of the code.
use ugo.Base.{
  ◌≡◌, refl, String, Bool, true, false, not, List, [], ◌∷◌, ◌++◌, if◌then◌else◌, str_eq, str_eq_iff,
  length, any, keep, pos, arith, length-append,
}
use ugo.Model.Queue.{Item, has_number, is_booking}
use ugo.Model.Message.{Meta, item_add, item_remove}
use ugo.World.{Services, World, Settled, fulfilled, message}
use ugo.Promise.{world_of}
use ugo.QueueManager.{
  queue_id, head?, is_number, already_present, add_item, remove_item, last_index,
}
use ugo.QueueManager.Bookings.{bookings, booked, bookings-write, push_new, push_present, pull_any}

last_index-append :
    (xs : List Item) (x : Item) → last_index (length (xs ++ x ∷ [])) ≡ pos (length xs)
last_index-append [] x = refl
last_index-append (y ∷ xs) x = ground (arith, length-append xs (x ∷ []))

module _ (s : Services) (owner repo branch : String) (x : Item) (w : World s) where
  -- The state after an addition that is made.
  abbrev pub Added : Settled s (Unit {0}) → Type 0
  Added r =
      (t : s.QueueTable) × (r
        ≡ fulfilled tt (record w {
          queues = t;
          published =
              w.published
              ++ item_add owner repo branch x
                  (pos (length (booked s w (queue_id owner repo branch))))
                ∷ [];
        }))
      × ((j : String)
          → bookings s t j ≡ (
              if str_eq (queue_id owner repo branch) j
              then booked s w j ++ x ∷ []
              else booked s w j))

  -- Where the database answers, adding a pull request whose number is not in the branch's queue puts
  -- it at the end, changes no other queue, and publishes `item.add` with the number of bookings
  -- before it as the index.
  pub add_item_new :
      w.online ≡ true
      → any (has_number x.pull_request_number) (booked s w (queue_id owner repo branch)) ≡ false
      → Added (add_item s owner repo branch x w)
  unfolding add_item
  add_item_new on new =
      let (d, items_d, e) = push_new s (queue_id owner repo branch) owner repo x w.queues new in
      (
        s.queue_collection.write (queue_id owner repo branch) d w.queues,
        ground
            (arith, on, e, items_d, last_index-append (booked s w (queue_id owner repo branch)) x),
        λ j. ground (
          arith,
          items_d,
          str_eq_iff (queue_id owner repo branch) j,
          bookings-write s (queue_id owner repo branch) d w.queues j,
        ),
      )

  -- The queues at the end of an addition that is made.
  pub booked-add_item :
      w.online ≡ true
      → any (has_number x.pull_request_number) (booked s w (queue_id owner repo branch)) ≡ false
      → (j : String)
      → booked s (world_of (add_item s owner repo branch x w)) j
        ≡ (if str_eq (queue_id owner repo branch) j then booked s w j ++ x ∷ [] else booked s w j)
  booked-add_item on new j = let (t, e, after) = add_item_new on new in rw e (after j)

  -- Where the database answers, adding a pull request whose number is in the branch's queue is
  -- fulfilled and changes nothing but the log, which says that it is already present.
  pub add_item_present :
      w.online ≡ true
      → any (has_number x.pull_request_number) (booked s w (queue_id owner repo branch)) ≡ true
      → add_item s owner repo branch x w
        ≡ fulfilled tt (record w {
          log = w.log ++ message (already_present owner repo branch x.pull_request_number) ∷ [];
        })
  unfolding add_item
  add_item_present on present =
      ground (arith, push_present s (queue_id owner repo branch) owner repo x w.queues present)

  -- The state after a removal.
  abbrev pub Removed : Meta → Settled s (Unit {0}) → Type 0
  Removed meta r =
      (t : s.QueueTable) × (r
        ≡ fulfilled tt (record w {
          queues = t;
          published =
              w.published
              ++ item_remove owner repo branch x (record meta {
                first_item_changed =
                    is_number (head? (booked s w (queue_id owner repo branch)))
                      x.pull_request_number;
              })
                ∷ [];
        }))
      × ((j : String)
          → bookings s t j ≡ (
              if str_eq (queue_id owner repo branch) j
              then keep (λ y. not (is_booking x.username x.pull_request_number y)) (booked s w j)
              else booked s w j))

  -- Where the database answers, a removal takes the bookings with the item's user and number out of
  -- the branch's queue and changes no other queue; `item.remove` is published in every case, with
  -- the test whether the first booking of the queue as it was has the number.
  pub remove_item_lem :
      (meta : Meta) → w.online ≡ true → Removed meta (remove_item s owner repo branch x meta w)
  unfolding remove_item
  remove_item_lem meta on =
      let (t, e, after) =
        pull_any s (queue_id owner repo branch) x.username x.pull_request_number w.queues in
      (t, ground (arith, on, e), after)

  -- Whether there is a database does not change.
  pub online-add_item : (world_of (add_item s owner repo branch x w)).online ≡ w.online
  unfolding add_item
  online-add_item = ground arith

keep-absent : (p : Item → Bool) (xs : List Item) → any p xs ≡ false → keep (λ y. not (p y)) xs ≡ xs
keep-absent p [] absent = refl
keep-absent p (y ∷ ys) absent = ground (arith, keep-absent p ys)

-- Where the database answers, a removal of an item whose user and number are together in no booking
-- of the branch's queue changes no queue, and publishes `item.remove` all the same, with the test
-- whether the first booking has the number, of whatever user it is.
pub remove_item_absent :
    (s : Services) (owner repo branch : String) (x : Item) (meta : Meta) (w : World s)
    → w.online ≡ true
    → any (is_booking x.username x.pull_request_number) (booked s w (queue_id owner repo branch))
      ≡ false
    → (t : s.QueueTable) × (remove_item s owner repo branch x meta w
        ≡ fulfilled tt (record w {
          queues = t;
          published =
              w.published
              ++ item_remove owner repo branch x (record meta {
                first_item_changed =
                    is_number
                      (head? (booked s w (queue_id owner repo branch)))
                      x.pull_request_number;
              })
                ∷ [];
        }))
      × ((j : String) → bookings s t j ≡ booked s w j)
remove_item_absent s owner repo branch x meta w on absent =
    let (t, e, after) = remove_item_lem s owner repo branch x w meta on in
    (
      t,
      e,
      λ j. ground (
        arith,
        after j,
        str_eq_iff (queue_id owner repo branch) j,
        keep-absent (is_booking x.username x.pull_request_number) (booked s w j),
      ),
    )
