-- ===== src/QueueManager/Bookings.antt =====
-- manager-queue.js: the two writes to the collection `queue`, seen as writes to a list of bookings.
use ugo.Base.{
  ℕ, ◌≡◌, inl, inr, String, true, false, not, List, [], ◌∷◌, ◌++◌, some, if◌then◌else◌, str_eq,
  str_eq_iff, any, keep, arith, Option-cases,
}
use mathlib.Core.Option
use ugo.Mongo.{Options, answered, failed, duplicate_key}
use ugo.Model.Queue.{
  Item, QueueDocument, items, has_number, is_booking, always, lacks_number, set_and_push, pull,
}
use ugo.World.{Services, World}
use ugo.QueueManager.{queue_of}

-- The bookings that a collection holds under an `_id`.
abbrev pub bookings : (s : Services) → s.QueueTable → String → List Item
bookings s t k = queue_of (s.queue_collection.stored t k)

abbrev pub booked : (s : Services) → World s → String → List Item
booked s w k = bookings s w.queues k

abbrev pub adding : Options
adding = record { return_original = false; upsert = true }

abbrev pub removing : Options
removing = record { return_original = true; upsert = false }

module _ (s : Services) where
  open s use {queue_collection, queue_driver, queue_queries}

  pub bookings-write :
      (k : String) (d : QueueDocument) (t : s.QueueTable) (j : String)
      → bookings s (queue_collection.write k d t) j
        ≡ (if str_eq k j then items d.queue else bookings s t j)
  bookings-write k d t j = ground (arith, queue_driver.stored-write k d t j)

  module _ (k owner repo : String) (x : Item) (t : s.QueueTable) where
    -- A number that is not booked is put at the end, and the document after the write is returned.
    pub push_new :
        any (has_number x.pull_request_number) (bookings s t k) ≡ false
        → (d : QueueDocument) × (d.queue ≡ some (bookings s t k ++ x ∷ []))
          × (queue_collection.find_one_and_update k
                (lacks_number x.pull_request_number)
                (set_and_push owner repo x)
                adding
                t
              ≡ (queue_collection.write k d t, answered (some d)))
    push_new new = elim (Option-cases (queue_collection.stored t k)) [
      | inl absent ↦ (
        record { owner = some owner; repo = some repo; queue = some (x ∷ []) },
        ground (arith),
        ground (
          arith,
          queue_driver.update-absent k (lacks_number x.pull_request_number)
              (set_and_push owner repo x) adding t absent,
          queue_queries.blank-eq,
          queue_queries.apply-set_and_push owner repo x queue_collection.blank,
        ),
      )
      | inr (d, found) ↦ (
        record { owner = some owner; repo = some repo; queue = some (items d.queue ++ x ∷ []) },
        ground arith,
        ground (
          arith,
          queue_driver.update-matched k (lacks_number x.pull_request_number)
              (set_and_push owner repo x) adding t d found,
          queue_queries.satisfies-lacks_number x.pull_request_number d,
          queue_queries.apply-set_and_push owner repo x d,
        ),
      )
    ]

    -- A number that is booked fails the write.
    pub push_present :
        any (has_number x.pull_request_number) (bookings s t k) ≡ true
        → queue_collection.find_one_and_update k
            (lacks_number x.pull_request_number)
            (set_and_push owner repo x)
            adding
            t
          ≡ (t, failed duplicate_key)
    push_present present = elim (Option-cases (queue_collection.stored t k)) [
      | inl absent ↦ ground arith
      | inr (d, found) ↦ ground (
        arith,
        queue_driver.update-unmatched k (lacks_number x.pull_request_number)
            (set_and_push owner repo x) adding t d found,
        queue_queries.satisfies-lacks_number x.pull_request_number d,
      )
    ]

  -- A removal returns the document before it, and takes out every booking with the two keys.
  pub pull_any :
      (k username : String) (n : ℕ) (t : s.QueueTable)
      → (t' : s.QueueTable) × (queue_collection.find_one_and_update k always
            (pull username n)
            removing
            t
          ≡ (t', answered (queue_collection.stored t k)))
        × ((j : String)
            → bookings s t' j ≡ (
                if str_eq k j
                then keep (λ y. not (is_booking username n y)) (bookings s t j)
                else bookings s t j))
  pull_any k username n t = elim (Option-cases (queue_collection.stored t k)) [
    | inl absent ↦ (
      t,
      ground (arith, queue_driver.update-absent k always (pull username n) removing t absent),
      λ j. ground (arith, str_eq_iff k j),
    )
    | inr (d, found) ↦ (
      queue_collection.write k
          (record d { queue = Option.map (keep (λ y. not (is_booking username n y))) d.queue }) t,
      ground (
        arith,
        queue_driver.update-matched k always (pull username n) removing t d found,
        queue_queries.satisfies-always d,
        queue_queries.apply-pull username n d,
      ),
      λ j. ground (
        arith,
        str_eq_iff k j,
        bookings-write k
            (record d { queue = Option.map (keep (λ y. not (is_booking username n y))) d.queue }) t
            j,
      ),
    )
  ]
