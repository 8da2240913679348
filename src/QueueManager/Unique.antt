-- ===== src/QueueManager/Unique.antt =====
-- manager-queue.js: double bookings.
use ugo.Base.{
  ◌≡◌, refl, String, Bool, false, not, List, [], ◌∷◌, ◌++◌, inl, inr, str_eq_iff, any, keep, arith,
  Bool-cases, any-append,
}
use ugo.Model.Queue.{Item, has_number, is_booking, owner_is}
use ugo.Model.Message.{Meta}
use ugo.World.{Services, World}
use ugo.Promise.{world_of}
use ugo.QueueManager.{queue_id, delete_queue, add_item, remove_item}
use ugo.QueueManager.Bookings.{booked}
use ugo.QueueManager.Effects.{add_item_new, add_item_present, remove_item_lem}
use ugo.QueueManager.Queries.{offline}

-- No two bookings have the same number.
abbrev pub Distinct : List Item → Type 0
Distinct [] = Unit
Distinct (x ∷ xs) = (any (has_number x.pull_request_number) xs ≡ false) × Distinct xs

pub Distinct-append :
    (xs : List Item) (x : Item)
    → Distinct xs
    → any (has_number x.pull_request_number) xs ≡ false
    → Distinct (xs ++ x ∷ [])
Distinct-append [] x d new = (refl, tt)
Distinct-append (y ∷ xs) x (fresh, d) new =
    ground
      (arith, any-append (has_number y.pull_request_number) xs (x ∷ []), Distinct-append xs x d)

pub any-keep : (p q : Item → Bool) (xs : List Item) → any p xs ≡ false → any p (keep q xs) ≡ false
any-keep p q [] none_of = refl
any-keep p q (x ∷ xs) none_of = ground (arith, any-keep p q xs)

pub Distinct-keep : (q : Item → Bool) (xs : List Item) → Distinct xs → Distinct (keep q xs)
Distinct-keep q [] d = tt
Distinct-keep q (x ∷ xs) (fresh, d) =
    ground (arith, any-keep (has_number x.pull_request_number) q xs fresh, Distinct-keep q xs d)

-- Every queue of a collection.
abbrev pub AllDistinct : (s : Services) → World s → Type 0
AllDistinct s w = (k : String) → Distinct (booked s w k)

module _ (s : Services) where
  pub AllDistinct-add_item :
      (owner repo branch : String) (x : Item) (w : World s)
      → AllDistinct s w
      → AllDistinct s (world_of (add_item s owner repo branch x w))
  AllDistinct-add_item owner repo branch x w all k = elim (Bool-cases w.online) [
    | inr off ↦
        rw
          (offline s owner repo branch x (record { closed = false; first_item_changed = false }) 0 w
            off).0
          (all k)
    | inl on ↦
        elim (Bool-cases
          (any (has_number x.pull_request_number) (booked s w (queue_id owner repo branch)))) [
            | inl present ↦ rw (add_item_present s owner repo branch x w on present) (all k)
            | inr new ↦
                let (t, e, after) = add_item_new s owner repo branch x w on new in
                rw (e, after k)
                  (ground (
                    arith,
                    all k,
                    str_eq_iff (queue_id owner repo branch) k,
                    Distinct-append (booked s w k) x (all k),
                  ))
          ]
  ]

  pub AllDistinct-remove_item :
      (owner repo branch : String) (x : Item) (meta : Meta) (w : World s)
      → AllDistinct s w
      → AllDistinct s (world_of (remove_item s owner repo branch x meta w))
  AllDistinct-remove_item owner repo branch x meta w all k = elim (Bool-cases w.online) [
    | inr off ↦ rw (offline s owner repo branch x meta 0 w off).1 (all k)
    | inl on ↦
        let (t, e, after) = remove_item_lem s owner repo branch x w meta on in
        rw (e, after k)
          (ground (
            arith,
            all k,
            Distinct-keep (λ y. not (is_booking x.username x.pull_request_number y)) (booked s w k)
                (all k),
          ))
  ]

  pub AllDistinct-delete_queue :
      (owner : String) (w : World s)
      → AllDistinct s w
      → AllDistinct s (world_of (delete_queue s owner w))
  unfolding delete_queue
  AllDistinct-delete_queue owner w all k =
      ground (arith, all k, s.queue_driver.stored-delete_many (owner_is owner) w.queues k)
