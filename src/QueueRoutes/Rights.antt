-- ===== src/QueueRoutes/Rights.antt =====
-- routes-queue.js: what a user can do to the bookings.
use ugo.Base.{
  ◌≡◌, refl, inl, inr, String, Bool, true, false, not, List, [], ◌∷◌, ◌++◌, Option, str_eq,
  str_eq_iff, keep, arith, Bool-cases, Option-cases,
}
use ugo.Model.Queue.{Item}
use ugo.World.{Services, World, Promise, Failure}
use ugo.Promise.{has_database, world_of}
use ugo.QueueManager.Queries.{offline}
use ugo.GitHub.Frame.{Settled-cases}
use ugo.QueueManager.{add_item, remove_item, get_items, get_some_items, no_meta}
use ugo.QueueManager.Bookings.{booked}
use ugo.QueueManager.Refinement.{adds, removes, after_call, cancel, booked-after_call}
use ugo.Model.User.{User, Field, undefined, null, text, same_field}
use ugo.QueueRoutes.{
  Reply, replying, Method, get, post, delete, serve, get_queue, post_item, delete_item, authorized,
}

-- The bookings of other users.
abbrev pub is_others : User → Item → Bool
is_others user x = not (same_field (text x.username) user.username)

same_field-text :
    (a b : String) (f : Field) → str_eq a b ≡ true → same_field (text a) f ≡ same_field (text b) f
same_field-text a b undefined e = refl
same_field-text a b null e = refl
same_field-text a b (text c) e = rw ((str_eq_iff a b).0 e) refl

keep-book :
    (u : User) (x : Item) (xs : List Item)
    → is_others u x ≡ false
    → keep (is_others u) (xs ++ x ∷ []) ≡ keep (is_others u) xs
keep-book u x [] own = ground arith
keep-book u x (y ∷ ys) own = ground (arith, keep-book u x ys own)

keep-cancel :
    (u : User) (x : Item) (xs : List Item)
    → is_others u x ≡ false
    → keep (is_others u) (cancel x xs) ≡ keep (is_others u) xs
keep-cancel u x [] own = refl
keep-cancel u x (y ∷ ys) own =
    ground (arith, keep-cancel u x ys own, same_field-text y.username x.username u.username)

module _ (s : Services) where
  pub world_of-replying :
      {A : Type 0} (m : Promise s A) (f : A → List Reply) (g : Failure → List Reply) (w : World s)
      → world_of (replying s m f g w) ≡ world_of (m w)
  world_of-replying m f g w = elim (Settled-cases (m w)) [
    | inl (a, v, e) ↦ rw e refl
    | inr (x, v, e) ↦ rw e refl
  ]

  others-post_item :
      (u : User) (owner repo branch : String) (x : Item) (w : World s) (k : String)
      → is_others u x ≡ false
      → keep (is_others u) (booked s (world_of (post_item s owner repo branch x w)) k)
        ≡ keep (is_others u) (booked s w k)
  unfolding post_item after_call
  others-post_item u owner repo branch x w k own = elim (Bool-cases w.online) [
    | inr off ↦
        rw
          (
            world_of-replying (add_item s owner repo branch x) _ _ w,
            (offline s owner repo branch x no_meta 0 w off).0,
          )
          refl
    | inl on ↦
        rw
          (
            world_of-replying (add_item s owner repo branch x) _ _ w,
            booked-after_call s w (adds owner repo branch x) k on,
          )
          (ground (arith, keep-book u x (booked s w k) own))
  ]

  others-delete_item :
      (u : User) (owner repo branch : String) (x : Item) (w : World s) (k : String)
      → is_others u x ≡ false
      → keep (is_others u) (booked s (world_of (delete_item s owner repo branch x w)) k)
        ≡ keep (is_others u) (booked s w k)
  unfolding delete_item after_call
  others-delete_item u owner repo branch x w k own = elim (Bool-cases w.online) [
    | inr off ↦
        rw
          (
            world_of-replying (remove_item s owner repo branch x no_meta) _ _ w,
            (offline s owner repo branch x no_meta 0 w off).1,
          )
          refl
    | inl on ↦
        rw
          (
            world_of-replying (remove_item s owner repo branch x no_meta) _ _ w,
            booked-after_call s w (removes owner repo branch x no_meta) k on,
          )
          (ground (arith, keep-cancel u x (booked s w k) own))
  ]

  pub queues-get_queue :
      (owner repo branch : String) (w : World s)
      → (world_of (get_queue s owner repo branch w)).queues ≡ w.queues
  unfolding get_queue get_items get_some_items
  queues-get_queue owner repo branch w = ground arith

module _ (s : Services) (Body : Type 0) (validate : Body → Option Item) where
  -- What a change does to the bookings of others, behind the tests of the route.
  others-authorized :
      (u : User) (x : Item) (m : Promise s (List Reply)) (w : World s) (k : String)
      → u.is_admin ≡ false
      → (is_others u x ≡ false
          → keep (is_others u) (booked s (world_of (m w)) k) ≡ keep (is_others u) (booked s w k))
      → keep (is_others u) (booked s (world_of (authorized s u x m w)) k)
        ≡ keep (is_others u) (booked s w k)
  others-authorized u x m w k plain h = elim (Bool-cases (is_others u x)) [
    | inl other ↦ rw (other, plain) refl
    | inr own ↦ rw own (h own)
  ]

  -- A request of a user who is no administrator, of any method and with any body, leaves the
  -- bookings of other users in every queue as they were, in their order.
  pub serve-others :
      (u : User) (owner repo branch : String) (method : Method s Body validate) (w : World s)
      (k : String)
      → u.is_admin ≡ false
      → keep
          (is_others u)
          (booked s (world_of (serve s Body validate u owner repo branch method w)) k)
        ≡ keep (is_others u) (booked s w k)
  unfolding serve
  serve-others u owner repo branch get w k plain = rw (queues-get_queue s owner repo branch w) refl
  serve-others u owner repo branch (post body) w k plain = elim (Bool-cases (has_database w)) [
    | inr off ↦ ground (arith, off)
    | inl on ↦ elim (Option-cases (validate body)) [
      | inl refused ↦ ground (arith, refused)
      | inr (x, fits) ↦ ground (
        arith,
        fits,
        others-authorized u x (post_item s owner repo branch x) w k plain
            (others-post_item s u owner repo branch x w k),
      )
    ]
  ]
  serve-others u owner repo branch (delete body) w k plain = elim (Bool-cases (has_database w)) [
    | inr off ↦ ground (arith, off)
    | inl on ↦ elim (Option-cases (validate body)) [
      | inl refused ↦ ground (arith, refused)
      | inr (x, fits) ↦ ground (
        arith,
        fits,
        others-authorized u x (delete_item s owner repo branch x) w k plain
            (others-delete_item s u owner repo branch x w k),
      )
    ]
  ]
