-- ===== src/QueueRoutes/Replies.antt =====
-- routes-queue.js: the replies to a request.
use ugo.Base.{◌≡◌, refl, String, true, [], ◌∷◌, ◌++◌, Option, some, any, arith}
use ugo.Model.Queue.{Item, has_number}
use ugo.World.{Services, World, fulfilled, message}
use ugo.QueueManager.{queue_id, add_item, already_present}
use ugo.QueueManager.Bookings.{booked}
use ugo.Model.User.{User, same_field, text}
use ugo.QueueRoutes.{get, post, serve, get_queue, post_item, next_failure, sent_items, sent_status}
use ugo.QueueManager.Effects.{add_item_present, booked-add_item, online-add_item}
use ugo.QueueManager.{max_safe_integer}
use ugo.QueueManager.Queries.{get_items_lem}
use ugo.QueueRoutes.Rights.{world_of-replying}
use ugo.Promise.{world_of}
use ugo.Base.{length, ◌≤◌, ◌<◌, ap, ◌∙◌, str_eq_refl, length-append, false}

module _ (s : Services) (Body : Type 0) (validate : Body → Option Item) (user : User)
    (owner repo branch : String) where
  -- Where the database answers and the validator accepts the body of a post as a booking of the
  -- user's own: if its number is in the queue already, the only reply is the status 201, and
  -- nothing but the log changes, which says that the pull request is already present.
  pub serve-present :
      (body : Body) (x : Item) (w : World s)
      → w.online ≡ true
      → validate body ≡ some x
      → same_field (text x.username) user.username ≡ true
      → any (has_number x.pull_request_number) (booked s w (queue_id owner repo branch)) ≡ true
      → serve s Body validate user owner repo branch (post body) w
        ≡ fulfilled (sent_status 201 ∷ []) (record w {
          log = w.log ++ message (already_present owner repo branch x.pull_request_number) ∷ [];
        })
  unfolding serve post_item
  serve-present body x w on fits own present =
      ground (arith, fits, add_item_present s owner repo branch x w on present)

  serve-get :
      (w : World s)
      → w.online ≡ true
      → length (booked s w (queue_id owner repo branch)) ≤ max_safe_integer
      → serve s Body validate user owner repo branch get w
        ≡ fulfilled (sent_items (booked s w (queue_id owner repo branch)) ∷ []) w
  unfolding serve get_queue
  serve-get w on short = ground (arith, get_items_lem s owner repo branch w on short)

  world_of-post :
      (body : Body) (x : Item) (w : World s)
      → w.online ≡ true
      → validate body ≡ some x
      → same_field (text x.username) user.username ≡ true
      → world_of (serve s Body validate user owner repo branch (post body) w)
        ≡ world_of (add_item s owner repo branch x w)
  unfolding serve post_item
  world_of-post body x w on fits own = ground (
    arith,
    fits,
    world_of-replying s (add_item s owner repo branch x) (λ _. sent_status 201 ∷ [])
        (λ e. sent_status 201 ∷ next_failure e ∷ []) w,
  )

  -- Where the database answers and the validator accepts the body of a post as a booking of the
  -- user's own, whose number is not in the queue, and the queue is shorter than the largest safe
  -- integer: a get after the post replies with the queue as it was followed by the booking.
  pub serve-get_post :
      (body : Body) (x : Item) (w : World s)
      → w.online ≡ true
      → validate body ≡ some x
      → same_field (text x.username) user.username ≡ true
      → any (has_number x.pull_request_number) (booked s w (queue_id owner repo branch)) ≡ false
      → length (booked s w (queue_id owner repo branch)) < max_safe_integer
      → let w1 = world_of (serve s Body validate user owner repo branch (post body) w) in
        serve s Body validate user owner repo branch get w1
        ≡ fulfilled (sent_items (booked s w (queue_id owner repo branch) ++ x ∷ []) ∷ []) w1
  serve-get_post body x w on fits own new short =
      let id = queue_id owner repo branch in
      let w1 = world_of (add_item s owner repo branch x w) in
      let now : booked s w1 id ≡ booked s w id ++ x ∷ [] =
        booked-add_item s owner repo branch x w on new id ∙ rw (str_eq_refl id) refl in
      rw (world_of-post body x w on fits own) (
        serve-get w1 (online-add_item s owner repo branch x w ∙ on)
          (rw now (omega (arith, length-append {0} (booked s w id) (x ∷ []))))
        ∙ ap (λ xs. fulfilled (sent_items xs ∷ []) w1) now)
