-- ===== src/QueueManager/Shared.antt =====
-- manager-queue.js: two branches of which the queues have the same `_id`.

use ugo.Base.{
  ◌≡◌, ap, ◌∙◌, ◌<◌, length, true, false, any, dashed, arith, str_eq_iff, length-append, [], ◌∷◌,
  ◌++◌, String,
}
use ugo.Model.Queue.{Item, has_number}
use ugo.World.{Services, World, fulfilled}
use ugo.Promise.{world_of}
use ugo.QueueManager.{queue_id, get_items, add_item, max_safe_integer}
use ugo.QueueManager.Bookings.{booked}
use ugo.QueueManager.Effects.{booked-add_item, online-add_item}
use ugo.QueueManager.Queries.{get_items_lem}
use ugo.QueueManager.Ids.{queue_id_shared}

-- Where the database answers, and the queue of the branch `a-b` of a repository `repo` does not
-- hold a pull request and is shorter than the largest safe integer: adding the pull request to the
-- branch `b` of the repository `repo-a` puts it at the end of what getItems returns for the branch
-- `a-b` of `repo`.
pub get_items-add_item_shared :
    (s : Services) (owner repo a b : String) (x : Item) (w : World s)
    → w.online ≡ true
    → any (has_number x.pull_request_number) (booked s w (queue_id owner repo (dashed a b))) ≡ false
    → length (booked s w (queue_id owner repo (dashed a b))) < max_safe_integer
    → get_items s owner repo (dashed a b) (world_of (add_item s owner (dashed repo a) b x w))
      ≡ fulfilled
          (booked s w (queue_id owner repo (dashed a b)) ++ x ∷ [])
          (world_of (add_item s owner (dashed repo a) b x w))
get_items-add_item_shared s owner repo a b x w on new short =
    get_items_lem s owner repo (dashed a b) w' (online-add_item s owner (dashed repo a) b x w ∙ on)
      (rw now (omega (arith, length-append {0} (booked s w id) (x ∷ []))))
    ∙ ap (λ xs. fulfilled xs w') now
  where
    w' : World s
    w' = world_of (add_item s owner (dashed repo a) b x w)

    id : String
    id = queue_id owner repo (dashed a b)

    same : queue_id owner (dashed repo a) b ≡ id
    same = queue_id_shared owner repo a b

    now : booked s w' id ≡ booked s w id ++ x ∷ []
    now = ground (
      arith,
      same,
      str_eq_iff (queue_id owner (dashed repo a) b) id,
      booked-add_item s owner (dashed repo a) b x w on (rw same new) id,
    )
