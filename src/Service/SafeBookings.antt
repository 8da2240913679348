-- ===== src/Service/SafeBookings.antt =====
-- Double bookings along the operations of manager-queue.js that change a queue.
use ugo.Base.{◌≡◌, String, arith}
use ugo.Model.Queue.{Item}
use ugo.Model.Message.{Meta}
use ugo.World.{Services, World}
use ugo.Promise.{world_of}
use ugo.QueueManager as Queue
use ugo.QueueManager.Unique.{
  AllDistinct-add_item, AllDistinct-remove_item, AllDistinct-delete_queue,
}
use ugo.Service.Safe.{KeepsSafe, KeepsSafe-booking}

module _ (s : Services) where
  infos-add_item :
      (owner repo branch : String) (x : Item) (w : World s)
      → (world_of (Queue.add_item s owner repo branch x w)).installation_infos
        ≡ w.installation_infos
  unfolding Queue.add_item
  infos-add_item owner repo branch x w = ground arith

  infos-remove_item :
      (owner repo branch : String) (x : Item) (meta : Meta) (w : World s)
      → (world_of (Queue.remove_item s owner repo branch x meta w)).installation_infos
        ≡ w.installation_infos
  unfolding Queue.remove_item
  infos-remove_item owner repo branch x meta w = ground arith

  infos-delete_queue :
      (owner : String) (w : World s)
      → (world_of (Queue.delete_queue s owner w)).installation_infos ≡ w.installation_infos
  unfolding Queue.delete_queue
  infos-delete_queue owner w = ground arith

  pub KeepsSafe-add_item :
      (owner repo branch : String) (x : Item) → KeepsSafe (Queue.add_item s owner repo branch x)
  KeepsSafe-add_item owner repo branch x =
      KeepsSafe-booking (Queue.add_item s owner repo branch x)
        (AllDistinct-add_item s owner repo branch x) (infos-add_item owner repo branch x)

  pub KeepsSafe-remove_item :
      (owner repo branch : String) (x : Item) (meta : Meta)
      → KeepsSafe (Queue.remove_item s owner repo branch x meta)
  KeepsSafe-remove_item owner repo branch x meta =
      KeepsSafe-booking (Queue.remove_item s owner repo branch x meta)
        (AllDistinct-remove_item s owner repo branch x meta)
        (infos-remove_item owner repo branch x meta)

  pub KeepsSafe-delete_queue : (owner : String) → KeepsSafe (Queue.delete_queue s owner)
  KeepsSafe-delete_queue owner =
      KeepsSafe-booking (Queue.delete_queue s owner) (AllDistinct-delete_queue s owner)
        (infos-delete_queue owner)
