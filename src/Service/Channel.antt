-- ===== src/Service/Channel.antt =====
-- routes-queue.js and handler-notification-pusher.js: the channel of a queue and its updates.
use ugo.Base.{◌≡◌, refl, String, true, [], ◌∷◌, ◌++◌, some, length, ◌≤◌}
use ugo.Model.User.{User}
use ugo.Model.Message.{Message, send_update}
use ugo.World.{Services, World, fulfilled}
use ugo.Promise.{world_of, all_of}
use ugo.Reply.{sent_channel}
use ugo.Authenticator.{Access, authenticate}
use ugo.QueueManager.{queue_id, max_safe_integer}
use ugo.QueueManager.Bookings.{booked}
use ugo.QueueManager.Queries.{get_items_lem}
use ugo.QueueRoutes.Api.{channel_request}
use ugo.QueueEvents as Events
use ugo.NotificationHandler as Push
use ugo.PusherHandler as Pusher
use ugo.PusherHandler.{channel_id}
use ugo.MetricsManager as Metrics
use ugo.Service.{deliver}

module _ (s : Services) (a : Access) (branch : String) where
  published_update :
      (w : World s)
      → w.online ≡ true
      → length (booked s w (queue_id a.owner a.repository branch)) ≤ max_safe_integer
      → (world_of (Events.push_queue_update s a.owner a.repository branch w)).published
        ≡ w.published
          ++ send_update a.owner a.repository branch
              (booked s w (queue_id a.owner a.repository branch))
            ∷ []
  unfolding Events.push_queue_update
  published_update w on short = rw (get_items_lem s a.owner a.repository branch w on short) refl

  -- Where the database answers, the queue is no longer than the largest safe integer and a user is
  -- let through: the update of the queue that is published triggers, when it is delivered, one
  -- event with all bookings in their order, on the channel that the route of the channel replies
  -- with.
  pub channel-update :
      (u : User) (w v v' : World s)
      → w.online ≡ true
      → length (booked s w (queue_id a.owner a.repository branch)) ≤ max_safe_integer
      → authenticate s a v ≡ fulfilled (some u) v'
      → (m : Message) × (c : String) × ((world_of
            (Events.push_queue_update s a.owner a.repository branch w)).published
          ≡ w.published ++ m ∷ [])
        × (channel_request s a branch v ≡ fulfilled (sent_channel c ∷ []) v')
        × ((x : World s)
            → (world_of (deliver s m x)).triggers
              ≡ x.triggers
                ++ record {
                  channel = c;
                  event = "queue.update";
                  items = booked s w (queue_id a.owner a.repository branch);
                }
                  ∷ [])
  unfolding channel_request deliver all_of Events.subscribers Push.subscribers Pusher.subscribers
      Metrics.subscribers Pusher.send_queue_update
  channel-update u w v v' on short let_in = (
    send_update a.owner a.repository branch (booked s w (queue_id a.owner a.repository branch)),
    channel_id a.owner a.repository branch,
    published_update w on short,
    rw let_in refl,
    λ x. refl,
  )
