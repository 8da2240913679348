-- ===== src/Service.antt =====
-- The service as a whole: requests of GitHub and of the front end, and the delivery of what was
-- published, in any order. Each runs to its end before the next one.
pub mod Safe
pub mod SafeBookings
pub mod SafeEvents
pub mod SafeRequests
pub mod SafeRoutes
pub mod Notifications
pub mod Channel
pub mod Invariant
pub mod Revoked
use mathlib.Core.List.{Mem}
use ugo.Base.{Bool, String, List, [], ◌∷◌, ◌++◌, Option}
use ugo.Model.Queue.{Item}
use ugo.Model.Message.{Message}
use ugo.Model.Webhook.{WebhookRequest}
use ugo.World.{Services, World, Promise}
use ugo.Promise.{detached, world_of, all_of}
use ugo.Reply.{Reply}
use ugo.Authenticator.{Access}
use ugo.QueueRoutes.{Method}
use ugo.QueueRoutes.Api.{queue_request, channel_request, pull_requests_request}
use ugo.Webhook.Route.{webhook}
use ugo.QueueEvents as Events
use ugo.NotificationHandler as Push
use ugo.PusherHandler as Pusher
use ugo.MetricsManager as Metrics

module _ (s : Services) where
  -- The callbacks of a message; nobody waits for them.
  abbrev pub each_detached : List (Promise s (Unit {0})) → List (Promise s (Unit {0}))
  each_detached [] = []
  each_detached (m ∷ ms) = detached m ∷ each_detached ms

  -- In the order in which index.js loads the files.
  abbrev pub all_subscribers : Message → List (Promise s (Unit {0}))
  all_subscribers m =
      Events.subscribers s m
      ++ Push.subscribers s m
      ++ Pusher.subscribers s m
      ++ Metrics.subscribers s m

  unfoldable pub deliver : Message → Promise s (Unit {0})
  deliver m = all_of (each_detached (all_subscribers m))

module _ (s : Services) (Body : Type 0) (validate : Body → Option Item) where
  -- A request, by the router that serves it.
  pub data Call : Type 0 where
    github : WebhookRequest → Call
    queue : Access → String → Method s Body validate → Call
    channel : Access → String → Call
    pull_requests : Access → Call

  unfoldable pub perform : Call → Promise s (List Reply)
  perform (github r) = webhook s r
  perform (queue a branch method) = queue_request s Body validate a branch method
  perform (channel a branch) = channel_request s a branch
  perform (pull_requests a) = pull_requests_request s a

  -- One step of the service.
  pub data Step (w : World s) : World s → Type 0 where
    serves : (c : Call) → Step w (world_of (perform c w))
    delivers : (m : Message) → Mem m w.published → Step w (world_of (deliver s m w))
    -- The database comes or goes, or begins or ends to reject what is asked of it.
    turns : (online refusing : Bool) → Step w (record w { online = online; refusing = refusing })

  pub data Reach (w : World s) : World s → Type 0 where
    here : Reach w w
    next : {v u : World s} → Reach w v → Step v u → Reach w u
