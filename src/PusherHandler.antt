-- ===== src/PusherHandler.antt =====
-- handler-notification-pusher.js: the updates of a queue's channel. What the client of Pusher refuses
-- is left out.
use ugo.Base.{String, List, [], ◌∷◌, ◌++◌, dashed}
use ugo.Model.Queue.{Item}
use ugo.Model.Message.{Message, send_update}
use ugo.Model.Outside.{Trigger}
use ugo.World.{Services, Promise, fulfilled}

-- `${owner}-${repo}-${branch}`.
abbrev pub channel_id : String → String → String → String
channel_id owner repo branch = dashed owner (dashed repo branch)

module _ (s : Services) where
  unfoldable pub send_queue_update : String → String → String → List Item → Promise s (Unit {0})
  send_queue_update owner repo branch items w =
      let update : Trigger = record {
        channel = channel_id owner repo branch;
        event = "queue.update";
        items = items;
      } in
      fulfilled tt (record w { triggers = w.triggers ++ update ∷ [] })

  unfoldable pub subscribers : Message → List (Promise s (Unit {0}))
  subscribers (send_update owner repo branch items) = send_queue_update owner repo branch items ∷ []
  subscribers _ = []
