-- ===== src/NotificationManager.antt =====
-- manager-notification-push.js: the pending notification of a booking, a document of the collection
-- `pushNotification`.
pub mod Effects
use ugo.Base.{ℕ, String, Bool, Option, none, some, if◌then◌else◌, dashed, decimal}
use ugo.Model.Notification.{NotificationData, set_notification, id_only}
use ugo.World.{Services, World, fulfilled, Promise}
use ugo.Promise.{has_database, ◌>>=◌, ◌>>◌, resolve, get_collection}

-- `${owner}-${repo}-${pullRequestNumber}-${username}-${type}`.
abbrev pub get_notification_id : String → String → ℕ → String → String → String
get_notification_id owner repo n username kind =
    dashed owner (dashed repo (dashed (decimal n) (dashed username kind)))

abbrev pub id_of_data : NotificationData → String
id_of_data d = get_notification_id d.owner d.repo d.pull_request_number d.username d.kind

module _ (s : Services) where
  open s use {notification_collection}

  abbrev pub enabled : World s → Bool
  enabled w = has_database w

  -- `saveNotification`, with the id of a response; what it returns is not read.
  unfoldable pub save_notification : Option String → NotificationData → Promise s (Unit {0})
  save_notification id d w =
      if enabled w
      then (do
        get_collection
        λ v. fulfilled tt (record v {
          notifications =
              notification_collection.upsert_one (id_of_data d) (set_notification id d)
                v.notifications;
        }))
          w
      else fulfilled tt w

  -- `getNotification`: a document that is found has an id or not.
  unfoldable pub get_notification : String → Promise s (Option (Option String))
  get_notification id w =
      if enabled w
      then (do
        get_collection
        λ v. fulfilled (notification_collection.find_by_id id id_only v.notifications) v)
          w
      else fulfilled none w

  unfoldable pub delete_notification : String → Promise s (Unit {0})
  delete_notification id w =
      if enabled w
      then (do
        get_collection
        λ v.
            fulfilled tt
              (record v { notifications = notification_collection.delete_one id v.notifications }))
          w
      else fulfilled tt w
