-- ===== src/Service/Notifications.antt =====
-- Double bookings along the callbacks of handler-notification-push.js.
use ugo.Base.{ℕ, String, Option, arith, length}
use ugo.Model.Notification.{NotificationData, PushNotification}
use ugo.Model.Message.{
  Message, Checks, send_checks, cancel_checks, item_remove, send_queue_first, sent_ok, sent_ko,
  cancel_ok, cancel_ko,
}
use ugo.World.{Services, World}
use ugo.Promise.{◌>>=◌, world_of}
use ugo.Keeps.{AllKeep}
use ugo.NotificationManager.{save_notification, get_notification, delete_notification}
use ugo.NotificationHandler.{
  send_notification, cancel_notification, cancel_checks_notification, send_checks_notification,
  send_first_in_queue_notification, subscribers, checks_data, send_time, push_of, checks_id,
}
use ugo.Service.Safe.{Safe-refl, Unmoved, Safe, KeepsSafe, KeepsSafe-then, KeepsSafe-queues}

module _ {s : Services} where
  queues-send_notification :
      (n : PushNotification) (w : World s) → Unmoved w (world_of (send_notification s n w))
  unfolding send_notification
  queues-send_notification n w = (ground arith, ground arith)

  queues-cancel_notification :
      (k : String) (w : World s) → Unmoved w (world_of (cancel_notification s k w))
  unfolding cancel_notification get_notification delete_notification
  queues-cancel_notification k w = (ground arith, ground arith)

  queues-save_notification :
      (i : Option String) (d : NotificationData) (w : World s)
      → Unmoved w (world_of (save_notification s i d w))
  unfolding save_notification
  queues-save_notification i d w = (ground arith, ground arith)

  KeepsSafe-cancel_checks :
      (owner repo : String) (n : ℕ) (username : String)
      → KeepsSafe (cancel_checks_notification s owner repo n username)
  unfolding cancel_checks_notification
  KeepsSafe-cancel_checks owner repo n username =
      KeepsSafe-queues (cancel_notification s (checks_id owner repo n username))
        (queues-cancel_notification (checks_id owner repo n username))

  queues-first :
      (owner repo : String) (n : ℕ) (username : String) (w : World s)
      → Unmoved w (world_of (send_first_in_queue_notification s owner repo n username w))
  unfolding send_first_in_queue_notification send_notification
  queues-first owner repo n username w = (ground arith, ground arith)

  KeepsSafe-first :
      (owner repo : String) (n : ℕ) (username : String)
      → KeepsSafe (send_first_in_queue_notification s owner repo n username)
  KeepsSafe-first owner repo n username =
      KeepsSafe-queues (send_first_in_queue_notification s owner repo n username)
        (queues-first owner repo n username)

  KeepsSafe-send_checks : (c : Checks) → KeepsSafe (send_checks_notification s c)
  unfolding send_checks_notification
  KeepsSafe-send_checks c w =
      let d = checks_data s c (send_time s (length w.pushes)) in
      KeepsSafe-then (cancel_checks_notification s c.owner c.repo c.pull_request_number c.username)
        (λ _. send_notification s (push_of s d) >>= λ id. save_notification s id d)
        (KeepsSafe-cancel_checks c.owner c.repo c.pull_request_number c.username)
        (λ _.
          KeepsSafe-then (send_notification s (push_of s d)) (λ id. save_notification s id d)
            (KeepsSafe-queues (send_notification s (push_of s d))
              (queues-send_notification (push_of s d)))
            (λ id. KeepsSafe-queues (save_notification s id d) (queues-save_notification id d)))
        w

pub KeepsSafe-notifications :
    (s : Services) (m : Message) → AllKeep (Safe {s = s}) (subscribers s m)
unfolding subscribers
KeepsSafe-notifications s (send_checks c) = (KeepsSafe-send_checks c, tt)
KeepsSafe-notifications s (cancel_checks c) =
    (KeepsSafe-cancel_checks c.owner c.repo c.pull_request_number c.username, tt)
KeepsSafe-notifications s (item_remove owner repo branch x meta) =
    (KeepsSafe-cancel_checks owner repo x.pull_request_number x.username, tt)
KeepsSafe-notifications s (send_queue_first owner repo n username) =
    (KeepsSafe-first owner repo n username, tt)
KeepsSafe-notifications s sent_ok = (Safe-refl, tt)
KeepsSafe-notifications s sent_ko = (Safe-refl, tt)
KeepsSafe-notifications s cancel_ok = (Safe-refl, tt)
KeepsSafe-notifications s cancel_ko = (Safe-refl, tt)
KeepsSafe-notifications s _ = tt
