-- ===== src/Sample/Notifications.antt =====
-- The theorems on handler-notification-push.js at the first booking of a branch.
use ugo.Base.{◌≡◌, refl, String, [], ◌∷◌, ◌++◌, some, none, true, if◌then◌else◌, str_eq, ◌&&◌}
use ugo.Model.PullRequest.{or_old}
use ugo.Model.Notification.{NotificationData, PushNotification, send_push, cancel_push}
use ugo.Model.Message.{Checks, cancel_ok, cancel_ko}
use ugo.World.{World, fulfilled}
use ugo.Promise.{world_of}
use ugo.NotificationManager.Effects.{pending}
use ugo.NotificationHandler.{
  checks_id, checks_data, send_time, push_of, send_checks_notification, cancel_checks_notification,
  cancel_notification,
}
use ugo.NotificationHandler.Laws.{
  asked, left_id, id_in, is_cancelled, send_checks_notification_lem, cancel_notification_lem,
  cancel_checks_notification-send_checks_notification,
}
use ugo.NotificationHandler.{delayed}
use ugo.Base.{decimal}
use ugo.Base.Text.Decimal.{value_from}
use ugo.Sample.Data.{running, state}

abbrev passed : Checks
passed = record {
  owner = "acme";
  repo = "shop";
  branch = some "main";
  pull_request_number = 1;
  username = "ann";
  state = "success";
}

abbrev id : String
id = checks_id "acme" "shop" 1 "ann"

abbrev notice : NotificationData
notice = checks_data running passed (send_time running 0)

abbrev push_notice : PushNotification
push_notice = push_of running notice

abbrev after_send : World running
after_send = world_of (send_checks_notification running passed state)

send_checks_notification_lem_example :
    (w' : World running) × (send_checks_notification running passed state ≡ fulfilled tt w')
    × (w'.online ≡ true)
    × (w'.pushes ≡ (state.pushes ++ asked (pending running state id)) ++ send_push push_notice ∷ [])
    × (pending running w' id
        ≡ some (record {
          id =
              or_old
                (id_in (
                  running.push
                    (state.pushes ++ asked (pending running state id))
                    (send_push push_notice)))
                (left_id running state (pending running state id));
          content = some notice;
        }))
    × ((j : String)
        → pending running w' j
          ≡ (if str_eq id j then pending running w' id else pending running state j))
send_checks_notification_lem_example = send_checks_notification_lem running state refl passed

cancel_notification_lem_example :
    (w' : World running) × (cancel_notification running id state ≡ fulfilled tt w')
    × (w'.online ≡ true)
    × (w'.pushes ≡ state.pushes ++ asked (pending running state id))
    × (w'.published
        ≡ state.published
          ++ (if is_cancelled running state (pending running state id)
              then cancel_ok
              else cancel_ko)
            ∷ [])
    × ((j : String)
        → pending running w' j ≡ (
            if is_cancelled running state (pending running state id) && str_eq id j
            then none
            else pending running state j))
cancel_notification_lem_example = cancel_notification_lem running state refl id

cancel_checks_notification-send_checks_notification_example :
    (world_of (cancel_checks_notification running "acme" "shop" 1 "ann" after_send)).pushes
    ≡ ((state.pushes ++ asked (pending running state id)) ++ send_push push_notice ∷ [])
      ++ cancel_push (
          or_old
            (id_in (
              running.push
                (state.pushes ++ asked (pending running state id))
                (send_push push_notice)))
            (left_id running state (pending running state id)))
        ∷ []
cancel_checks_notification-send_checks_notification_example =
    cancel_checks_notification-send_checks_notification running state passed refl

-- With a delay of 60 that is set, 42 seconds past a minute: 71 minutes later.
delayed_runs : delayed 42 (some 60) ≡ 4260
unfolding delayed decimal value_from
delayed_runs = refl
