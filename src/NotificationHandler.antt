-- ===== src/NotificationHandler.antt =====
-- handler-notification-push.js: push notifications by OneSignal.
pub mod Laws
pub mod Delay
use ugo.Base.{
  ℕ, ◌+◌, String, Bool, true, false, List, [], ◌∷◌, ◌++◌, Option, none, some, if◌then◌else◌, str_eq,
  decimal, concat, length,
}
use ugo.Model.Notification.{
  NotificationData, PushNotification, PushRequest, send_push, cancel_push, PushAnswer, broken,
  with_errors, accepted,
}
use ugo.Base.Text.Decimal.{to_number}
use ugo.Model.Queue.{Item}
use ugo.Model.Message.{
  Message, Checks, sent_ok, sent_ko, cancel_ok, cancel_ko, send_checks, cancel_checks,
  send_queue_first, item_remove, increment,
}
use ugo.World.{Services, World, Promise, fulfilled, push_error, text, num}
use ugo.Promise.{◌>>=◌, ◌>>◌, catch, resolve, reject_with, publish}
use ugo.GitHub.CombinedStatus.{status_success}
use ugo.NotificationManager.{
  get_notification_id, save_notification, get_notification, delete_notification,
}

abbrev pub notification_type_checks : String
notification_type_checks = "checks"

abbrev pub build_pull_request_url : String → String → ℕ → String
build_pull_request_url owner repo n =
    concat ("https://github.com/" ∷ owner ∷ "/" ∷ repo ∷ "/pull/" ∷ decimal n ∷ [])

-- The id of the pending notification of a booking.
abbrev pub checks_id : String → String → ℕ → String → String
checks_id owner repo n username = get_notification_id owner repo n username notification_type_checks

-- `SEND_DELAY = 60`.
abbrev pub default_delay : ℕ
default_delay = 60

-- `getSeconds() + SEND_DELAY`, as `setSeconds` reads it: the default is a number, and is added; a
-- variable that is set is a text, which is joined to the seconds.
unfoldable pub delayed : ℕ → Option ℕ → ℕ
delayed at none = at + default_delay
delayed at (some delay) = to_number (concat (decimal at ∷ decimal delay ∷ []))

module _ (s : Services) where
  open s use {localize, push, seconds, with_seconds, environment}

  -- A request to OneSignal is recorded, whatever the answer.
  abbrev pub ask : PushRequest → Promise s PushAnswer
  ask r w = fulfilled (push w.pushes r) (record w { pushes = w.pushes ++ r ∷ [] })

  -- The id in the data; an answer that is rejected or has errors is a failure.
  abbrev pub read_answer : PushAnswer → Promise s (Option String)
  read_answer broken = reject_with push_error
  read_answer with_errors = reject_with push_error
  read_answer (accepted id) = resolve id

  -- `sendNotification`; it gives the id in OneSignal's data, and nothing after a failure.
  unfoldable pub send_notification : PushNotification → Promise s (Option String)
  send_notification n =
      catch (do answer ← ask (send_push n); id ← read_answer answer; publish sent_ok; resolve id)
        (λ _. publish sent_ko >> resolve none)

  -- What is asked of the document that was found; one without an id is an object all the same.
  abbrev pub cancel_found : Option (Option String) → Promise s PushAnswer
  cancel_found none = reject_with push_error
  cancel_found (some id) = ask (cancel_push id)

  unfoldable pub cancel_notification : String → Promise s (Unit {0})
  cancel_notification id =
      catch
        (do
          found ← get_notification s id
          answer ← cancel_found found
          read_answer answer
          publish cancel_ok
          delete_notification s id)
        (λ _. publish cancel_ko)

  unfoldable pub send_first_in_queue_notification :
      String → String → ℕ → String → Promise s (Unit {0})
  send_first_in_queue_notification owner repo n username =
      send_notification (record {
        send_after = none;
        contents =
            localize "notification.message.queue.first"
              (("owner", text owner) ∷ ("repo", text repo) ∷ ("pullRequestNumber", num n) ∷ []);
        headings = localize "notification.title.queue.first" [];
        url = build_pull_request_url owner repo n;
        username = username;
      })
      >>= λ _. resolve tt

  -- The data of a notification about checks, with its time.
  abbrev pub checks_data : Checks → String → NotificationData
  checks_data c send_at = record {
    title =
        if str_eq c.state status_success
        then localize "notification.title.checks.passed" []
        else localize "notification.title.checks.failed" [];
    message =
        localize
          (if str_eq c.state status_success
            then "notification.message.checks.passed"
            else "notification.message.checks.failed")
          (("owner", text c.owner)
            ∷ ("repo", text c.repo)
            ∷ ("pullRequestNumber", num c.pull_request_number)
            ∷ []);
    send_at = send_at;
    owner = c.owner;
    repo = c.repo;
    pull_request_number = c.pull_request_number;
    username = c.username;
    kind = notification_type_checks;
  }

  abbrev pub push_of : NotificationData → PushNotification
  push_of d = record {
    send_after = some d.send_at;
    contents = d.message;
    headings = d.title;
    url = build_pull_request_url d.owner d.repo d.pull_request_number;
    username = d.username;
  }

  unfoldable pub cancel_checks_notification : String → String → ℕ → String → Promise s (Unit {0})
  cancel_checks_notification owner repo n username =
      cancel_notification (checks_id owner repo n username)

  abbrev pub send_time : ℕ → String
  send_time at = with_seconds at (delayed (seconds at) environment.send_delay)

  -- The time is taken when the function is called.
  unfoldable pub send_checks_notification : Checks → Promise s (Unit {0})
  send_checks_notification c w =
      let d = checks_data c (send_time (length w.pushes)) in
      (do
        cancel_checks_notification c.owner c.repo c.pull_request_number c.username
        id ← send_notification (push_of d)
        save_notification s id d)
        w

  -- The callbacks of this file that are subscribed to a message.
  unfoldable pub subscribers : Message → List (Promise s (Unit {0}))
  subscribers (send_checks c) = send_checks_notification c ∷ []
  subscribers (cancel_checks c) =
      cancel_checks_notification c.owner c.repo c.pull_request_number c.username ∷ []
  subscribers (item_remove owner repo branch x meta) =
      cancel_checks_notification owner repo x.pull_request_number x.username ∷ []
  subscribers (send_queue_first owner repo n username) =
      send_first_in_queue_notification owner repo n username ∷ []
  subscribers sent_ok = publish (increment "notification.sent.ok" none []) ∷ []
  subscribers sent_ko = publish (increment "notification.sent.ko" none []) ∷ []
  subscribers cancel_ok = publish (increment "notification.cancel.ok" none []) ∷ []
  subscribers cancel_ko = publish (increment "notification.cancel.ko" none []) ∷ []
  subscribers _ = []
