-- ===== src/Model/Notification.antt =====
-- manager-notification-push.js and handler-notification-push.js: the documents of the collection
-- `pushNotification`, and the requests to OneSignal.
use ugo.Base.{ℕ, String, ◌≡◌, Option, none, some}
use ugo.Mongo.{Collection}
use ugo.Model.PullRequest.{or_old}

-- The data of a pending notification; its time of creation, which nobody reads, is left out.
pub record NotificationData : Type 0 where
  pub title : String
  pub message : String
  pub send_at : String
  pub owner : String
  pub repo : String
  pub pull_request_number : ℕ
  pub username : String
  pub kind : String

-- The id that OneSignal gave, and the data; a key that is absent is `none`.
pub record NotificationDocument : Type 0 where
  pub id : Option String
  pub content : Option NotificationData

-- `{ $set: { ...response, ...data } }`.
pub data Update : Type 0 where
  set_notification : Option String → NotificationData → Update

-- `{ id: true, _id: false }`.
pub data Projection : Type 0 where
  id_only : Projection

pub record IsNotificationQueries {T C : Type 0}
    (c : Collection T NotificationDocument C Update Projection (Option String)) : Type 0 where
  pub blank-eq : c.blank ≡ record { id = none; content = none }
  pub apply-set_notification :
      (id : Option String) (n : NotificationData) (d : NotificationDocument)
      → c.apply (set_notification id n) d ≡ record { id = or_old id d.id; content = some n }
  pub project-id_only : (d : NotificationDocument) → c.project id_only d ≡ d.id

-- A `Notification` of onesignal-node, and the two requests.
pub record PushNotification : Type 0 where
  pub send_after : Option String
  pub contents : String
  pub headings : String
  pub url : String
  pub username : String

pub data PushRequest : Type 0 where
  send_push : PushNotification → PushRequest
  cancel_push : Option String → PushRequest

-- A rejection, data with errors, and data without errors that may have an id.
pub data PushAnswer : Type 0 where
  broken : PushAnswer
  with_errors : PushAnswer
  accepted : Option String → PushAnswer
